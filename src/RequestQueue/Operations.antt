-- ===== src/RequestQueue/Operations.antt =====
-- The operations of `RequestQueueManager` in inference_node/request_queue.py, cut where the source
-- waits: each function runs from one `await` that may suspend to the next. In the Python that the node
-- runs on, asyncio.TimeoutError and TimeoutError are one class.
use llama_net.Prelude.{
  ℕ, suc, ◌+◌, ◌-◌, Bool, true, false, not, ◌&&◌, ◌||◌, Option, none, some, List, [], ◌∷◌, ◌++◌,
  String, str_eq, starts_with, leb, ltb, keep, length, if◌then◌else◌,
}
use llama_net.Prelude.Dict
use llama_net.Prelude.Dict.{Dict}
use llama_net.Prelude.Text
use llama_net.Json.{Value}
use llama_net.RequestQueue.State.{
  RequestStatus, queued, processing, completed, failed, cancelled, timed_out, Future, pending,
  result, timeout_error, exception, at_top, getting, working, holding, cancelled_future,
  RequestData, QueuedRequest, Stats, Manager, max_queue_wait, max_per_key_in_queue,
}

abbrev pub is_queued : RequestStatus → Bool
is_queued queued = true
is_queued _ = false

abbrev pub is_timed_out : RequestStatus → Bool
is_timed_out timed_out = true
is_timed_out _ = false

-- `future.done()`
abbrev pub done : Future → Bool
done pending = false
done _ = true

-- `if not future.done(): future.set_…`, and `future.cancel()`, which leaves a future that is done
abbrev pub settle : Future → Future → Future
settle new pending = new
settle new old = old

-- A change of the request with the id.
unfoldable pub update : String → (QueuedRequest → QueuedRequest) → Manager → Manager
update id f m = elim (Dict.get m.requests id) [
  | none ↦ m
  | some r ↦ record m { requests = Dict.put m.requests id (f r) }
]

abbrev pub with_stats : (Stats → Stats) → Manager → Manager
with_stats f m = record m { stats = f m.stats }

-- `self.active_requests.pop(request_id, None)`
abbrev pub forget : String → Manager → Manager
forget id m = record m { active_requests = keep (λ i. not (str_eq i id)) m.active_requests }

unfoldable pub get_owner_key : RequestData → String
get_owner_key d =
    if starts_with d.authorization "Bearer "
    then Text.take 12 (Text.drop 7 d.authorization)
    else (elim d.client_ip [ none ↦ "anonymous" | some ip ↦ ip ])

-- `owner_key or self._get_owner_key(request_data)`
unfoldable pub effective_key : Option String → RequestData → String
unfolding get_owner_key
effective_key none d = get_owner_key d
effective_key (some k) d = if str_eq k "" then get_owner_key d else k

abbrev pub queued_by : Dict QueuedRequest → String → String → Bool
queued_by store key id = elim (Dict.get store id) [
  | none ↦ false
  | some r ↦ str_eq r.owner_key key && is_queued r.status
]

unfoldable pub key_count : Dict QueuedRequest → String → List String → ℕ
key_count store key [] = 0
key_count store key (id ∷ ids) =
    let rest = key_count store key ids in if queued_by store key id then suc rest else rest

pub data Submission : Type 0 where
  not_running too_many_for_key queue_full accepted : Submission

abbrev pub new_request : ℕ → String → RequestData → String → QueuedRequest
new_request now kind d key = record {
  request_type = kind;
  request_data = d;
  future = pending;
  queued_at = now;
  started_at = none;
  completed_at = none;
  status = queued;
  owner_key = key;
}

-- `submit_request` up to its wait for the future. The queue has room, so `put` does not wait.
unfoldable pub submit_request :
    ℕ → String → String → RequestData → Option String → Manager → Submission × Manager
unfolding effective_key key_count
submit_request now id kind d owner m =
    let key = effective_key owner d in
    if not m.running
    then (not_running, m)
    else if leb max_per_key_in_queue (key_count m.requests key m.active_requests)
    then (
      too_many_for_key,
      with_stats (λ s. record s { fairness_rejections = s.fairness_rejections + 1 }) m,
    )
    else if leb m.max_queue_size (length m.request_queue)
    then (
      queue_full,
      with_stats (λ s. record s { queue_full_rejections = s.queue_full_rejections + 1 }) m,
    )
    else (
      accepted,
      with_stats (λ s. record s { total_requests = s.total_requests + 1 })
          (record m {
            requests = Dict.put m.requests id (new_request now kind d key);
            request_queue = m.request_queue ++ id ∷ [];
            active_requests = m.active_requests ++ id ∷ [];
          }),
    )

-- The rest of `submit_request`, when the future is done or the wait for it has lasted too long: the
-- latter cancels a future that is pending.
abbrev pub ended_in_timeout : Future → Bool
ended_in_timeout pending = true
ended_in_timeout timeout_error = true
ended_in_timeout _ = false

abbrev pub time_out : String → Manager → Manager
time_out id m =
    with_stats (λ s. record s { timed_out_requests = s.timed_out_requests + 1 })
      (update id (λ r. record r { future = settle cancelled_future r.future; status = timed_out })
        m)

unfoldable pub finish_submit : String → Manager → Manager
unfolding update
finish_submit id m = elim (Dict.get m.requests id) [
  | none ↦ m
  | some r ↦ forget id (if ended_in_timeout r.future then time_out id m else m)
]

-- The same, when the caller is cancelled.
unfoldable pub cancel_submit : String → Manager → Manager
unfolding update
cancel_submit id m =
    forget id (update id (λ r. record r { future = settle cancelled_future r.future }) m)

-- One pass of `_cleanup_loop`: which requests it drops, and the drop.
unfoldable pub is_stale : ℕ → Dict QueuedRequest → String → Bool
is_stale now store id = elim (Dict.get store id) [
  | none ↦ false
  | some r ↦ is_queued r.status && ltb max_queue_wait (now - r.queued_at)
]

abbrev pub drop_stale : String → Manager → Manager
drop_stale id m =
    with_stats (λ s. record s { wait_timeout_rejections = s.wait_timeout_rejections + 1 })
      (forget id (
        update id (λ r. record r { future = settle timeout_error r.future; status = timed_out }) m))

unfoldable pub drop_all : List String → Manager → Manager
unfolding update
drop_all [] m = m
drop_all (id ∷ ids) m = drop_all ids (drop_stale id m)

unfoldable pub cleanup_pass : ℕ → Manager → Manager
unfolding is_stale drop_all
cleanup_pass now m = drop_all (keep (is_stale now m.requests) m.active_requests) m

-- `_worker_loop`: unless the node is reloading, the worker waits for a request, for a while.
unfoldable pub worker_poll : Manager → Manager
worker_poll m = elim m.worker [
  | at_top ↦ if m.running && not m.reloading then record m { worker = getting } else m
  | _ ↦ m
]

unfoldable pub worker_get : Manager → Manager
worker_get m = elim m.worker [
  | getting ↦ elim m.request_queue [
    | [] ↦ record m { worker = at_top }
    | id ∷ rest ↦ record m { request_queue = rest; worker = holding id }
  ]
  | _ ↦ m
]

abbrev pub started : ℕ → QueuedRequest → QueuedRequest
started now r = record r { status = processing; started_at = some now }

-- The tests after the get, and `_process_request` up to its wait for the processor.
unfoldable pub worker_begin : ℕ → Manager → Manager
unfolding update
worker_begin now m = elim m.worker [
  | holding id ↦ elim (Dict.get m.requests id) [
    | none ↦ record m { worker = at_top }
    | some r ↦
        if is_timed_out r.status || done r.future
        then record m { worker = at_top }
        else record (update id (started now) m) { worker = working; processing_request = some id }
  ]
  | _ ↦ m
]

-- How the processor ends.
pub data Outcome : Type 0 where
  returned : Value → Outcome
  out_of_time : Outcome
  was_cancelled : Outcome
  raised_error : String → Outcome

unfoldable pub concluded : ℕ → Outcome → QueuedRequest → QueuedRequest
concluded now (returned v) r = record r {
  status = completed;
  completed_at = some now;
  future = settle (result v) r.future;
}
concluded now out_of_time r = record r {
  status = timed_out;
  completed_at = some now;
  future = settle timeout_error r.future;
}
concluded now was_cancelled r = record r {
  status = cancelled;
  future = settle cancelled_future r.future;
}
concluded now (raised_error e) r = record r {
  status = failed;
  completed_at = some now;
  future = settle (exception e) r.future;
}

unfoldable pub counted : Outcome → Stats → Stats
counted (returned v) s = record s { completed_requests = s.completed_requests + 1 }
counted out_of_time s = record s { timed_out_requests = s.timed_out_requests + 1 }
counted was_cancelled s = record s { cancelled_requests = s.cancelled_requests + 1 }
counted (raised_error e) s = record s { failed_requests = s.failed_requests + 1 }

-- The rest of `_process_request`, of the request that is in process.
abbrev pub conclude : ℕ → Outcome → Option String → Manager → Manager
conclude now o none m = m
conclude now o (some id) m = record (with_stats (counted o) (update id (concluded now o) m)) {
  worker = at_top;
  processing_request = none;
}

unfoldable pub finish_process : ℕ → Outcome → Manager → Manager
unfolding update concluded counted
finish_process now o m = conclude now o m.processing_request m

unfoldable pub start : Manager → Manager
start m = if m.running then m else record m { running = true; worker = at_top }

unfoldable pub set_reloading : Bool → Manager → Manager
set_reloading b m = record m { reloading = b }

abbrev pub called_off : QueuedRequest → QueuedRequest
called_off r = record r { status = cancelled; future = settle cancelled_future r.future }

unfoldable pub cancel_queued : List String → Manager → Manager
unfolding update
cancel_queued [] m = m
cancel_queued (id ∷ ids) m = cancel_queued ids (
    with_stats (λ s. record s { cancelled_requests = s.cancelled_requests + 1 })
      (update id called_off m))

abbrev pub cancel_processing : Option String → Manager → Manager
cancel_processing none m = m
cancel_processing (some id) m = update id called_off m

-- `stop` up to its wait for the worker, which the cancellation then reaches.
unfoldable pub stop : Manager → Manager
unfolding update cancel_queued
stop m =
    if not m.running
    then m
    else cancel_processing m.processing_request
        (cancel_queued m.request_queue (record m { running = false; request_queue = [] }))

unfoldable pub is_busy : Manager → Bool
is_busy m = elim m.processing_request [ none ↦ false | some id ↦ true ]

-- The length of the queue, where the request is still queued.
unfoldable pub get_queue_position : String → Manager → Option ℕ
get_queue_position id m = elim (keep (λ i. str_eq i id) m.active_requests) [
  | [] ↦ none
  | i ∷ is ↦ elim (Dict.get m.requests id) [
    | none ↦ none
    | some r ↦ if is_queued r.status then some (length m.request_queue) else none
  ]
]
