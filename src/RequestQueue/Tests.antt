-- ===== src/RequestQueue/Tests.antt =====
-- Runs of the request queue, and its theorems at concrete inputs.
use llama_net.Prelude.{◌*◌, ◌≡◌, ◌≢◌, arith, refl, none, some}
use llama_net.Prelude.Dict
use llama_net.Prelude.Text
use llama_net.RequestQueue.State.{
  RequestData, QueuedRequest, timeout_error, timed_out, Manager, new_manager, second,
}
use llama_net.RequestQueue.Operations.{
  effective_key, get_owner_key, submit_request, cleanup_pass, start, worker_poll, worker_get,
  worker_begin, key_count, is_stale, drop_all, update,
}
use llama_net.RequestQueue.Steps.{here, next, started, submit, poll, get, begin_work}
use llama_net.RequestQueue.Bounds.{Within, queue_bounded}
use llama_net.RequestQueue.Running.{answered_never_runs}

abbrev visitor : RequestData
visitor = record { authorization = "Bearer ln-0123456789abcdef"; client_ip = none }

owner : effective_key none visitor ≡ "ln-012345678"
unfolding effective_key get_owner_key Text.take Text.drop
owner = refl

abbrev one_queued : Manager
unfolding submit_request start new_manager
one_queued = (submit_request 0 "chat_1" "chat" visitor (some "k") (start (new_manager 50))).1

queue_bounded_example : Within 50 one_queued
unfolding one_queued new_manager Dict.get
queue_bounded_example = queue_bounded 50 (
    next (next here (started (new_manager 50)))
      (submit 0 "chat_1" "chat" visitor (some "k") (start (new_manager 50)) refl))

-- After 61 seconds in the queue.
abbrev dropped : Manager
unfolding cleanup_pass
dropped = cleanup_pass (61 * second) one_queued

abbrev late : QueuedRequest
late = record {
  request_type = "chat";
  request_data = visitor;
  future = timeout_error;
  queued_at = 0;
  started_at = none;
  completed_at = none;
  status = timed_out;
  owner_key = "k";
}

is_dropped : Dict.get dropped.requests "chat_1" ≡ some late
unfolding dropped one_queued new_manager Dict.get Dict.put cleanup_pass submit_request start
    effective_key key_count is_stale drop_all update
is_dropped = refl

answered_never_runs_example :
    (worker_begin (62 * second) (worker_get (worker_poll dropped))).processing_request
    ≢ some "chat_1"
unfolding dropped one_queued new_manager Dict.get Dict.put cleanup_pass submit_request start
    effective_key key_count is_stale drop_all update
answered_never_runs_example =
    answered_never_runs "chat_1" late
      (next (next (next here (poll dropped)) (get (worker_poll dropped)))
        (begin_work (62 * second) (worker_get (worker_poll dropped))))
      is_dropped refl (λ e. absurd (ground (arith, e)))
