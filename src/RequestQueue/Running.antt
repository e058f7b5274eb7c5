-- ===== src/RequestQueue/Running.antt =====
-- Which requests the worker runs.
use llama_net.Prelude.{
  some_inj, ℕ, ◌≡◌, ◌≢◌, refl, sym, ◌∙◌, ap, true, false, Option, none, some, List, [], ◌∷◌, String,
  arith, keep,
}
use llama_net.Prelude.Dict
use llama_net.RequestQueue.State.{QueuedRequest, Manager}
use llama_net.RequestQueue.Operations.{
  done, update, submit_request, finish_submit, cancel_submit, is_stale, drop_stale, drop_all,
  cleanup_pass, worker_poll, worker_get, Outcome, conclude, finish_process, start, set_reloading,
  called_off, cancel_queued, cancel_processing, stop,
}
use llama_net.RequestQueue.Steps.{
  QueueStep, submit, submit_ends, caller_gone, sweep, poll, get, begin_work, end_work, started,
  reload, stopped, QueueReach, here, next,
}
use llama_net.RequestQueue.Work.{begin_way, skipped, began}
use llama_net.RequestQueue.Futures.{reach_keeps}

abbrev Same : Manager → Manager → Type 0
Same m t = t.processing_request ≡ m.processing_request

update-Same :
    (id : String) (f : QueuedRequest → QueuedRequest) (m : Manager) → Same m (update id f m)
unfolding update
update-Same id f m = ground arith

finish_submit-Same : (id : String) (m : Manager) → Same m (finish_submit id m)
unfolding finish_submit update
finish_submit-Same id m = ground arith

drop_all-Same : (ids : List String) (m : Manager) → Same m (drop_all ids m)
unfolding drop_all update
drop_all-Same [] m = refl
drop_all-Same (id ∷ ids) m = drop_all-Same ids (drop_stale id m) ∙ update-Same id _ m

cancel_queued-Same : (ids : List String) (m : Manager) → Same m (cancel_queued ids m)
unfolding cancel_queued update
cancel_queued-Same [] m = refl
cancel_queued-Same (id ∷ ids) m = cancel_queued-Same ids _ ∙ update-Same id called_off m

cancel_processing-Same : (o : Option String) (m : Manager) → Same m (cancel_processing o m)
cancel_processing-Same none m = refl
cancel_processing-Same (some id) m = update-Same id called_off m

stop-Same : (m : Manager) → Same m (stop m)
unfolding stop
stop-Same m = ground (
  arith,
  cancel_processing-Same m.processing_request
      (cancel_queued m.request_queue (record m { running = false; request_queue = [] })),
  cancel_queued-Same m.request_queue (record m { running = false; request_queue = [] }),
)

-- What a step does to the request in process.
pub data RunWay (m t : Manager) : Type 0 where
  same : Same m t → RunWay m t
  idle : t.processing_request ≡ none → RunWay m t
  starts :
      (id : String) (r : QueuedRequest)
      → Dict.get m.requests id ≡ some r
      → done r.future ≡ false
      → t.processing_request ≡ some id
      → RunWay m t

concluded_way :
    (now : ℕ) (o : Outcome) (p : Option String) (m : Manager)
    → m.processing_request ≡ p
    → (conclude now o p m).processing_request ≡ none
concluded_way now o none m e = e
concluded_way now o (some id) m e = refl

run_way : {m t : Manager} → QueueStep m t → RunWay m t
unfolding submit_request cancel_submit cleanup_pass worker_poll worker_get finish_process start
    set_reloading
run_way (submit now id kind d owner m e) = same (ground arith)
run_way (submit_ends id m) = same (finish_submit-Same id m)
run_way (caller_gone id m) = same (update-Same id _ m)
run_way (sweep now m) = same (drop_all-Same (keep (is_stale now m.requests) m.active_requests) m)
run_way (poll m) = same (ground arith)
run_way (get m) = same (ground arith)
run_way (begin_work now m) = elim (begin_way now m) [
  | skipped w e ↦ same (ap (λ (t : Manager). t.processing_request) e)
  | began id r q f g e ↦ starts id r q f (ap (λ (t : Manager). t.processing_request) e)
]
run_way (end_work now o m) = idle (concluded_way now o m.processing_request m refl)
run_way (started m) = same (ground arith)
run_way (reload b m) = same refl
run_way (stopped m) = same (stop-Same m)

was_running :
    {m t : Manager} (i : String) (r : QueuedRequest)
    → QueueReach m t
    → Dict.get m.requests i ≡ some r
    → done r.future ≡ true
    → t.processing_request ≡ some i
    → m.processing_request ≡ some i
was_running i r here g h p = p
was_running {m} i r (next {s} {t} reach st) g h p = elim (run_way st) [
  | same e ↦ was_running i r reach g h (sym e ∙ p)
  | idle e ↦ absurd (ground (arith, e, p))
  | starts id q a b e ↦
      let (u, gu, eu) = reach_keeps i r reach g h in
      let ei : id ≡ i = some_inj (sym e ∙ p) in
      let au : q ≡ u = some_inj (sym a ∙ ap (Dict.get s.requests) ei ∙ gu) in
      absurd (ground (arith, b, h, eu, ap (λ (x : QueuedRequest). done x.future) au, ap done eu))
]

-- A request whose future is done before it is in process never comes to be in process: the worker
-- does not run a request that was dropped after a minute in the queue, whose caller has gone, or
-- whose caller's wait has timed out.
pub answered_never_runs :
    {m t : Manager} (i : String) (r : QueuedRequest)
    → QueueReach m t
    → Dict.get m.requests i ≡ some r
    → done r.future ≡ true
    → m.processing_request ≢ some i
    → t.processing_request ≢ some i
answered_never_runs i r reach g h ne p = ne (was_running i r reach g h p)
