-- ===== src/RequestQueue/Futures.antt =====
-- What a request's future holds once it is done, and which requests run.
use llama_net.Prelude.{ℕ, ◌≡◌, refl, ◌∙◌, ap, true, Option, none, some, String, arith, eq_iff}
use llama_net.Prelude.Dict
use llama_net.RequestQueue.State.{RequestData, QueuedRequest, Manager}
use llama_net.RequestQueue.Operations.{done, effective_key, submit_request, new_request}
use llama_net.RequestQueue.Steps.{
  QueueStep, submit, submit_ends, caller_gone, sweep, poll, get, begin_work, end_work, started,
  reload, stopped, QueueReach, here, next,
}
use llama_net.RequestQueue.Bounds.{submit_way, refused_one, accepted_one}
use llama_net.RequestQueue.Quiet.{
  finish_submit-Calm, cancel_submit-Calm, cleanup_pass-Calm, worker_poll-Calm, worker_get-Calm,
}
use llama_net.RequestQueue.Work.{
  worker_begin-Calm, finish_process-Calm, start-Calm, set_reloading-Calm, stop-Calm,
}

-- The future of the request i is that of r.
abbrev pub HasFuture : Manager → String → QueuedRequest → Type 0
HasFuture t i r = (s : QueuedRequest) × (Dict.get t.requests i ≡ some s) × (s.future ≡ r.future)

submit_keeps :
    (now : ℕ) (id kind : String) (d : RequestData) (owner : Option String) (m : Manager)
    (i : String) (r : QueuedRequest)
    → Dict.get m.requests id ≡ none
    → Dict.get m.requests i ≡ some r
    → done r.future ≡ true
    → HasFuture (submit_request now id kind d owner m).1 i r
submit_keeps now id kind d owner m i r e g h = elim (submit_way now id kind d owner m) [
  | refused_one c ↦ c.final i r g h
  | accepted_one a b q ↦ (
    r,
    ap (λ (t : Manager). Dict.get t.requests i) q
        ∙ ground (
          arith,
          e,
          g,
          eq_iff id i,
          Dict.get-put m.requests id i (new_request now kind d (effective_key owner d)),
        ),
    refl,
  )
]

step_keeps :
    {m t : Manager}
    → QueueStep m t
    → (i : String) (r : QueuedRequest) → Dict.get m.requests i ≡ some r
    → done r.future ≡ true
    → HasFuture t i r
step_keeps (submit now id kind d owner m e) i r g h = submit_keeps now id kind d owner m i r e g h
step_keeps (submit_ends id m) i r g h = (finish_submit-Calm id m).final i r g h
step_keeps (caller_gone id m) i r g h = (cancel_submit-Calm id m).final i r g h
step_keeps (sweep now m) i r g h = (cleanup_pass-Calm now m).final i r g h
step_keeps (poll m) i r g h = (worker_poll-Calm m).final i r g h
step_keeps (get m) i r g h = (worker_get-Calm m).final i r g h
step_keeps (begin_work now m) i r g h = (worker_begin-Calm now m).final i r g h
step_keeps (end_work now o m) i r g h = (finish_process-Calm now o m).final i r g h
step_keeps (started m) i r g h = (start-Calm m).final i r g h
step_keeps (reload b m) i r g h = (set_reloading-Calm b m).final i r g h
step_keeps (stopped m) i r g h = (stop-Calm m).final i r g h

-- A future that is done stays as it is. (Later requests have fresh ids.)
pub reach_keeps :
    {m t : Manager} (i : String) (r : QueuedRequest)
    → QueueReach m t
    → Dict.get m.requests i ≡ some r
    → done r.future ≡ true
    → HasFuture t i r
reach_keeps i r here g h = (r, g, refl)
reach_keeps i r (next reach st) g h =
    let (s, g', e) = reach_keeps i r reach g h in
    let (u, g'', e') = step_keeps st i s g' (ap done e ∙ h) in (u, g'', e' ∙ e)
