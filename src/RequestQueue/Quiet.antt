-- ===== src/RequestQueue/Quiet.antt =====
-- Every operation of the request queue but an accepted submission queues nothing new.
use llama_net.Prelude.{
  ℕ, ◌≡◌, refl, true, List, [], ◌∷◌, String, arith, keep, Bool-cases, Option-cases, inl, inr,
}
use llama_net.Prelude.Dict
use llama_net.RequestQueue.State.{
  Future, pending, result, exception, timeout_error, Manager, timed_out, cancelled_future,
}
use llama_net.RequestQueue.Operations.{
  done, settle, ended_in_timeout, time_out, finish_submit, cancel_submit, is_stale, drop_stale,
  drop_all, cleanup_pass, worker_poll, worker_get,
}
use llama_net.RequestQueue.Counts.{Calm, Calm-trans, Calm-refl, same-Calm, update-Calm, forget-Calm}

pub settle-done : (new old : Future) → done old ≡ true → settle new old ≡ old
settle-done new pending h = absurd (ground arith)
settle-done new (result v) h = refl
settle-done new timeout_error h = refl
settle-done new (exception e) h = refl
settle-done new cancelled_future h = refl

time_out-Calm : (id : String) (m : Manager) → Calm m (time_out id m)
time_out-Calm id m =
    Calm-trans m _ _
      (update-Calm id
        (λ r. record r { future = settle cancelled_future r.future; status = timed_out }) m
        (record {
          quiet = λ r h. absurd (ground (arith, h));
          same_owner = λ r. refl;
          keeps_done = λ r. settle-done cancelled_future r.future;
        }))
      (same-Calm _ _ refl refl (omega arith) refl)

pub finish_submit-Calm : (id : String) (m : Manager) → Calm m (finish_submit id m)
unfolding finish_submit
finish_submit-Calm id m = elim (Option-cases (Dict.get m.requests id)) [
  | inl q ↦ rw (finish_submit, q) (Calm-refl m)
  | inr (r, q) ↦ elim (Bool-cases (ended_in_timeout r.future)) [
    | inl e ↦
        rw (finish_submit, q, e)
          (Calm-trans m _ _ (time_out-Calm id m) (forget-Calm id (time_out id m)))
    | inr e ↦ rw (finish_submit, q, e) (forget-Calm id m)
  ]
]

pub cancel_submit-Calm : (id : String) (m : Manager) → Calm m (cancel_submit id m)
unfolding cancel_submit
cancel_submit-Calm id m =
    Calm-trans m _ _
      (update-Calm id (λ r. record r { future = settle cancelled_future r.future }) m
        (record {
          quiet = λ r h. h;
          same_owner = λ r. refl;
          keeps_done = λ r. settle-done cancelled_future r.future;
        }))
      (forget-Calm id _)

drop_stale-Calm : (id : String) (m : Manager) → Calm m (drop_stale id m)
drop_stale-Calm id m =
    Calm-trans m _ _
      (update-Calm id (λ r. record r { future = settle timeout_error r.future; status = timed_out })
        m
        (record {
          quiet = λ r h. absurd (ground (arith, h));
          same_owner = λ r. refl;
          keeps_done = λ r. settle-done timeout_error r.future;
        }))
      (Calm-trans _ _ _ (forget-Calm id _) (same-Calm _ _ refl refl (omega arith) refl))

drop_all-Calm : (ids : List String) (m : Manager) → Calm m (drop_all ids m)
unfolding drop_all
drop_all-Calm [] m = Calm-refl m
drop_all-Calm (id ∷ ids) m =
    Calm-trans m _ _ (drop_stale-Calm id m) (drop_all-Calm ids (drop_stale id m))

pub cleanup_pass-Calm : (now : ℕ) (m : Manager) → Calm m (cleanup_pass now m)
unfolding cleanup_pass
cleanup_pass-Calm now m = drop_all-Calm (keep (is_stale now m.requests) m.active_requests) m

pub worker_poll-Calm : (m : Manager) → Calm m (worker_poll m)
unfolding worker_poll
worker_poll-Calm m =
    same-Calm m (worker_poll m) (ground arith) (ground arith) (ground arith) (ground arith)

pub worker_get-Calm : (m : Manager) → Calm m (worker_get m)
unfolding worker_get
worker_get-Calm m =
    same-Calm m (worker_get m) (ground arith) (ground arith) (ground arith) (ground arith)
