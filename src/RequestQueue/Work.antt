-- ===== src/RequestQueue/Work.antt =====
-- The same for the worker, and for the start and the stop of the queue.
use llama_net.Prelude.{
  ℕ, ◌≡◌, refl, sym, ap, subst, Bool, false, not, ◌||◌, Option, none, some, List, [], ◌∷◌, String,
  arith, Bool-cases, Option-cases, inl, inr, if◌then◌else◌,
}
use llama_net.Prelude.Dict
use llama_net.RequestQueue.State.{
  result, exception, timeout_error, QueuedRequest, Manager, Worker, at_top, getting, working,
  holding, cancelled_future,
}
use llama_net.RequestQueue.Operations.{
  is_timed_out, done, update, started, worker_begin, Outcome, returned, out_of_time, was_cancelled,
  raised_error, concluded, finish_process, conclude, start, set_reloading, called_off,
  cancel_queued, cancel_processing, stop,
}
use llama_net.RequestQueue.Counts.{Calm, Calm-trans, Calm-refl, same-Calm, Calming, update-Calm}
use llama_net.RequestQueue.Quiet.{settle-done}

moved-Calm :
    (m : Manager) (w : Worker) (p : Option String)
    → Calm m (record m { worker = w; processing_request = p })
moved-Calm m w p = same-Calm m _ refl refl (omega arith) refl

-- Where a request that the worker looks at leads.
pub data BeginWay (now : ℕ) (m : Manager) : Type 0 where
  skipped : (w : Worker) → worker_begin now m ≡ record m { worker = w } → BeginWay now m
  began :
      (id : String) (r : QueuedRequest)
      → Dict.get m.requests id ≡ some r
      → done r.future ≡ false
      → is_timed_out r.status ≡ false
      → worker_begin now m
        ≡ record (update id (started now) m) { worker = working; processing_request = some id }
      → BeginWay now m

held_way : (now : ℕ) (m : Manager) (w : Worker) → m.worker ≡ w → BeginWay now m
unfolding worker_begin
held_way now m at_top e = skipped m.worker (ground (arith, e))
held_way now m getting e = skipped m.worker (ground (arith, e))
held_way now m working e = skipped m.worker (ground (arith, e))
held_way now m (holding id) e = elim (Option-cases (Dict.get m.requests id)) [
  | inl q ↦ skipped at_top (ground (arith, e, q))
  | inr (r, q) ↦ elim (Bool-cases (is_timed_out r.status || done r.future)) [
    | inl t ↦ skipped at_top (ground (arith, e, q, t))
    | inr f ↦ began id r q (ground (arith, f)) (ground (arith, f)) (ground (arith, e, q, f))
  ]
]

pub begin_way : (now : ℕ) (m : Manager) → BeginWay now m
begin_way now m = held_way now m m.worker refl

started-Calming : (now : ℕ) → Calming (started now)
started-Calming now = record {
  quiet = λ r h. absurd (ground (arith, h));
  same_owner = λ r. refl;
  keeps_done = λ r h. refl;
}

pub worker_begin-Calm : (now : ℕ) (m : Manager) → Calm m (worker_begin now m)
worker_begin-Calm now m = elim (begin_way now m) [
  | skipped w e ↦ rw e (moved-Calm m w m.processing_request)
  | began id r q f g e ↦ rw e (
      Calm-trans m _ _ (update-Calm id (started now) m (started-Calming now))
        (moved-Calm (update id (started now) m) working (some id)))
]

concluded-Calming : (now : ℕ) (o : Outcome) → Calming (concluded now o)
unfolding concluded
concluded-Calming now (returned v) = record {
  quiet = λ r h. absurd (ground (arith, h));
  same_owner = λ r. refl;
  keeps_done = λ r. settle-done (result v) r.future;
}
concluded-Calming now out_of_time = record {
  quiet = λ r h. absurd (ground (arith, h));
  same_owner = λ r. refl;
  keeps_done = λ r. settle-done timeout_error r.future;
}
concluded-Calming now was_cancelled = record {
  quiet = λ r h. absurd (ground (arith, h));
  same_owner = λ r. refl;
  keeps_done = λ r. settle-done cancelled_future r.future;
}
concluded-Calming now (raised_error e) = record {
  quiet = λ r h. absurd (ground (arith, h));
  same_owner = λ r. refl;
  keeps_done = λ r. settle-done (exception e) r.future;
}

conclude-Calm :
    (now : ℕ) (o : Outcome) (p : Option String) (m : Manager) → Calm m (conclude now o p m)
conclude-Calm now o none m = Calm-refl m
conclude-Calm now o (some id) m =
    Calm-trans m _ _ (update-Calm id (concluded now o) m (concluded-Calming now o))
      (same-Calm (update id (concluded now o) m) _ refl refl (omega arith) refl)

pub finish_process-Calm : (now : ℕ) (o : Outcome) (m : Manager) → Calm m (finish_process now o m)
unfolding finish_process
finish_process-Calm now o m = conclude-Calm now o m.processing_request m

pub start-Calm : (m : Manager) → Calm m (start m)
unfolding start
start-Calm m = same-Calm m (start m) (ground arith) (ground arith) (ground arith) (ground arith)

pub set_reloading-Calm : (b : Bool) (m : Manager) → Calm m (set_reloading b m)
unfolding set_reloading
set_reloading-Calm b m = same-Calm m _ refl refl (omega arith) refl

called_off-Calm : (id : String) (m : Manager) → Calm m (update id called_off m)
called_off-Calm id m = update-Calm id called_off m (record {
  quiet = λ r h. absurd (ground (arith, h));
  same_owner = λ r. refl;
  keeps_done = λ r. settle-done cancelled_future r.future;
})

cancel_queued-Calm : (ids : List String) (m : Manager) → Calm m (cancel_queued ids m)
unfolding cancel_queued
cancel_queued-Calm [] m = Calm-refl m
cancel_queued-Calm (id ∷ ids) m = Calm-trans m _ _ (called_off-Calm id m) (
    Calm-trans (update id called_off m) _ _ (same-Calm _ _ refl refl (omega arith) refl)
      (cancel_queued-Calm ids _))

cancel_processing-Calm : (o : Option String) (m : Manager) → Calm m (cancel_processing o m)
cancel_processing-Calm none m = Calm-refl m
cancel_processing-Calm (some id) m = called_off-Calm id m

pub stop-Calm : (m : Manager) → Calm m (stop m)
unfolding stop
stop-Calm m = elim (Bool-cases m.running) [
  | inr f ↦
      subst (Calm m)
        (sym (
          ap
            (λ (b : Bool).
              if not b
              then m
              else cancel_processing m.processing_request (
                  cancel_queued m.request_queue (record m { running = false; request_queue = [] })))
            f))
        (Calm-refl m)
  | inl t ↦
      let off = record m { running = false; request_queue = [] } in
      let e : stop m ≡ cancel_processing m.processing_request (cancel_queued m.request_queue off) =
        ap
          (λ (b : Bool).
            if not b
            then m
            else cancel_processing m.processing_request (cancel_queued m.request_queue off))
          t in
      subst (Calm m) (sym e) (
        Calm-trans m off _ (same-Calm m off refl refl (omega arith) refl) (
          Calm-trans off _ _ (cancel_queued-Calm m.request_queue off)
            (cancel_processing-Calm m.processing_request (cancel_queued m.request_queue off))))
]
