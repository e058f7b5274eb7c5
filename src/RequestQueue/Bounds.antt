-- ===== src/RequestQueue/Bounds.antt =====
-- The bounds of the request queue.
use llama_net.Prelude.{
  All-weaken, ℕ, suc, ◌+◌, ◌≤◌, ◌≡◌, refl, sym, ◌∙◌, subst, true, Option, none, List, [], ◌∷◌, ◌++◌,
  String, arith, leb, length, All, Bool-cases, inl, inr, eq_iff,
}
use llama_net.Prelude.Dict
use llama_net.Prelude.Dict.{Dict}
use llama_net.RequestQueue.State.{
  RequestData, QueuedRequest, Manager, max_per_key_in_queue, new_manager,
}
use llama_net.RequestQueue.Operations.{
  key_count, effective_key, submit_request, new_request, with_stats,
}
use llama_net.RequestQueue.Steps.{
  QueueStep, submit, submit_ends, caller_gone, sweep, poll, get, begin_work, end_work, started,
  reload, stopped, QueueReach, here, next,
}
use llama_net.RequestQueue.Counts.{Calm, same-Calm, key_count_mono, key_count-append}
use llama_net.RequestQueue.Quiet.{
  finish_submit-Calm, cancel_submit-Calm, cleanup_pass-Calm, worker_poll-Calm, worker_get-Calm,
}
use llama_net.RequestQueue.Work.{
  worker_begin-Calm, finish_process-Calm, start-Calm, set_reloading-Calm, stop-Calm,
}

pub record Within (size : ℕ) (m : Manager) : Type 0 where
  pub limit_kept : m.max_queue_size ≡ size
  pub known : All (λ i. Dict.has m.requests i ≡ true) m.active_requests
  pub per_key : (k : String) → key_count m.requests k m.active_requests ≤ max_per_key_in_queue
  pub queue : length m.request_queue ≤ size

All-append :
    (P : String → Type 0) (i : String) (ids : List String) → All P ids → P i → All P (ids ++ i ∷ [])
All-append P i [] h p = (p, tt)
All-append P i (j ∷ ids) h p = (h.0, All-append P i ids h.1 p)

length-append : (i : String) (ids : List String) → length (ids ++ i ∷ []) ≡ length ids + 1
length-append i [] = refl
length-append i (j ∷ ids) = omega (arith, length-append i ids)

Calm-Within : (size : ℕ) (m t : Manager) → Calm m t → Within size m → Within size t
Calm-Within size m t c v = record {
  limit_kept = c.same_max ∙ v.limit_kept;
  known =
      All-weaken (λ i. Dict.has m.requests i ≡ true) (λ i. Dict.has t.requests i ≡ true)
        t.active_requests c.known (c.table (λ i. Dict.has m.requests i ≡ true) v.known);
  per_key = λ k. omega (
    arith,
    key_count_mono m.requests t.requests k t.active_requests (c.quieter k),
    c.fewer m.requests k,
    v.per_key k,
  );
  queue = omega (arith, c.shorter, v.queue);
}

-- The state that an accepted submission leaves.
abbrev enqueued : String → QueuedRequest → Manager → Manager
enqueued id r m = record m {
  requests = Dict.put m.requests id r;
  request_queue = m.request_queue ++ id ∷ [];
  active_requests = m.active_requests ++ id ∷ [];
}

-- The other requests count as before.
key_count-put :
    (h : Dict QueuedRequest) (id k : String) (r : QueuedRequest) (ids : List String)
    → Dict.get h id ≡ none
    → All (λ i. Dict.has h i ≡ true) ids
    → key_count (Dict.put h id r) k ids ≡ key_count h k ids
unfolding key_count
key_count-put h id k r [] e a = refl
key_count-put h id k r (i ∷ ids) e a =
    ground (arith, key_count-put h id k r ids e a.1, a.0, e, Dict.get-put h id i r, eq_iff id i)

enqueued-Within :
    (size : ℕ) (id : String) (r : QueuedRequest) (m : Manager)
    → Within size m
    → Dict.get m.requests id ≡ none
    → suc (key_count m.requests r.owner_key m.active_requests) ≤ max_per_key_in_queue
    → suc (length m.request_queue) ≤ m.max_queue_size
    → Within size (enqueued id r m)
enqueued-Within size id r m v e room space = record {
  limit_kept = v.limit_kept;
  known =
      All-append (λ i. Dict.has (Dict.put m.requests id r) i ≡ true) id m.active_requests
        (All-weaken (λ i. Dict.has m.requests i ≡ true)
          (λ i. Dict.has (Dict.put m.requests id r) i ≡ true) m.active_requests
          (λ i h. ground (arith, h, Dict.get-put m.requests id i r)) v.known)
        (ground (arith, Dict.get-put m.requests id id r, eq_iff id id));
  per_key = λ k. ground (
    arith,
    key_count-append (Dict.put m.requests id r) k id m.active_requests,
    key_count-put m.requests id k r m.active_requests e v.known,
    v.per_key k,
    room,
    Dict.get-put m.requests id id r,
    eq_iff r.owner_key k,
    eq_iff id id,
  );
  queue = omega (arith, length-append id m.request_queue, space, v.limit_kept);
}

-- A submission is refused, which changes a count, or accepted.
pub data SubmitWay (now : ℕ) (id kind : String) (d : RequestData) (owner : Option String)
    (m : Manager) : Type 1 where
  refused_one : Calm m (submit_request now id kind d owner m).1 → SubmitWay now id kind d owner m
  accepted_one :
      suc (key_count m.requests (effective_key owner d) m.active_requests) ≤ max_per_key_in_queue
      → suc (length m.request_queue) ≤ m.max_queue_size
      → (submit_request now id kind d owner m).1
        ≡ with_stats
            (λ s. record s { total_requests = s.total_requests + 1 })
            (enqueued id (new_request now kind d (effective_key owner d)) m)
      → SubmitWay now id kind d owner m

pub submit_way :
    (now : ℕ) (id kind : String) (d : RequestData) (owner : Option String) (m : Manager)
    → SubmitWay now id kind d owner m
unfolding submit_request
submit_way now id kind d owner m = elim (Bool-cases m.running) [
  | inr a ↦ refused_one (
      same-Calm m _ (ground (arith, a)) (ground (arith, a)) (ground (arith, a)) (ground (arith, a)))
  | inl a ↦
      elim (Bool-cases (
        leb max_per_key_in_queue
          (key_count m.requests (effective_key owner d) m.active_requests))) [
            | inl b ↦ refused_one (
                same-Calm m _ (ground (arith, a, b)) (ground (arith, a, b)) (ground (arith, a, b))
                  (ground (arith, a, b)))
            | inr b ↦ elim (Bool-cases (leb m.max_queue_size (length m.request_queue))) [
              | inl c ↦ refused_one (
                  same-Calm m _ (ground (arith, a, b, c)) (ground (arith, a, b, c))
                    (ground (arith, a, b, c)) (ground (arith, a, b, c)))
              | inr c ↦
                  accepted_one (ground (arith, b)) (ground (arith, c)) (ground (arith, a, b, c))
            ]
          ]
]

submit-Within :
    (size now : ℕ) (id kind : String) (d : RequestData) (owner : Option String) (m : Manager)
    → Dict.get m.requests id ≡ none
    → Within size m
    → Within size (submit_request now id kind d owner m).1
submit-Within size now id kind d owner m e v = elim (submit_way now id kind d owner m) [
  | refused_one c ↦ Calm-Within size m _ c v
  | accepted_one a b q ↦
      let w = enqueued-Within size id (new_request now kind d (effective_key owner d)) m v e a b in
      subst (Within size) (sym q) (record {
        limit_kept = w.limit_kept;
        known = w.known;
        per_key = w.per_key;
        queue = w.queue;
      })
]

step-Within : (size : ℕ) {m t : Manager} → QueueStep m t → Within size m → Within size t
step-Within size (submit now id kind d owner m e) v = submit-Within size now id kind d owner m e v
step-Within size (submit_ends id m) v = Calm-Within size m _ (finish_submit-Calm id m) v
step-Within size (caller_gone id m) v = Calm-Within size m _ (cancel_submit-Calm id m) v
step-Within size (sweep now m) v = Calm-Within size m _ (cleanup_pass-Calm now m) v
step-Within size (poll m) v = Calm-Within size m _ (worker_poll-Calm m) v
step-Within size (get m) v = Calm-Within size m _ (worker_get-Calm m) v
step-Within size (begin_work now m) v = Calm-Within size m _ (worker_begin-Calm now m) v
step-Within size (end_work now o m) v = Calm-Within size m _ (finish_process-Calm now o m) v
step-Within size (started m) v = Calm-Within size m _ (start-Calm m) v
step-Within size (reload b m) v = Calm-Within size m _ (set_reloading-Calm b m) v
step-Within size (stopped m) v = Calm-Within size m _ (stop-Calm m) v

-- In whatever order callers, worker and cleanup run between their waits, from a new queue and with a
-- fresh id for each request: the queue never holds more than its maximum, and no owner ever has more
-- than 10 active requests that are queued.
pub queue_bounded : (size : ℕ) {m : Manager} → QueueReach (new_manager size) m → Within size m
unfolding new_manager key_count
queue_bounded size here = record {
  limit_kept = refl;
  known = tt;
  per_key = λ k. omega arith;
  queue = omega arith;
}
queue_bounded size (next r st) = step-Within size st (queue_bounded size r)
