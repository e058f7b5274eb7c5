-- ===== src/RequestQueue/Counts.antt =====
-- Steps that queue nothing new: what they leave of the requests, the table and the queue.
use llama_net.Prelude.{
  All-keep, ◌+◌, ◌≤◌, ◌≡◌, refl, sym, ◌∙◌, ap, subst, Bool, true, not, some, List, [], ◌∷◌, ◌++◌,
  String, str_eq, arith, keep, length, All, Bool-cases, Option-cases, inl, inr, if◌then◌else◌,
  eq_iff,
}
use llama_net.Prelude.Dict
use llama_net.Prelude.Dict.{Dict}
use llama_net.RequestQueue.State.{QueuedRequest, Stats, Manager}
use llama_net.RequestQueue.Operations.{
  is_queued, done, update, with_stats, forget, queued_by, key_count,
}

pub key_count_mono :
    (g h : Dict QueuedRequest) (k : String) (ids : List String)
    → ((i : String) → queued_by h k i ≡ true → queued_by g k i ≡ true)
    → key_count h k ids ≤ key_count g k ids
unfolding key_count
key_count_mono g h k [] m = omega arith
key_count_mono g h k (i ∷ ids) m = ground (arith, m i, key_count_mono g h k ids m)

key_count-keep :
    (h : Dict QueuedRequest) (k : String) (p : String → Bool) (ids : List String)
    → key_count h k (keep p ids) ≤ key_count h k ids
unfolding key_count
key_count-keep h k p [] = omega arith
key_count-keep h k p (i ∷ ids) = ground (arith, key_count-keep h k p ids)

pub key_count-append :
    (h : Dict QueuedRequest) (k i : String) (ids : List String)
    → key_count h k (ids ++ i ∷ []) ≡ key_count h k ids + (if queued_by h k i then 1 else 0)
unfolding key_count
key_count-append h k i [] = ground arith
key_count-append h k i (j ∷ ids) = ground (arith, key_count-append h k i ids)

-- No request becomes queued, none is lost, a future that is done stays as it is, and the table and the
-- queue gain nothing.
pub record Calm (m t : Manager) : Type 1 where
  pub same_max : t.max_queue_size ≡ m.max_queue_size
  pub known : (i : String) → Dict.has m.requests i ≡ true → Dict.has t.requests i ≡ true
  pub quieter : (k i : String) → queued_by t.requests k i ≡ true → queued_by m.requests k i ≡ true
  pub final :
      (i : String) (r : QueuedRequest)
      → Dict.get m.requests i ≡ some r
      → done r.future ≡ true
      → (s : QueuedRequest) × (Dict.get t.requests i ≡ some s) × (s.future ≡ r.future)
  pub table : (P : String → Type 0) → All P m.active_requests → All P t.active_requests
  pub fewer :
      (h : Dict QueuedRequest) (k : String)
      → key_count h k t.active_requests ≤ key_count h k m.active_requests
  pub shorter : length t.request_queue ≤ length m.request_queue

pub Calm-trans : (m t u : Manager) → Calm m t → Calm t u → Calm m u
Calm-trans m t u a b = record {
  same_max = b.same_max ∙ a.same_max;
  known = λ i h. b.known i (a.known i h);
  quieter = λ k i h. a.quieter k i (b.quieter k i h);
  final = λ i r g d.
      let (s, g', e) = a.final i r g d in
      let (v, g'', e') = b.final i s g' (ap done e ∙ d) in (v, g'', e' ∙ e);
  table = λ P h. b.table P (a.table P h);
  fewer = λ h k. omega (arith, a.fewer h k, b.fewer h k);
  shorter = omega (arith, a.shorter, b.shorter);
}

-- The same requests, table and queue; another worker, other counts.
pub same-Calm :
    (m t : Manager)
    → t.requests ≡ m.requests
    → t.active_requests ≡ m.active_requests
    → length t.request_queue ≤ length m.request_queue
    → t.max_queue_size ≡ m.max_queue_size
    → Calm m t
same-Calm m t e a le x = record {
  same_max = x;
  known = λ i h. ap (λ (d : Dict QueuedRequest). Dict.has d i) e ∙ h;
  quieter = λ k i h. sym (ap (λ (d : Dict QueuedRequest). queued_by d k i) e) ∙ h;
  final = λ i r g d. (r, ap (λ (d : Dict QueuedRequest). Dict.get d i) e ∙ g, refl);
  table = λ P h. subst (λ (l : List String). All P l) (sym a) h;
  fewer = λ h k.
      subst (λ (l : List String). key_count h k l ≤ key_count h k m.active_requests) (sym a)
        (omega arith);
  shorter = le;
}

pub Calm-refl : (m : Manager) → Calm m m
Calm-refl m = same-Calm m m refl refl (omega arith) refl

pub record Calming (f : QueuedRequest → QueuedRequest) : Type 0 where
  pub quiet : (r : QueuedRequest) → is_queued (f r).status ≡ true → is_queued r.status ≡ true
  pub same_owner : (r : QueuedRequest) → (f r).owner_key ≡ r.owner_key
  pub keeps_done : (r : QueuedRequest) → done r.future ≡ true → (f r).future ≡ r.future

put-Calm :
    (id : String) (f : QueuedRequest → QueuedRequest) (m : Manager) (r : QueuedRequest)
    → Calming f
    → Dict.get m.requests id ≡ some r
    → Calm m (record m { requests = Dict.put m.requests id (f r) })
put-Calm id f m r c q = record {
  same_max = refl;
  known = λ i h. ground (arith, Dict.get-put m.requests id i (f r), h);
  quieter = λ k i h.
      ground
        (arith, Dict.get-put m.requests id i (f r), h, eq_iff id i, q, c.quiet r, c.same_owner r);
  final = λ i s g d. elim (Bool-cases (str_eq id i)) [
    | inl y ↦ (
      f r,
      ground (arith, Dict.get-put m.requests id i (f r), y),
      ground (arith, y, eq_iff id i, q, g, d, c.keeps_done r),
    )
    | inr n ↦ (s, ground (arith, Dict.get-put m.requests id i (f r), n, g), refl)
  ];
  table = λ P h. h;
  fewer = λ h k. omega arith;
  shorter = omega arith;
}

pub update-Calm :
    (id : String) (f : QueuedRequest → QueuedRequest) (m : Manager)
    → Calming f
    → Calm m (update id f m)
unfolding update
update-Calm id f m c = elim (Option-cases (Dict.get m.requests id)) [
  | inl q ↦ rw (q, update) (Calm-refl m)
  | inr (r, q) ↦ rw (q, update) (put-Calm id f m r c q)
]

pub with_stats-Calm : (f : Stats → Stats) (m : Manager) → Calm m (with_stats f m)
with_stats-Calm f m = same-Calm m (with_stats f m) refl refl (omega arith) refl

pub forget-Calm : (id : String) (m : Manager) → Calm m (forget id m)
forget-Calm id m = record {
  same_max = refl;
  known = λ i h. h;
  quieter = λ k i h. h;
  final = λ i r g d. (r, g, refl);
  table = λ P h. All-keep P (λ i. not (str_eq i id)) m.active_requests h;
  fewer = λ h k. key_count-keep h k (λ i. not (str_eq i id)) m.active_requests;
  shorter = omega arith;
}
