-- ===== src/Router/Slots.antt =====
-- The slots of a key: what is held comes back, and no key holds more than its share.
use llama_net.Prelude.{
  ℕ, ◌+◌, ◌-◌, ◌≤◌, ◌<◌, ◌≡◌, ◌⊎◌, refl, ◌∙◌, ap, Option, none, some, List, [], ◌∷◌, String, str_eq,
  arith, leb, Bool-cases, Option-cases, inl, inr, if◌then◌else◌, eq_iff,
}
use llama_net.Prelude.Dict
use llama_net.Prelude.Dict.{Dict}
use llama_net.Prelude.Int.{ℤ}
use llama_net.Json
use llama_net.Json.{Fields}
use llama_net.Router.State.{Node, ModelRouter, World, Write, Response, error, raised}
use llama_net.Router.Select.{
  cleanup_affinity, context_filter, by_strategy, store_affinity, sticky, settle, nonempty,
  select_from,
}
use llama_net.Router.Budget.{
  key_hash, check_token_budget, check_compute_budget, record_compute_usage, acquire_key_slot,
  release_key_slot,
}
use llama_net.Router.Route.{
  Body, no_json, no_object, object, Endpoint, Cost, Plan, request_cost, request_plan, dispatched,
  route_planned, route_held, route,
}

-- What the selection of a node leaves alone.
pub record SameBudgets (s t : ModelRouter) : Type 0 where
  pub key_inflight : t.key_inflight ≡ s.key_inflight
  pub key_hourly_compute : t.key_hourly_compute ≡ s.key_hourly_compute
  pub max_per_key_concurrent : t.max_per_key_concurrent ≡ s.max_per_key_concurrent
  pub hourly_compute_budget : t.hourly_compute_budget ≡ s.hourly_compute_budget

SameBudgets-trans : {s t u : ModelRouter} → SameBudgets s t → SameBudgets t u → SameBudgets s u
SameBudgets-trans h k = record {
  key_inflight = k.key_inflight ∙ h.key_inflight;
  key_hourly_compute = k.key_hourly_compute ∙ h.key_hourly_compute;
  max_per_key_concurrent = k.max_per_key_concurrent ∙ h.max_per_key_concurrent;
  hourly_compute_budget = k.hourly_compute_budget ∙ h.hourly_compute_budget;
}

SameBudgets-refl : (s : ModelRouter) → SameBudgets s s
SameBudgets-refl s = record {
  key_inflight = refl;
  key_hourly_compute = refl;
  max_per_key_concurrent = refl;
  hourly_compute_budget = refl;
}

sticky-SameBudgets :
    (p : Option String) (c : ℤ) (xs : List Node) (now : ℕ) (s : ModelRouter)
    → SameBudgets s (sticky p c xs now s).1
unfolding sticky
sticky-SameBudgets none c xs now s = SameBudgets-refl s
sticky-SameBudgets (some p) c xs now s = ground arith

by_strategy-SameBudgets :
    (strategy slug : String) (draw : ℕ) (n : Node) (ns : List Node) (s : ModelRouter)
    → SameBudgets s (by_strategy strategy slug draw n ns s).1
unfolding by_strategy
by_strategy-SameBudgets strategy slug draw n ns s = ground arith

store-SameBudgets :
    (p : Option String) (o : Option Node) (now : ℕ) (s : ModelRouter)
    → SameBudgets s (store_affinity p o now s)
unfolding store_affinity
store-SameBudgets none o now s = SameBudgets-refl s
store-SameBudgets (some p) none now s = SameBudgets-refl s
store-SameBudgets (some p) (some n) now s = ground arith

settle-SameBudgets :
    (t : Option Node) (p : Option String) (strategy slug : String) (draw now : ℕ) (xs : List Node)
    (s : ModelRouter)
    → SameBudgets s (settle t p strategy slug draw now xs s).1
settle-SameBudgets (some k) p strategy slug draw now xs s = SameBudgets-refl s
settle-SameBudgets none p strategy slug draw now [] s = SameBudgets-refl s
settle-SameBudgets none p strategy slug draw now (n ∷ ns) s =
    let r = by_strategy strategy slug draw n ns s in
    SameBudgets-trans (by_strategy-SameBudgets strategy slug draw n ns s)
      (store-SameBudgets p r.0 now r.1)

cleanup-SameBudgets : (now : ℕ) (s : ModelRouter) → SameBudgets s (cleanup_affinity now s)
unfolding cleanup_affinity
cleanup-SameBudgets now s = ground arith

pub select-SameBudgets :
    (slug strategy : String) (p : Option String) (c : ℤ) (draw swept used tied : ℕ) (xs : List Node)
    (s : ModelRouter)
    → SameBudgets s (select_from slug strategy p c draw swept used tied xs s).1
unfolding select_from
select-SameBudgets slug strategy p c draw swept used tied [] s = cleanup-SameBudgets swept s
select-SameBudgets slug strategy p c draw swept used tied (n ∷ ns) s =
    let nodes = context_filter c (n ∷ ns) in
    let r = sticky (nonempty p) c nodes used (cleanup_affinity swept s) in
    SameBudgets-trans (cleanup-SameBudgets swept s) (
      SameBudgets-trans (sticky-SameBudgets (nonempty p) c nodes used (cleanup_affinity swept s))
        (settle-SameBudgets r.0 (nonempty p) strategy slug draw tied nodes r.1))

record-inflight :
    (key : Option String) (cost : ℤ) (now : ℕ) (s : ModelRouter)
    → (record_compute_usage key cost now s).key_inflight ≡ s.key_inflight
unfolding record_compute_usage
record-inflight none cost now s = refl
record-inflight (some h) cost now s = refl

dispatched-inflight :
    (w : World) (e : Endpoint) (key : Option String) (body : Fields) (c : Cost) (now : ℕ)
    (r : Option Node × ModelRouter)
    → (dispatched w e key body c now r).1.key_inflight ≡ r.1.key_inflight
dispatched-inflight w e key body c now (none, s) = refl
dispatched-inflight w e key body c now (some n, s) = record-inflight key c.units now s

-- The requests of a key that are in flight.
abbrev pub inflight : ModelRouter → String → ℕ
inflight s k = Dict.get_or s.key_inflight k 0

slot_returned :
    (h : String) (s t : ModelRouter) (k : String)
    → t.key_inflight ≡ Dict.put s.key_inflight h (inflight s h + 1)
    → inflight (release_key_slot (some h) t) k ≡ inflight s k
unfolding release_key_slot
slot_returned h s t k q =
    let at : (j : String) → inflight t j ≡ (if str_eq h j then inflight s h + 1 else inflight s j) =
      λ j.
        ap (λ (d : Dict ℕ). Dict.get_or d j 0) q
        ∙ Dict.get_or-put s.key_inflight h j (inflight s h + 1) 0 in
    ground (
      arith,
      at h,
      at k,
      eq_iff h h,
      eq_iff h k,
      Dict.get_or-put t.key_inflight h k (inflight t h - 1) 0,
    )

-- A slot is free, or the request is refused and nothing is taken.
pub acquired :
    (h : String) (s : ModelRouter)
    → ((acquire_key_slot (some h) s ≡ (some (error 429 "concurrent_limit"), s))
        × (s.max_per_key_concurrent ≤ inflight s h))
      ⊎ ((acquire_key_slot (some h) s
            ≡ (none, record s { key_inflight = Dict.put s.key_inflight h (inflight s h + 1) }))
          × (inflight s h < s.max_per_key_concurrent))
unfolding acquire_key_slot
acquired h s = elim (Bool-cases (leb s.max_per_key_concurrent (inflight s h))) [
  | inl t ↦ inl (ground arith)
  | inr f ↦ inr (ground arith)
]

module _ (w : World) (clock : ℕ → ℕ) (e : Endpoint) where
  planned-inflight :
      (key : Option String) (body : Fields) (c : Cost) (p : Plan) (s : ModelRouter)
      → (route_planned w clock e key body c p s).1.key_inflight ≡ s.key_inflight
  planned-inflight key body c p s =
      unfold route_planned in
      (dispatched-inflight w e key body c (clock 4) _
        ∙ (select-SameBudgets _ _ p.prefix p.min_ctx w.draw (clock 1) (clock 2) (clock 3) _
            s).key_inflight)

  -- The ways out of the `try`: before a node is selected, with an error or an exception and with
  -- nothing changed, or through the selection.
  pub data HeldWay (key : Option String) (body : Fields) (s : ModelRouter) : Type 0 where
    stopped : (r : Response) → route_held w clock e key body s ≡ (r, s, []) → HeldWay key body s
    through :
        (c : Cost) (p : Plan)
        → request_cost w body ≡ some c
        → check_compute_budget key c.units (clock 0) s ≡ none
        → route_held w clock e key body s ≡ route_planned w clock e key body c p s
        → HeldWay key body s

  pub held_way : (key : Option String) (body : Fields) (s : ModelRouter) → HeldWay key body s
  unfolding route_held
  held_way key body s = elim (Option-cases (check_token_budget w key)) [
    | inr (r, q) ↦ stopped r (ground (arith, q))
    | inl q ↦ elim (Option-cases (request_cost w body)) [
      | inl a ↦ stopped raised (ground (arith, q, a))
      | inr (c, a) ↦ elim (Option-cases (check_compute_budget key c.units (clock 0) s)) [
        | inr (r, b) ↦ stopped r (ground (arith, q, a, b))
        | inl b ↦ elim (Option-cases (request_plan w (Json.without "strategy" body) c.max_tokens)) [
          | inl d ↦ stopped raised (ground (arith, q, a, b, d))
          | inr (p, d) ↦ through c p a b (ground (arith, q, a, b, d))
        ]
      ]
    ]
  ]

  held-inflight :
      (key : Option String) (body : Fields) (s : ModelRouter)
      → (route_held w clock e key body s).1.key_inflight ≡ s.key_inflight
  held-inflight key body s = elim (held_way key body s) [
    | stopped r q ↦ ap (λ (x : Response × ModelRouter × List Write). x.1.key_inflight) q
    | through c p a b q ↦
        ap (λ (x : Response × ModelRouter × List Write). x.1.key_inflight) q
        ∙ planned-inflight key body c p s
  ]

  -- The handler, with the hash of the key and the outcome of taking a slot at hand.
  abbrev pub after_acquire :
      Option String → Fields → Option Response × ModelRouter → Response × ModelRouter × List Write
  after_acquire key body (some refused, s) = (refused, s, [])
  after_acquire key body (none, s) =
      let (r, s2, writes) = route_held w clock e key body s in (r, release_key_slot key s2, writes)

  pub route_after :
      (auth : Option String) (body : Fields) (s : ModelRouter)
      → route w clock e auth (object body) s
        ≡ after_acquire (key_hash w auth) body (acquire_key_slot (key_hash w auth) s)
  unfolding route
  route_after auth body s = ground arith

  key_returns_slot :
      (key : Option String) (body : Fields) (s : ModelRouter) (k : String)
      → inflight (after_acquire key body (acquire_key_slot key s)).1 k ≡ inflight s k
  key_returns_slot none body s k =
      unfold acquire_key_slot release_key_slot in
      ap (λ (d : Dict ℕ). Dict.get_or d k 0) (held-inflight none body s)
  key_returns_slot (some h) body s k = elim (acquired h s) [
    | inl (q, _) ↦ ap (λ x. inflight (after_acquire (some h) body x).1 k) q
    | inr (q, _) ↦
        let s1 = record s { key_inflight = Dict.put s.key_inflight h (inflight s h + 1) } in
        ap (λ x. inflight (after_acquire (some h) body x).1 k) q
        ∙ slot_returned h s (route_held w clock e (some h) body s1).1 k
            (held-inflight (some h) body s1)
  ]

  -- Whatever the request and however it ends, with an answer, an error or an exception, a handler
  -- gives back the slot that it took: run by itself, it leaves every key's count of requests in
  -- flight as it was.
  pub route_returns_slot :
      (auth : Option String) (body : Body) (s : ModelRouter) (k : String)
      → inflight (route w clock e auth body s).1 k ≡ inflight s k
  route_returns_slot auth no_json s k = unfold route in refl
  route_returns_slot auth no_object s k = unfold route in refl
  route_returns_slot auth (object body) s k =
      ap (λ (x : Response × ModelRouter × List Write). inflight x.1 k) (route_after auth body s)
      ∙ key_returns_slot (key_hash w auth) body s k
