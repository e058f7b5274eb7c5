-- ===== src/Router/Interleaving.antt =====
-- Handlers of many requests, interleaved where they wait: the slots of a key.
use llama_net.Prelude.{
  ℕ, ◌+◌, ◌-◌, ◌≤◌, ◌<◌, ◌≡◌, refl, sym, ◌∙◌, none, some, [], String, str_eq, arith, inl, inr,
  if◌then◌else◌, eq_iff, ap,
}
use llama_net.Prelude.Dict
use llama_net.Prelude.Dict.{Dict}
use llama_net.Router.State.{ModelRouter, Response}
use llama_net.Router.Budget.{acquire_key_slot, release_key_slot}
use llama_net.Router.Slots.{inflight, acquired}

-- The router, and for each key how many handlers are between taking a slot and giving it back.
pub record Gateway : Type 0 where
  pub router : ModelRouter
  pub holding : String → ℕ

abbrev shifted : (String → ℕ) → String → (ℕ → ℕ) → String → ℕ
shifted f h g k = if str_eq h k then g (f k) else f k

-- A handler takes a slot or is refused, a handler that holds one gives it back, or the router does
-- something else: a selection, or the record of a cost.
pub data SlotStep : Gateway → Gateway → Type 0 where
  take_slot :
      (g : Gateway) (h : String) (t : ModelRouter)
      → acquire_key_slot (some h) g.router ≡ (none, t)
      → SlotStep g (record { router = t; holding = shifted g.holding h (λ n. n + 1) })
  refused :
      (g : Gateway) (h : String) (r : Response) (t : ModelRouter)
      → acquire_key_slot (some h) g.router ≡ (some r, t)
      → SlotStep g (record g { router = t })
  give_back :
      (g : Gateway) (h : String)
      → 0 < g.holding h
      → SlotStep g (record {
        router = release_key_slot (some h) g.router;
        holding = shifted g.holding h (λ n. n - 1);
      })
  elsewhere :
      (g : Gateway) (t : ModelRouter)
      → t.key_inflight ≡ g.router.key_inflight
      → t.max_per_key_concurrent ≡ g.router.max_per_key_concurrent
      → SlotStep g (record g { router = t })

pub data SlotReach (g : Gateway) : Gateway → Type 0 where
  here : SlotReach g g
  next : {t u : Gateway} → SlotReach g t → SlotStep t u → SlotReach g u

pub record Accounted (limit : ℕ) (g : Gateway) : Type 0 where
  pub limit_kept : g.router.max_per_key_concurrent ≡ limit
  pub exact : (k : String) → inflight g.router k ≡ g.holding k
  pub within : (k : String) → g.holding k ≤ limit

step-Accounted : (limit : ℕ) {g u : Gateway} → SlotStep g u → Accounted limit g → Accounted limit u
unfolding release_key_slot
step-Accounted limit (take_slot g h t q) a = elim (acquired h g.router) [
  | inl (r, _) ↦ absurd (ground (arith, q, r))
  | inr (r, free) ↦
      let e : record g.router {
        key_inflight = Dict.put g.router.key_inflight h (inflight g.router h + 1);
      }
          ≡ t =
        ground (arith, q, r) in
      let at : (k : String)
          → inflight t k ≡ (if str_eq h k then inflight g.router h + 1 else inflight g.router k) =
        λ k.
          sym (ap (λ (x : ModelRouter). inflight x k) e)
          ∙ Dict.get_or-put g.router.key_inflight h k (inflight g.router h + 1) 0 in
      record {
        limit_kept = sym (ap (λ (x : ModelRouter). x.max_per_key_concurrent) e) ∙ a.limit_kept;
        exact = λ k. ground (arith, at k, a.exact h, a.exact k, eq_iff h k);
        within = λ k. ground (arith, a.exact h, a.within k, a.limit_kept, free, eq_iff h k);
      }
]
step-Accounted limit (refused g h r t q) a = elim (acquired h g.router) [
  | inl (p, _) ↦
      let e : g.router ≡ t = ground (arith, p, q) in
      record {
        limit_kept = sym (ap (λ (x : ModelRouter). x.max_per_key_concurrent) e) ∙ a.limit_kept;
        exact = λ k. sym (ap (λ (x : ModelRouter). inflight x k) e) ∙ a.exact k;
        within = a.within;
      }
  | inr (p, _) ↦ absurd (ground (arith, p, q))
]
step-Accounted limit (give_back g h pos) a = record {
  limit_kept = a.limit_kept;
  exact = λ k. ground (
    arith,
    Dict.get_or-put g.router.key_inflight h k (inflight g.router h - 1) 0,
    a.exact h,
    a.exact k,
    eq_iff h k,
  );
  within = λ k. ground (arith, a.within k);
}
step-Accounted limit (elsewhere g t q r) a = record {
  limit_kept = r ∙ a.limit_kept;
  exact = λ k. ap (λ (d : Dict ℕ). Dict.get_or d k 0) q ∙ a.exact k;
  within = a.within;
}

-- However the handlers of many requests interleave, from a router with no request in flight, the
-- count of each key is the number of handlers that hold one of its slots, and that number never
-- passes the limit for a key.
pub slots_bounded :
    {g u : Gateway}
    → g.router.key_inflight ≡ []
    → ((k : String) → g.holding k ≡ 0)
    → SlotReach g u
    → Accounted g.router.max_per_key_concurrent u
unfolding Dict.get
slots_bounded {g} empty idle here = record {
  limit_kept = refl;
  exact = λ k. ap (λ (d : Dict ℕ). Dict.get_or d k 0) empty ∙ sym (idle k);
  within = λ k. omega (arith, idle k);
}
slots_bounded {g} empty idle (next r st) =
    step-Accounted g.router.max_per_key_concurrent st (slots_bounded empty idle r)
