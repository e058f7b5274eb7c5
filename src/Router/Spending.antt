-- ===== src/Router/Spending.antt =====
-- The hourly compute budget.
use mathlib.Core.Path.{ap₂}
use llama_net.Router.Slots.{
  SameBudgets, select-SameBudgets, stopped, through, held_way, route_after, after_acquire, acquired,
  inflight,
}
use llama_net.Prelude.{
  some_inj, ℕ, ◌+◌, ◌*◌, ◌/◌, ◌≤◌, ◌≡◌, refl, sym, ◌∙◌, ap, subst, List, Bool, Option, none, some,
  String, str_eq, arith, Bool-cases, Option-cases, inl, inr, if◌then◌else◌,
}
use llama_net.Prelude.Dict
use llama_net.Prelude.Dict.{Dict}
use llama_net.Prelude.Int.{ℤ, pos, ◌+ℤ◌, ◌≤ℤ◌, int_laws}
use llama_net.Json.{Fields}
use llama_net.Router.State.{second, Hour, Node, ModelRouter, World, Write, Response}
use llama_net.Router.Budget.{
  key_hash, current_entry, check_compute_budget, record_compute_usage, acquire_key_slot,
  release_key_slot,
}
use llama_net.Router.Route.{
  object, Endpoint, Cost, Plan, request_cost, dispatched, route_planned, route_held, route,
}

abbrev pub hour_of : ℕ → ℕ
hour_of now = now / (3600 * second)

-- No key has spent more than the budget in the hour of its entry, which is not ahead of the clock.
pub record EntrySound (budget : ℤ) (now : ℕ) (e : Hour) : Type 0 where
  pub nonneg : pos 0 ≤ℤ e.used
  pub within : e.used ≤ℤ budget
  pub not_ahead : e.hour ≤ hour_of now

pub record Solvent (budget : ℤ) (now : ℕ) (s : ModelRouter) : Type 0 where
  pub same_budget : s.hourly_compute_budget ≡ budget
  pub entries :
      (h : String) (e : Hour) → Dict.get s.key_hourly_compute h ≡ some e → EntrySound budget now e

-- The entry that a later reading of the clock finds has spent no more.
later_entry :
    (budget : ℤ) (h : String) (t u : ℕ) (s : ModelRouter)
    → Solvent budget t s
    → t ≤ u
    → (pos 0 ≤ℤ (current_entry h u s).used)
      × ((current_entry h u s).used ≤ℤ (current_entry h t s).used)
      × ((current_entry h u s).hour ≡ hour_of u)
unfolding current_entry
later_entry budget h t u s v le = elim (Option-cases (Dict.get s.key_hourly_compute h)) [
  | inl q ↦ ground arith
  | inr (e, q) ↦ let sound = v.entries h e q in ground arith
]

Solvent-later :
    (budget : ℤ) (t u : ℕ) (s : ModelRouter) → t ≤ u → Solvent budget t s → Solvent budget u s
Solvent-later budget t u s le v = record {
  same_budget = v.same_budget;
  entries = λ h e q.
      let sound = v.entries h e q in
      record {
        nonneg = sound.nonneg;
        within = sound.within;
        not_ahead = omega (arith, sound.not_ahead);
      };
}

Solvent-same :
    (budget : ℤ) (t : ℕ) (s s' : ModelRouter)
    → SameBudgets s s'
    → Solvent budget t s
    → Solvent budget t s'
Solvent-same budget t s s' same v = record {
  same_budget = same.hourly_compute_budget ∙ v.same_budget;
  entries = λ h e q.
      v.entries h e (ap (λ (d : Dict Hour). Dict.get d h) (sym same.key_hourly_compute) ∙ q);
}

check_same :
    (key : Option String) (cost : ℤ) (now : ℕ) (s s' : ModelRouter)
    → SameBudgets s s'
    → check_compute_budget key cost now s' ≡ check_compute_budget key cost now s
unfolding check_compute_budget current_entry
check_same none cost now s s' same = refl
check_same (some h) cost now s s' same =
    ap₂
      (λ (d : Dict Hour) (b : ℤ).
        check_compute_budget (some h) cost now
          (record s { key_hourly_compute = d; hourly_compute_budget = b }))
      same.key_hourly_compute same.hourly_compute_budget

fits_budget :
    (budget : ℤ) (h : String) (cost : ℤ) (t u : ℕ) (s : ModelRouter)
    → Solvent budget t s
    → pos 0 ≤ℤ cost
    → t ≤ u
    → check_compute_budget (some h) cost t s ≡ none
    → EntrySound budget u
        (record (current_entry h u s) { used = (current_entry h u s).used +ℤ cost })
fits_budget budget h cost t u s v c le q =
    let later = later_entry budget h t u s v le in
    let room : (current_entry h t s).used +ℤ cost ≤ℤ s.hourly_compute_budget =
      unfold check_compute_budget in ground (arith, q) in
    let room' = subst (λ b. (current_entry h t s).used +ℤ cost ≤ℤ b) v.same_budget room in
    record {
      nonneg = omega (int_laws, later, c);
      within = omega (int_laws, later, room');
      not_ahead = omega (arith, later.2);
    }

spend_sound :
    (budget : ℤ) (key : Option String) (cost : ℤ) (t u : ℕ) (s : ModelRouter)
    → Solvent budget t s
    → pos 0 ≤ℤ cost
    → t ≤ u
    → check_compute_budget key cost t s ≡ none
    → Solvent budget u (record_compute_usage key cost u s)
unfolding record_compute_usage
spend_sound budget none cost t u s v c le q = Solvent-later budget t u s le v
spend_sound budget (some h) cost t u s v c le q = record {
  same_budget = v.same_budget;
  entries = λ j e g.
      let new = record (current_entry h u s) { used = (current_entry h u s).used +ℤ cost } in
      let g' : (if str_eq h j then some new else Dict.get s.key_hourly_compute j) ≡ some e =
        sym (Dict.get-put s.key_hourly_compute h j new) ∙ g in
      elim (Bool-cases (str_eq h j)) [
        | inl y ↦
            let eq : new ≡ e = some_inj (
              subst
                (λ (b : Bool). (if b then some new else Dict.get s.key_hourly_compute j) ≡ some e) y
                g') in
            subst (EntrySound budget u) eq (fits_budget budget h cost t u s v c le q)
        | inr f ↦ (Solvent-later budget t u s le v).entries j e (
            subst (λ (b : Bool). (if b then some new else Dict.get s.key_hourly_compute j) ≡ some e)
              f g')
      ];
}

module _ (w : World) (clock : ℕ → ℕ) (e : Endpoint) (budget : ℤ) (ordered : clock 0 ≤ clock 4) where
  dispatched-Solvent :
      (key : Option String) (body : Fields) (c : Cost) (r : Option Node × ModelRouter)
      → Solvent budget (clock 0) r.1
      → pos 0 ≤ℤ c.units
      → check_compute_budget key c.units (clock 0) r.1 ≡ none
      → Solvent budget (clock 4) (dispatched w e key body c (clock 4) r).1
  dispatched-Solvent key body c (none, s) v n q =
      Solvent-later budget (clock 0) (clock 4) s ordered v
  dispatched-Solvent key body c (some m, s) v n q =
      spend_sound budget key c.units (clock 0) (clock 4) s v n ordered q

  planned-Solvent :
      (key : Option String) (body : Fields) (c : Cost) (p : Plan) (s : ModelRouter)
      → pos 0 ≤ℤ c.units
      → check_compute_budget key c.units (clock 0) s ≡ none
      → Solvent budget (clock 0) s
      → Solvent budget (clock 4) (route_planned w clock e key body c p s).1
  planned-Solvent key body c p s n q v =
      unfold route_planned in
      (let same =
          select-SameBudgets _ _ p.prefix p.min_ctx w.draw (clock 1) (clock 2) (clock 3) _ s in
        dispatched-Solvent key body c _ (Solvent-same budget (clock 0) s _ same v) n
          (check_same key c.units (clock 0) s _ same ∙ q))

  held-Solvent :
      (key : Option String) (body : Fields) (s : ModelRouter)
      → ((c : Cost) → request_cost w body ≡ some c → pos 0 ≤ℤ c.units)
      → Solvent budget (clock 0) s
      → Solvent budget (clock 4) (route_held w clock e key body s).1
  held-Solvent key body s n v = elim (held_way w clock e key body s) [
    | stopped r q ↦
        subst (λ (x : Response × ModelRouter × List Write). Solvent budget (clock 4) x.1) (sym q)
          (Solvent-later budget (clock 0) (clock 4) s ordered v)
    | through c p a b q ↦
        subst (λ (x : Response × ModelRouter × List Write). Solvent budget (clock 4) x.1) (sym q)
          (planned-Solvent key body c p s (n c a) b v)
  ]

  acquired-Solvent :
      (key : Option String) (body : Fields) (s : ModelRouter)
      → ((c : Cost) → request_cost w body ≡ some c → pos 0 ≤ℤ c.units)
      → Solvent budget (clock 0) s
      → Solvent budget (clock 4) (after_acquire w clock e key body (acquire_key_slot key s)).1
  acquired-Solvent none body s n v =
      unfold acquire_key_slot release_key_slot in held-Solvent none body s n v
  acquired-Solvent (some h) body s n v = elim (acquired h s) [
    | inl (q, _) ↦
        subst (λ x. Solvent budget (clock 4) (after_acquire w clock e (some h) body x).1) (sym q)
          (Solvent-later budget (clock 0) (clock 4) s ordered v)
    | inr (q, _) ↦
        let s1 = record s { key_inflight = Dict.put s.key_inflight h (inflight s h + 1) } in
        let held =
          held-Solvent (some h) body s1 n
            (record { same_budget = v.same_budget; entries = v.entries }) in
        subst (λ x. Solvent budget (clock 4) (after_acquire w clock e (some h) body x).1) (sym q)
          (unfold release_key_slot in
            record { same_budget = held.same_budget; entries = held.entries })
  ]

  -- A request handled by itself keeps every key within its hourly compute budget: if no entry of the
  -- table exceeds the budget, is negative or lies ahead of the clock, then none does afterwards,
  -- whatever the answer. The clock does not run backwards between the check and the record, and
  -- what the request is reckoned to cost, if anything, is not negative.
  pub route_keeps_budget :
      (auth : Option String) (body : Fields) (s : ModelRouter)
      → ((c : Cost) → request_cost w body ≡ some c → pos 0 ≤ℤ c.units)
      → Solvent budget (clock 0) s
      → Solvent budget (clock 4) (route w clock e auth (object body) s).1
  route_keeps_budget auth body s n v =
      subst (λ (x : Response × ModelRouter × List Write). Solvent budget (clock 4) x.1)
        (sym (route_after w clock e auth body s)) (acquired-Solvent (key_hash w auth) body s n v)
