-- ===== src/Pool/Eviction.antt =====
-- Which model the pool gives up.
use text.Mathlib.TextPositions.{eq_refl}
use llama_net.Prelude.{
  ℕ, ◌≤◌, ◌≡◌, refl, sym, ◌∙◌, ap, Bool, false, Option, none, some, [], ◌∷◌, String, arith, ltb,
  ◌⊎◌, inl, inr, Bool-cases, if◌then◌else◌, eq_iff, subst,
}
use llama_net.Prelude.Dict
use llama_net.Prelude.Dict.{Dict, Distinct, Each}
use llama_net.Pool.State.{ModelSlot, ModelPool}
use llama_net.Pool.Operations.{is_active, candidates, least_recent, get_eviction_target}

get-candidates :
    (a : Option String) (d : Dict ModelSlot) (k : String)
    → Dict.get (candidates a d) k ≡ (if is_active a k then none else Dict.get d k)
unfolding candidates Dict.get
get-candidates none [] k = refl
get-candidates (some b) [] k = ground arith
get-candidates none ((j, s) ∷ d) k = ground (arith, get-candidates none d k)
get-candidates (some b) ((j, s) ∷ d) k = ground (arith, get-candidates (some b) d k, eq_iff j k)

Distinct-candidates :
    (a : Option String) (d : Dict ModelSlot) → Distinct d → Distinct (candidates a d)
unfolding candidates
Distinct-candidates a [] h = tt
Distinct-candidates a ((j, s) ∷ d) h = elim (Bool-cases (is_active a j)) [
  | inl t ↦ rw t (Distinct-candidates a d h.1)
  | inr f ↦ rw f (get-candidates a d j ∙ rw f h.0, Distinct-candidates a d h.1)
]

least_recent-In :
    (b : String × ModelSlot) (d : Dict ModelSlot)
    → Distinct d
    → (least_recent b d ≡ b) ⊎ (Dict.get d (least_recent b d).0 ≡ some (least_recent b d).1)
unfolding least_recent Dict.get
least_recent-In b [] h = inl refl
least_recent-In b ((k, s) ∷ d) h = elim (Bool-cases (ltb s.last_accessed b.1.last_accessed)) [
  | inl t ↦ elim (least_recent-In (k, s) d h.1) [
    | inl e ↦ inr (ground (arith, t, e, eq_refl k))
    | inr e ↦ inr (ground (arith, t, h.0, e, eq_iff k (least_recent (k, s) d).0))
  ]
  | inr f ↦ elim (least_recent-In b d h.1) [
    | inl e ↦ inl (ground (arith, f, e))
    | inr e ↦ inr (ground (arith, f, h.0, e, eq_iff k (least_recent b d).0))
  ]
]

least_bound :
    (b : String × ModelSlot) (d : Dict ModelSlot) (r : ℕ)
    → r ≡ (least_recent b d).1.last_accessed
    → Each (λ s. r ≤ s.last_accessed) (b ∷ d)
unfolding least_recent
least_bound (j, b) [] r e = (omega arith, tt)
least_bound (j, b) ((k, s) ∷ d) r e = elim (Bool-cases (ltb s.last_accessed b.last_accessed)) [
  | inl t ↦
      let h =
        least_bound (k, s) d r
          (e
            ∙ ap (λ (c : Bool). (least_recent (if c then (k, s) else (j, b)) d).1.last_accessed)
                t) in
      (ground (arith, h.0), h)
  | inr f ↦
      let h =
        least_bound (j, b) d r
          (e
            ∙ ap (λ (c : Bool). (least_recent (if c then (k, s) else (j, b)) d).1.last_accessed)
                f) in
      (h.0, (ground (arith, h.0), h.1))
]

-- The first candidate, if there is one, and the rest.
candidates_none :
    (a : Option String) (d : Dict ModelSlot) → Distinct d → candidates a d ≡ [] → Dict.size d ≤ 1
unfolding candidates Dict.get
candidates_none a [] h e = omega arith
candidates_none a (s ∷ []) h e = omega arith
candidates_none none ((j, s) ∷ (k, t) ∷ d) h e = absurd (ground (arith, e))
candidates_none (some b) ((j, s) ∷ (k, t) ∷ d) h e =
    absurd (ground (arith, e, h.0, eq_iff j b, eq_iff k b, eq_iff k j))

pub record IsLeastRecent (p : ModelPool) (name : String) : Type 0 where
  pub slot : ModelSlot
  pub stored : Dict.get p.slots name ≡ some slot
  pub not_active : is_active p.active_model name ≡ false
  pub oldest :
      (k : String) (s : ModelSlot)
      → Dict.get p.slots k ≡ some s
      → is_active p.active_model k ≡ false
      → slot.last_accessed ≤ s.last_accessed

chosen :
    (a : Option String) (e : String × ModelSlot) (d : Dict ModelSlot)
    → Distinct (e ∷ d)
    → Dict.get (e ∷ d) (least_recent e d).0 ≡ some (least_recent e d).1
unfolding Dict.get
chosen a e d h = elim (least_recent-In e d h.1) [
  | inl q ↦ ground (arith, q, eq_refl e.0)
  | inr q ↦ ground (arith, q, h.0, eq_iff e.0 (least_recent e d).0)
]

Answer : ModelPool → Type 0
Answer p =
    ((get_eviction_target p ≡ none) × (Dict.size p.slots ≤ 1))
    ⊎ ((name : String) × (get_eviction_target p ≡ some name) × IsLeastRecent p name)

answer :
    (p : ModelPool) (c : Dict ModelSlot)
    → candidates p.active_model p.slots ≡ c
    → Distinct p.slots
    → Answer p
unfolding get_eviction_target Answer
answer p [] q h = inl (ground (arith, q), candidates_none p.active_model p.slots h q)
answer p (e ∷ d) q h =
    let r = least_recent e d in
    let found : Dict.get (candidates p.active_model p.slots) r.0 ≡ some r.1 =
      subst (λ c. Dict.get c r.0 ≡ some r.1) (sym q)
        (chosen p.active_model e d (
          subst (λ (c : Dict ModelSlot). Distinct c) q
            (Distinct-candidates p.active_model p.slots h))) in
    let bound = least_bound e d r.1.last_accessed refl in
    let name = r.0 in
    inr (
      name,
      ground (arith, q),
      record {
        slot = r.1;
        stored = ground (arith, found, get-candidates p.active_model p.slots name);
        not_active = ground (arith, found, get-candidates p.active_model p.slots name);
        oldest = λ k s g f.
            Dict.Each-get (λ (t : ModelSlot). r.1.last_accessed ≤ t.last_accessed) (e ∷ d) k bound
              (subst (λ (c : Dict ModelSlot). Dict.get c k ≡ some s) q
                (ground (arith, g, f, get-candidates p.active_model p.slots k)));
      },
    )

-- In a pool that holds each name once: if the pool finds no model to give up, it holds at most one;
-- the model that it gives up is in the pool, is not the active one, and no model but the active one
-- was used less recently.
pub eviction_target :
    (p : ModelPool)
    → Distinct p.slots
    → ((get_eviction_target p ≡ none) × (Dict.size p.slots ≤ 1))
      ⊎ ((name : String) × (get_eviction_target p ≡ some name) × IsLeastRecent p name)
unfolding Answer
eviction_target p h = answer p (candidates p.active_model p.slots) refl h
