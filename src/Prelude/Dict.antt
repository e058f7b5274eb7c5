-- ===== src/Prelude/Dict.antt =====
-- Python's `dict` with text keys: an association list in insertion order. Writing a key that is
-- present keeps its place, and a new key goes to the end, as `dict` does.
use Prim.Native.Nat.{ℕ, ◌+◌, ◌≤◌}
use Prim.Native.String.{String}
use mathlib.Core.Path.{◌≡◌, refl, subst}
use mathlib.Core.Logic.{◌⊎◌, inl, inr}
use mathlib.Core.Bool.{Bool, true, false}
use mathlib.Core.Option.{Option, none, some}
use mathlib.Core.List.{List, [], ◌∷◌, map}
use native.Mathlib.Omega.{arith}
use text.Mathlib.Text.{◌==◌}
use text.Mathlib.TextEquality.{eq_iff}
use llama_net.Prelude.Tests.{if◌then◌else◌, Bool-cases, some_inj}
use llama_net.Prelude.Lists.{length}

abbrev pub Dict {ℓ} : Type ℓ → Type ℓ
Dict V = List (String × V)

module _ {ℓ} {V : Type ℓ} where
  -- `d.get(k)`
  unfoldable pub get : Dict V → String → Option V
  get [] k = none
  get ((j, v) ∷ d) k = if j == k then some v else get d k

  -- `d.get(k, default)`
  abbrev pub get_or : Dict V → String → V → V
  get_or d k v = elim (get d k) [ none ↦ v | some w ↦ w ]

  -- `k in d`
  abbrev pub has : Dict V → String → Bool
  has d k = elim (get d k) [ none ↦ false | some _ ↦ true ]

  -- `d[k] = v`
  unfoldable pub put : Dict V → String → V → Dict V
  put [] k v = (k, v) ∷ []
  put ((j, w) ∷ d) k v = if j == k then (j, v) ∷ d else (j, w) ∷ put d k v

  -- `d.pop(k, None)`
  unfoldable pub pop : Dict V → String → Dict V
  pop [] k = []
  pop ((j, w) ∷ d) k = let rest = pop d k in if j == k then rest else (j, w) ∷ rest

  abbrev pub size : Dict V → ℕ
  size d = length d

  abbrev pub keys : Dict V → List String
  keys d = map (λ e. e.0) d

  abbrev pub values : Dict V → List V
  values d = map (λ e. e.1) d

  -- `for k in ks: del d[k]`
  unfoldable pub pop_all : Dict V → List String → Dict V
  pop_all d [] = d
  pop_all d (k ∷ ks) = pop_all (pop d k) ks

  -- Every value satisfies `P`.
  abbrev pub Each {κ} : (V → Type κ) → Dict V → Type κ
  Each P [] = Unit
  Each P ((k, v) ∷ d) = P v × Each P d

  -- Reading after a write: the key that was written, or the dictionary before it.
  pub get-put :
      (m : Dict V) (at l : String) (new : V)
      → get (put m at new) l ≡ (if at == l then some new else get m l)
  unfolding put get
  get-put [] at l new = refl
  get-put ((i, w) ∷ m) at l new =
      ground (arith, get-put m at l new, eq_iff at l, eq_iff i at, eq_iff i l)

  pub get-pop :
      (m : Dict V) (at l : String) → get (pop m at) l ≡ (if at == l then none else get m l)
  unfolding pop get
  get-pop [] at l = ground arith
  get-pop ((i, w) ∷ m) at l = ground (arith, get-pop m at l, eq_iff at l, eq_iff i at, eq_iff i l)

  pub get_or-put :
      (d : Dict V) (k j : String) (v e : V)
      → get_or (put d k v) j e ≡ (if k == j then v else get_or d j e)
  get_or-put d k j v e = rw (get-put d k j v, get_or) (ground arith)

  pub size-put :
      (d : Dict V) (k : String) (v : V)
      → size (put d k v) ≡ (if has d k then size d else size d + 1)
  unfolding get put
  size-put [] k v = refl
  size-put ((i, w) ∷ d) k v = ground (arith, size-put d k v)

  pub size-pop-le : (d : Dict V) (k : String) → size (pop d k) ≤ size d
  unfolding pop
  size-pop-le [] k = omega arith
  size-pop-le ((i, w) ∷ d) k = ground (arith, size-pop-le d k)

  -- Removing a key that is present makes the dictionary smaller.
  pub size-pop : (d : Dict V) (k : String) → has d k ≡ true → size (pop d k) + 1 ≤ size d
  unfolding get pop
  size-pop [] k h = ground arith
  size-pop ((i, w) ∷ d) k h = ground (arith, size-pop d k, size-pop-le d k)

  -- Deleting keys hides some entries and changes no other.
  pub get-pop_all :
      (d : Dict V) (ks : List String) (j : String)
      → (get (pop_all d ks) j ≡ none) ⊎ (get (pop_all d ks) j ≡ get d j)
  unfolding pop_all
  get-pop_all d [] j = inr refl
  get-pop_all d (k ∷ ks) j = ground (arith, get-pop_all (pop d k) ks j, get-pop d k j)

module _ {ℓ} {V : Type ℓ} where
  -- A dict holds a key once.
  abbrev pub Distinct : Dict V → Type ℓ
  Distinct [] = Unit
  Distinct ((k, v) ∷ d) = (get d k ≡ none) × Distinct d

  pub Distinct-put : (d : Dict V) (k : String) (v : V) → Distinct d → Distinct (put d k v)
  unfolding put get
  Distinct-put [] k v h = (refl, tt)
  Distinct-put ((j, w) ∷ d) k v h = elim (Bool-cases (j == k)) [
    | inl e ↦ rw e h
    | inr e ↦ rw e (ground (arith, eq_iff k j, eq_iff j k, get-put d k j v), Distinct-put d k v h.1)
  ]

  pub Distinct-pop : (d : Dict V) (k : String) → Distinct d → Distinct (pop d k)
  unfolding pop
  Distinct-pop [] k h = tt
  Distinct-pop ((j, w) ∷ d) k h = elim (Bool-cases (j == k)) [
    | inl e ↦ rw e (Distinct-pop d k h.1)
    | inr e ↦ rw e (ground (arith, get-pop d k j), Distinct-pop d k h.1)
  ]

  pub Distinct-pop_all : (d : Dict V) (ks : List String) → Distinct d → Distinct (pop_all d ks)
  unfolding pop_all
  Distinct-pop_all d [] h = h
  Distinct-pop_all d (k ∷ ks) h = Distinct-pop_all (pop d k) ks (Distinct-pop d k h)

module _ {ℓ κ} {V : Type ℓ} (P : V → Type κ) where
  pub Each-put : (d : Dict V) (k : String) (v : V) → Each P d → P v → Each P (put d k v)
  unfolding put
  Each-put [] k v h p = (p, tt)
  Each-put ((j, w) ∷ d) k v h p = elim (Bool-cases (j == k)) [
    | inl e ↦ rw e (p, h.1)
    | inr e ↦ rw e (h.0, Each-put d k v h.1 p)
  ]

  pub Each-pop : (d : Dict V) (k : String) → Each P d → Each P (pop d k)
  unfolding pop
  Each-pop [] k h = tt
  Each-pop ((j, w) ∷ d) k h = elim (Bool-cases (j == k)) [
    | inl e ↦ rw e (Each-pop d k h.1)
    | inr e ↦ rw e (h.0, Each-pop d k h.1)
  ]

  pub Each-pop_all : (d : Dict V) (ks : List String) → Each P d → Each P (pop_all d ks)
  unfolding pop_all
  Each-pop_all d [] h = h
  Each-pop_all d (k ∷ ks) h = Each-pop_all (pop d k) ks (Each-pop d k h)

  pub Each-get : (d : Dict V) (k : String) {v : V} → Each P d → get d k ≡ some v → P v
  unfolding get
  Each-get [] k h e = absurd (ground arith)
  Each-get ((j, w) ∷ d) k {v} h e = elim (Bool-cases (j == k)) [
    | inl t ↦ subst P (some_inj (subst (λ b. (if b then some w else get d k) ≡ some v) t e)) h.0
    | inr f ↦ Each-get d k h.1 (subst (λ b. (if b then some w else get d k) ≡ some v) f e)
  ]

pub ruleset dict_laws = (get-put, get-pop)
