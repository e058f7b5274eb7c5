-- ===== src/Client/Sorting.antt =====
-- What sorting keeps.
use llama_net.Prelude.{
  suc, ◌≡◌, refl, ap, ◌∙◌, Bool, List, [], ◌∷◌, arith, length, All, Bool-cases, inl, inr,
}
use llama_net.Client.Select.{insert, sort}

module _ {A : Type 0} (lt : A → A → Bool) where
  length-insert : (x : A) (xs : List A) → length (insert lt x xs) ≡ suc (length xs)
  unfolding insert
  length-insert x [] = refl
  length-insert x (y ∷ ys) = ground (arith, length-insert x ys)

  pub length-sort : (xs : List A) → length (sort lt xs) ≡ length xs
  unfolding sort
  length-sort [] = refl
  length-sort (x ∷ xs) = length-insert x (sort lt xs) ∙ ap suc (length-sort xs)

  pub All-insert : (P : A → Type 0) (x : A) (xs : List A) → P x → All P xs → All P (insert lt x xs)
  unfolding insert
  All-insert P x [] p h = (p, tt)
  All-insert P x (y ∷ ys) p h = elim (Bool-cases (lt y x)) [
    | inl e ↦ rw e (h.0, All-insert P x ys p h.1)
    | inr e ↦ rw e (p, h)
  ]

  pub All-sort : (P : A → Type 0) (xs : List A) → All P xs → All P (sort lt xs)
  unfolding sort
  All-sort P [] h = tt
  All-sort P (x ∷ xs) h = All-insert P x (sort lt xs) h.0 (All-sort P xs h.1)
