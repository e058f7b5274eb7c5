-- ===== src/Router/Strategies.antt =====
-- What the strategies of the router promise.
use native.Mathlib.Nat.{mod-add-mod, add-zero}
use llama_net.Prelude.{
  ℕ, zero, suc, ◌+◌, ◌%◌, ◌≤◌, ◌≡◌, refl, sym, ◌∙◌, ap, Bool, List, [], ◌∷◌, String, arith, ltb,
  length, get_elem?, All, Bool-cases, inl, inr, if◌then◌else◌,
}
use text.Mathlib.TextPositions.{eq_refl}
use llama_net.Prelude.Dict
use llama_net.Router.State.{Node, ModelRouter}
use llama_net.Router.Select.{least_loaded, by_strategy}

least-le-best : (b : Node) (xs : List Node) → (least_loaded b xs).load ≤ b.load
unfolding least_loaded
least-le-best b [] = omega arith
least-le-best b (x ∷ xs) = ground (arith, least-le-best b xs, least-le-best x xs)

least_bound :
    (b : Node) (xs : List Node) (r : ℕ)
    → r ≡ (least_loaded b xs).load
    → All (λ m. r ≤ m.load) (b ∷ xs)
unfolding least_loaded
least_bound b [] r e = (omega arith, tt)
least_bound b (x ∷ xs) r e = elim (Bool-cases (ltb x.load b.load)) [
  | inl t ↦
      let h =
        least_bound x xs r (e ∙ ap (λ (c : Bool). (least_loaded (if c then x else b) xs).load) t) in
      (ground (arith, h.0), h)
  | inr f ↦
      let h =
        least_bound b xs r (e ∙ ap (λ (c : Bool). (least_loaded (if c then x else b) xs).load) f) in
      (h.0, (ground (arith, h.0), h.1))
]

-- Load balancing picks a row whose load is at most that of every row.
pub least_loaded-le :
    (b : Node) (xs : List Node) → All (λ m. (least_loaded b xs).load ≤ m.load) (b ∷ xs)
least_loaded-le b xs = least_bound b xs (least_loaded b xs).load refl

module _ (slug : String) (draw : ℕ) (n : Node) (ns : List Node) where
  -- The router after k selections by "round_robin" from the same rows.
  pub after_turns : ℕ → ModelRouter → ModelRouter
  after_turns zero s = s
  after_turns (suc k) s = (by_strategy "round_robin" slug draw n ns (after_turns k s)).1

  turn : ModelRouter → ℕ
  turn s = Dict.get_or s.rr_index slug 0

  turn-after :
      (s : ModelRouter)
      → turn (by_strategy "round_robin" slug draw n ns s).1 ≡ turn s % length (n ∷ ns) + 1
  unfolding by_strategy turn
  turn-after s =
      Dict.get_or-put s.rr_index slug slug (Dict.get_or s.rr_index slug 0 % length (n ∷ ns) + 1) 0
      ∙ rw eq_refl refl

  turn-after_turns :
      (k : ℕ) (s : ModelRouter)
      → turn (after_turns k s) % length (n ∷ ns) ≡ (turn s + k) % length (n ∷ ns)
  unfolding after_turns
  turn-after_turns zero s = ap (λ x. x % length (n ∷ ns)) (sym (add-zero (turn s)))
  turn-after_turns (suc k) s =
      let l = length (n ∷ ns) in
      ap (λ x. x % l) (turn-after (after_turns k s))
      ∙ (ap (λ x. (x + 1) % l) (turn-after_turns k s)
          ∙ (mod-add-mod (turn s + k) l 1 ∙ ap (λ x. x % l) (omega arith)))

  -- Round robin takes the rows in turn: from any router, the selection after k others is the row k
  -- places on, modulo their number, from where the router's counter stands.
  pub round_robin_turns :
      (k : ℕ) (s : ModelRouter)
      → (by_strategy "round_robin" slug draw n ns (after_turns k s)).0
        ≡ get_elem? (n ∷ ns) ((Dict.get_or s.rr_index slug 0 + k) % length (n ∷ ns))
  unfolding by_strategy turn
  round_robin_turns k s = ap (get_elem? (n ∷ ns)) (turn-after_turns k s)
