-- ===== src/Client/Turns.antt =====
-- The strategies of the client: nodes in turn, and nodes of nearly the least load.
use native.Mathlib.Nat.{mod-add-mod, mod-mod}
use llama_net.Prelude.{
  All-weaken, keep-All, All-get, ℕ, zero, suc, ◌+◌, ◌%◌, ◌≤◌, ◌≡◌, sym, ◌∙◌, ap, subst, Bool, true,
  ◌&&◌, some, List, [], ◌∷◌, arith, length, get_elem?, keep, ltb, All, Bool-cases, inl, inr,
  if◌then◌else◌,
}
use llama_net.Client.Nodes.{NodeInfo, tenth}
use llama_net.Client.Select.{
  insert, sort, id_lt, load_lt, round_robin_select, near, pick_near, load_balanced_select,
}
use llama_net.Client.Sorting.{length-sort, All-insert}

-- The first has no more load than the others.
Least : List NodeInfo → Type 0
Least [] = Unit
Least (y ∷ ys) = All (λ m. y.load ≤ m.load) ys

Least-insert : (x : NodeInfo) (ys : List NodeInfo) → Least ys → Least (insert load_lt x ys)
unfolding insert Least
Least-insert x [] h = tt
Least-insert x (y ∷ ys) h = elim (Bool-cases (load_lt y x)) [
  | inl e ↦ rw e (All-insert load_lt (λ m. y.load ≤ m.load) x ys (ground (arith, e)) h)
  | inr e ↦
      rw e
        (ground (arith, e), All-weaken (λ m. y.load ≤ m.load) _ ys (λ m k. ground (arith, e, k)) h)
]

Least-sort : (xs : List NodeInfo) → Least (sort load_lt xs)
unfolding sort Least
Least-sort [] = tt
Least-sort (x ∷ xs) = Least-insert x (sort load_lt xs) (Least-sort xs)

insert_back :
    (P : NodeInfo → Type 0) (x : NodeInfo) (ys : List NodeInfo)
    → All P (insert load_lt x ys)
    → P x × All P ys
unfolding insert
insert_back P x [] h = (h.0, tt)
insert_back P x (y ∷ ys) h = elim (Bool-cases (load_lt y x)) [
  | inl e ↦
      let k = subst (λ (b : Bool). All P (if b then y ∷ insert load_lt x ys else x ∷ y ∷ ys)) e h in
      let r = insert_back P x ys k.1 in (r.0, (k.0, r.1))
  | inr e ↦ subst (λ (b : Bool). All P (if b then y ∷ insert load_lt x ys else x ∷ y ∷ ys)) e h
]

sort_back : (P : NodeInfo → Type 0) (xs : List NodeInfo) → All P (sort load_lt xs) → All P xs
unfolding sort
sort_back P [] h = tt
sort_back P (x ∷ xs) h = let r = insert_back P x (sort load_lt xs) h in (r.0, sort_back P xs r.1)

pick_near-le :
    (r : Bool) (draw : ℕ) (l : List NodeInfo) (m : NodeInfo)
    → Least l
    → pick_near r draw l ≡ some m
    → All (λ n. m.load ≤ n.load + tenth) l
unfolding Least
pick_near-le r draw [] m h e = tt
pick_near-le r draw (b ∷ ns) m h e =
    let nodes = keep (near b) (b ∷ ns) in
    let close : near b m ≡ true = (elim (Bool-cases (r && ltb 1 (length nodes))) [
      | inl t ↦
          All-get (λ n. near b n ≡ true) nodes (draw % length nodes) m (keep-All (near b) (b ∷ ns))
            (ground (arith, t, e))
      | inr f ↦
          All-get (λ n. near b n ≡ true) nodes 0 m (keep-All (near b) (b ∷ ns))
            (ground (arith, f, e))
    ]) in
    (
      ground (arith, close),
      All-weaken (λ n. b.load ≤ n.load) _ ns (λ n k. ground (arith, close, k)) h,
    )

-- Load balancing takes a node whose load exceeds that of no other by more than a tenth, whether or
-- not it draws among the nodes of nearly the least load.
pub load_balanced_select-le :
    (r : Bool) (draw : ℕ) (nodes : List NodeInfo) (m : NodeInfo)
    → load_balanced_select r draw nodes ≡ some m
    → All (λ n. m.load ≤ n.load + tenth) nodes
unfolding load_balanced_select
load_balanced_select-le r draw nodes m e =
    sort_back (λ n. m.load ≤ n.load + tenth) nodes
      (pick_near-le r draw (sort load_lt nodes) m (Least-sort nodes) e)

module _ (n : NodeInfo) (ns : List NodeInfo) where
  -- The index after k selections from the same nodes.
  pub index_after : ℕ → ℕ → ℕ
  index_after zero i = i
  index_after (suc k) i = (round_robin_select (n ∷ ns) (index_after k i)).1

  same_turn :
      (k i : ℕ)
      → index_after k i % length (sort id_lt (n ∷ ns)) ≡ (i + k) % length (sort id_lt (n ∷ ns))
  unfolding round_robin_select index_after
  same_turn zero i = ap (λ x. x % length (sort id_lt (n ∷ ns))) (omega arith)
  same_turn (suc k) i =
      let l = length (sort id_lt (n ∷ ns)) in
      mod-mod (index_after k i + 1) l
      ∙ (sym (mod-add-mod (index_after k i) l 1)
          ∙ (ap (λ x. (x + 1) % l) (same_turn k i)
              ∙ (mod-add-mod (i + k) l 1 ∙ ap (λ x. x % l) (omega arith))))

  -- Selections from the same nodes take them in turn, in the order of their ids: if the index of the
  -- selector is i, the selection after k others is the node at place i + k, modulo their number.
  pub turns :
      (k i : ℕ)
      → (round_robin_select (n ∷ ns) (index_after k i)).0
        ≡ get_elem? (sort id_lt (n ∷ ns)) ((i + k) % length (n ∷ ns))
  unfolding round_robin_select
  turns k i =
      ap (get_elem? (sort id_lt (n ∷ ns)))
        (same_turn k i ∙ ap (λ (l : ℕ). (i + k) % l) (length-sort id_lt (n ∷ ns)))
