-- ===== src/Router/Selection.antt =====
-- Which node a request gets: one of the rows, with a context that fits if any row has one.
use llama_net.Prelude.{
  All-weaken, All-get, get_total, some_inj, ℕ, ◌%◌, ◌≡◌, ◌⊎◌, inl, inr, refl, sym, ◌∙◌, ap, subst,
  Bool, true, false, Option, none, some, List, [], ◌∷◌, String, str_eq, arith, ltb, keep, any,
  length, get_elem?, All, Bool-cases, Option-cases,
}
use llama_net.Prelude.Dict
use llama_net.Prelude.Int.{ℤ, pos, ltb_ℤ, leb_ℤ}
use llama_net.Router.State.{Node, ModelRouter}
use llama_net.Router.Select.{
  context_filter, find_node, affinity_node, least_loaded, by_strategy, sticky, fresh_choice, settle,
  nonempty, cleanup_affinity, select_from,
}

-- What each strategy returns.
by_strategy_cases :
    (strategy slug : String) (draw : ℕ) (n : Node) (ns : List Node) (s : ModelRouter)
    → ((i : ℕ) × ((by_strategy strategy slug draw n ns s).0
          ≡ get_elem? (n ∷ ns) (i % length (n ∷ ns))))
      ⊎ ((by_strategy strategy slug draw n ns s).0 ≡ some (least_loaded n ns))
unfolding by_strategy
by_strategy_cases strategy slug draw n ns s = elim (Bool-cases (str_eq strategy "round_robin")) [
  | inl t ↦ inl (Dict.get_or s.rr_index slug 0, rw t refl)
  | inr f ↦ elim (Bool-cases (str_eq strategy "random")) [
    | inl t ↦ inl (draw, rw f (rw t refl))
    | inr g ↦ inr (rw f (rw g refl))
  ]
]

module _ {ℓ} (P : Node → Type ℓ) where
  find_node-All :
      (hash : String) (xs : List Node) {m : Node} → All P xs → find_node hash xs ≡ some m → P m
  unfolding find_node
  find_node-All hash [] h e = absurd (ground arith)
  find_node-All hash (x ∷ xs) {m} h e = elim (Bool-cases (str_eq x.node_hash hash)) [
    | inl t ↦ let q : x ≡ m = ground arith in subst P q h.0
    | inr f ↦ find_node-All hash xs h.1 (ground arith)
  ]

  least_loaded-All : (b : Node) (xs : List Node) → P b → All P xs → P (least_loaded b xs)
  unfolding least_loaded
  least_loaded-All b [] p h = p
  least_loaded-All b (x ∷ xs) p h = elim (Bool-cases (ltb x.load b.load)) [
    | inl t ↦ rw t (least_loaded-All x xs h.0 h.1)
    | inr f ↦ rw f (least_loaded-All b xs p h.1)
  ]

  affinity_node-All :
      (c : ℤ) (hash : String) (xs : List Node) {m : Node}
      → All P xs
      → affinity_node c hash xs ≡ some m
      → P m
  unfolding affinity_node
  affinity_node-All c hash xs {m} h e = elim (Option-cases (find_node hash xs)) [
    | inl q ↦ absurd (ground arith)
    | inr (n, q) ↦ find_node-All hash xs h (let r : n ≡ m = ground arith in q ∙ ap some r)
  ]

  by_strategy-All :
      (strategy slug : String) (draw : ℕ) (n : Node) (ns : List Node) (s : ModelRouter) {m : Node}
      → All P (n ∷ ns)
      → (by_strategy strategy slug draw n ns s).0 ≡ some m
      → P m
  unfolding by_strategy
  by_strategy-All strategy slug draw n ns s {m} h e =
      elim (by_strategy_cases strategy slug draw n ns s) [
        | inl (i, q) ↦ All-get P (n ∷ ns) (i % length (n ∷ ns)) m h (sym q ∙ e)
        | inr q ↦ subst P (some_inj (sym q ∙ e)) (least_loaded-All n ns h.0 h.1)
      ]

  sticky-All :
      (p : Option String) (c : ℤ) (xs : List Node) (now : ℕ) (s : ModelRouter) {m : Node}
      → All P xs
      → (sticky p c xs now s).0 ≡ some m
      → P m
  unfolding sticky
  sticky-All none c xs now s h e = absurd (ground arith)
  sticky-All (some p) c xs now s {m} h e = elim (Option-cases (Dict.get s.prefix_affinity p)) [
    | inl q ↦ absurd (ground arith)
    | inr (hash, q) ↦ affinity_node-All c hash xs h (tied hash q)
  ]
    where
      tied :
          (hash : String)
          → Dict.get s.prefix_affinity p ≡ some hash
          → affinity_node c hash xs ≡ some m
      tied hash q = elim (Option-cases (affinity_node c hash xs)) [
        | inl r ↦ absurd (ground arith)
        | inr (n, r) ↦ let w : n ≡ m = ground arith in r ∙ ap some w
      ]

  fresh_choice-All :
      (p : Option String) (strategy slug : String) (draw now : ℕ) (xs : List Node) (s : ModelRouter)
      {m : Node}
      → All P xs
      → (fresh_choice p strategy slug draw now xs s).0 ≡ some m
      → P m
  fresh_choice-All p strategy slug draw now [] s h e = absurd (ground arith)
  fresh_choice-All p strategy slug draw now (n ∷ ns) s h e =
      by_strategy-All strategy slug draw n ns s h e

  settle-All :
      (t : Option Node) (p : Option String) (strategy slug : String) (draw now : ℕ) (xs : List Node)
      (s : ModelRouter) {m : Node}
      → ((k : Node) → t ≡ some k → P k)
      → All P xs
      → (settle t p strategy slug draw now xs s).0 ≡ some m
      → P m
  settle-All (some k) p strategy slug draw now xs s held h e = subst P (some_inj e) (held k refl)
  settle-All none p strategy slug draw now xs s held h e =
      fresh_choice-All p strategy slug draw now xs s h e

  select_from-All :
      (slug strategy : String) (p : Option String) (c : ℤ) (draw swept used tied : ℕ)
      (xs : List Node) (s : ModelRouter) {m : Node}
      → All P (context_filter c xs)
      → (select_from slug strategy p c draw swept used tied xs s).0 ≡ some m
      → P m
  unfolding select_from
  select_from-All slug strategy p c draw swept used tied [] s h e = absurd (ground arith)
  select_from-All slug strategy p c draw swept used tied (n ∷ ns) s {m} h e =
      let nodes = context_filter c (n ∷ ns) in
      let r = sticky (nonempty p) c nodes used (cleanup_affinity swept s) in
      settle-All r.0 (nonempty p) strategy slug draw tied nodes r.1
        (λ k q. sticky-All (nonempty p) c nodes used (cleanup_affinity swept s) h q) h e

-- Membership in a list of rows.
abbrev pub Among : Node → List Node → Type 0
Among m [] = ⊥
Among m (n ∷ ns) = (m ≡ n) ⊎ Among m ns

abbrev pub fits : ℤ → Node → Bool
fits c n = leb_ℤ c (pos n.ctx_length)

All-Among : (xs : List Node) → All (λ n. Among n xs) xs
All-Among [] = tt
All-Among (x ∷ xs) = (inl refl, All-weaken _ _ xs (λ n h. inr h) (All-Among xs))

module _ (P : Node → Type 0) (c : ℤ) where
  keep-All : (xs : List Node) → All P xs → All (λ n. P n × (fits c n ≡ true)) (keep (fits c) xs)
  keep-All [] h = tt
  keep-All (x ∷ xs) h = elim (Bool-cases (fits c x)) [
    | inl t ↦ rw t ((h.0, t), keep-All xs h.1)
    | inr f ↦ rw f (keep-All xs h.1)
  ]

keep-nil : (c : ℤ) (xs : List Node) → keep (fits c) xs ≡ [] → any (fits c) xs ≡ false
keep-nil c [] e = refl
keep-nil c (x ∷ xs) e = ground (arith, keep-nil c xs)

-- What holds of every row that passes the context filter.
abbrev pub Suits : ℤ → List Node → Node → Type 0
Suits c xs m = Among m xs × (ltb_ℤ (pos 0) c ≡ true → any (fits c) xs ≡ true → fits c m ≡ true)

kept_or_All :
    (c : ℤ) (n : Node) (ns kept : List Node)
    → kept ≡ keep (fits c) (n ∷ ns)
    → (k : Node) × (ks : List Node) × ((elim kept [ [] ↦ n ∷ ns | k ∷ ks ↦ k ∷ ks ]) ≡ k ∷ ks)
      × All (Suits c (n ∷ ns)) (k ∷ ks)
kept_or_All c n ns [] e = (
  n,
  ns,
  refl,
  All-weaken _ _ (n ∷ ns) (λ m a. (a, λ l f. absurd (ground (arith, keep-nil c (n ∷ ns) (sym e)))))
      (All-Among (n ∷ ns)),
)
kept_or_All c n ns (k ∷ ks) e = (
  k,
  ks,
  refl,
  subst (All (Suits c (n ∷ ns))) (sym e) (
      All-weaken _ _ (keep (fits c) (n ∷ ns)) (λ m a. (a.0, λ l f. a.1))
        (keep-All (λ m. Among m (n ∷ ns)) c (n ∷ ns) (All-Among (n ∷ ns)))),
)

-- The filter keeps at least one row, and only rows that suit.
context_filter-Suits :
    (c : ℤ) (n : Node) (ns : List Node)
    → (k : Node) × (ks : List Node) × (context_filter c (n ∷ ns) ≡ k ∷ ks)
      × All (Suits c (n ∷ ns)) (k ∷ ks)
unfolding context_filter
context_filter-Suits c n ns = elim (Bool-cases (ltb_ℤ (pos 0) c)) [
  | inl t ↦
      let (k, ks, e, all) = kept_or_All c n ns (keep (fits c) (n ∷ ns)) refl in (k, ks, rw t e, all)
  | inr f ↦ (
    n,
    ns,
    rw f refl,
    All-weaken _ _ (n ∷ ns) (λ m a. (a, λ l g. absurd (ground arith))) (All-Among (n ∷ ns)),
  )
]

by_strategy_total :
    (strategy slug : String) (draw : ℕ) (n : Node) (ns : List Node) (s : ModelRouter)
    → (m : Node) × ((by_strategy strategy slug draw n ns s).0 ≡ some m)
by_strategy_total strategy slug draw n ns s = elim (by_strategy_cases strategy slug draw n ns s) [
  | inl (i, q) ↦ let (m, e) = get_total (n ∷ ns) (i % length (n ∷ ns)) (omega arith) in (m, q ∙ e)
  | inr q ↦ (least_loaded n ns, q)
]

settle_total :
    (t : Option Node) (p : Option String) (strategy slug : String) (draw now : ℕ) (xs : List Node)
    (s : ModelRouter) (k : Node) (ks : List Node)
    → xs ≡ k ∷ ks
    → (m : Node) × ((settle t p strategy slug draw now xs s).0 ≡ some m)
settle_total (some k) p strategy slug draw now xs s n ns e = (k, refl)
settle_total none p strategy slug draw now xs s n ns e =
    let (m, f) = by_strategy_total strategy slug draw n ns s in (m, rw e f)

select_from_total :
    (slug strategy : String) (p : Option String) (c : ℤ) (draw swept used tied : ℕ) (n : Node)
    (ns : List Node) (s : ModelRouter)
    → (m : Node) × ((select_from slug strategy p c draw swept used tied (n ∷ ns) s).0 ≡ some m)
unfolding select_from
select_from_total slug strategy p c draw swept used tied n ns s =
    let (k, ks, e, _) = context_filter-Suits c n ns in
    let r = sticky (nonempty p) c (context_filter c (n ∷ ns)) used (cleanup_affinity swept s) in
    settle_total r.0 (nonempty p) strategy slug draw tied (context_filter c (n ∷ ns)) r.1 k ks e

-- If the database has rows for the model, a node is selected, whatever the strategy, the affinity
-- and the draw: it is one of the rows and, if some row has the context length that the request
-- needs, it has it too. Without rows there is none.
pub select-Suits :
    (slug strategy : String) (p : Option String) (c : ℤ) (draw swept used tied : ℕ)
    (s : ModelRouter)
    → ((select_from slug strategy p c draw swept used tied [] s).0 ≡ none)
      × ((n : Node) (ns : List Node)
          → (m : Node) × ((select_from slug strategy p c draw swept used tied (n ∷ ns) s).0
              ≡ some m)
            × Suits c (n ∷ ns) m)
unfolding select_from
select-Suits slug strategy p c draw swept used tied s = (
  refl,
  λ n ns.
      let (m, e) = select_from_total slug strategy p c draw swept used tied n ns s in
      let (k, ks, f, all) = context_filter-Suits c n ns in
      (
        m,
        e,
        select_from-All (Suits c (n ∷ ns)) slug strategy p c draw swept used tied (n ∷ ns) s
            (rw f all) e,
      ),
)
