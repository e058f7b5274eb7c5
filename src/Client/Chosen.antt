-- ===== src/Client/Chosen.antt =====
-- Which node a client chooses.
use llama_net.Prelude.{
  All-keep, keep-All, All-get, All-weaken, get_total, All-both, some_inj, ℕ, ◌%◌, ◌<◌, ◌≡◌, ◌⊎◌,
  refl, sym, ◌∙◌, ap, subst, Bool, true, ◌&&◌, Option, none, some, List, [], ◌∷◌, String, str_eq,
  eq_iff, ltb, arith, keep, length, All, inl, inr, Bool-cases,
}
use llama_net.Prelude.Dict
use llama_net.Prelude.Dict.{Dict}
use llama_net.Client.Nodes.{NodeInfo, some_name, is_match, matching, get_nodes}
use llama_net.Client.Select.{
  sort, id_lt, load_lt, round_robin_select, near, pick_near, load_balanced_select, is_eligible,
  or_all, Criteria, filter_of, exact, shortlist, by_strategy, select_node,
}
use llama_net.Client.Sorting.{length-sort, All-sort}

-- The node runs the model that was asked for.
pub record Named (lower : List ℕ → List ℕ) (c : Criteria) (n : NodeInfo) : Type 0 where
  pub part : (name : String) → some_name (filter_of c) ≡ some name → is_match lower name n ≡ true
  pub whole : (t : String) → some_name c.target_model ≡ some t → n.model ≡ t

pub found : (List ℕ → List ℕ) → Criteria → Dict NodeInfo → List NodeInfo
found lower c nodes = exact (some_name c.target_model) (get_nodes lower (filter_of c) nodes)

matching-All :
    (lower : List ℕ → List ℕ) (o : Option String) (xs : List NodeInfo)
    → All
        (λ n. (name : String) → o ≡ some name → is_match lower name n ≡ true)
        (matching lower o xs)
matching-All lower none [] = tt
matching-All lower none (x ∷ xs) =
    (λ name e. absurd (ground (arith, e)), matching-All lower none xs)
matching-All lower (some m) xs =
    All-weaken (λ n. is_match lower m n ≡ true) _ (keep (is_match lower m) xs)
      (λ n h name e. subst (λ (k : String). is_match lower k n ≡ true) (some_inj e) h)
      (keep-All (is_match lower m) xs)

exact-All :
    (o : Option String) (xs : List NodeInfo)
    → All (λ n. (t : String) → o ≡ some t → n.model ≡ t) (exact o xs)
exact-All none [] = tt
exact-All none (x ∷ xs) = (λ t e. absurd (ground (arith, e)), exact-All none xs)
exact-All (some m) xs =
    All-weaken (λ n. str_eq n.model m ≡ true) _ (keep (λ (n : NodeInfo). str_eq n.model m) xs)
      (λ n h t e. ground (arith, h, eq_iff n.model m) ∙ some_inj e)
      (keep-All (λ (n : NodeInfo). str_eq n.model m) xs)

exact-kept :
    (P : NodeInfo → Type 0) (o : Option String) (xs : List NodeInfo) → All P xs → All P (exact o xs)
exact-kept P none xs h = h
exact-kept P (some t) xs h = All-keep P (λ (n : NodeInfo). str_eq n.model t) xs h

found-Named :
    (lower : List ℕ → List ℕ) (c : Criteria) (nodes : Dict NodeInfo)
    → All (Named lower c) (found lower c nodes)
unfolding found get_nodes
found-Named lower c nodes =
    All-weaken _ (Named lower c) (found lower c nodes) (λ n h. record { part = h.0; whole = h.1 })
      (All-both _ _ (found lower c nodes)
        (exact-kept _ (some_name c.target_model) (get_nodes lower (filter_of c) nodes)
          (matching-All lower (some_name (filter_of c)) (Dict.values nodes)))
        (exact-All (some_name c.target_model) (get_nodes lower (filter_of c) nodes)))

of_keep :
    (P : NodeInfo → Type 0) (p : NodeInfo → Bool) (xs : List NodeInfo)
    → All P (keep p xs)
    → All (λ n. p n ≡ true → P n) xs
of_keep P p [] h = tt
of_keep P p (x ∷ xs) h = elim (Bool-cases (p x)) [
  | inl t ↦ let h' : All P (x ∷ keep p xs) = rw t at h in (λ e. h'.0, of_keep P p xs h'.1)
  | inr f ↦
      let h' : All P (keep p xs) = rw f at h in
      (λ e. absurd (ground (arith, e, f)), of_keep P p xs h')
]

of_matching :
    (lower : List ℕ → List ℕ) (P : NodeInfo → Type 0) (o : Option String) (xs : List NodeInfo)
    → All P (matching lower o xs)
    → All (λ n. ((name : String) → o ≡ some name → is_match lower name n ≡ true) → P n) xs
of_matching lower P none xs h = All-weaken P _ xs (λ n p part. p) h
of_matching lower P (some m) xs h =
    All-weaken _ _ xs (λ n p part. p (part m refl)) (of_keep P (is_match lower m) xs h)

of_exact :
    (P : NodeInfo → Type 0) (o : Option String) (xs : List NodeInfo)
    → All P (exact o xs)
    → All (λ n. ((t : String) → o ≡ some t → n.model ≡ t) → P n) xs
of_exact P none xs h = All-weaken P _ xs (λ n p whole. p) h
of_exact P (some m) xs h =
    All-weaken _ _ xs (λ n p whole. p ((eq_iff n.model m).1 (whole m refl)))
      (of_keep P (λ (n : NodeInfo). str_eq n.model m) xs h)

-- What holds of the nodes that are found holds of every node that runs the model.
of_found :
    (lower : List ℕ → List ℕ) (c : Criteria) (nodes : Dict NodeInfo) (P : NodeInfo → Type 0)
    → All P (found lower c nodes)
    → All (λ n. Named lower c n → P n) (Dict.values nodes)
unfolding found get_nodes
of_found lower c nodes P h =
    All-weaken _ _ (Dict.values nodes) (λ n p named. p named.part named.whole)
      (of_matching lower _ (some_name (filter_of c)) (Dict.values nodes)
        (of_exact P (some_name c.target_model) (get_nodes lower (filter_of c) nodes) h))

none_eligible :
    (lower : List ℕ → List ℕ) (c : Criteria) (nodes : Dict NodeInfo)
    → keep (is_eligible c.min_tps c.max_load) (found lower c nodes) ≡ []
    → All
        (λ n. ¬ (Named lower c n × (is_eligible c.min_tps c.max_load n ≡ true)))
        (Dict.values nodes)
none_eligible lower c nodes e =
    All-weaken _ _ (Dict.values nodes) (λ n p both. p both.0 both.1)
      (of_found lower c nodes (λ n. is_eligible c.min_tps c.max_load n ≡ true → ⊥)
        (of_keep (λ n. ⊥) (is_eligible c.min_tps c.max_load) (found lower c nodes)
          (subst (λ (l : List NodeInfo). All (λ n. ⊥) l) (sym e) tt)))

-- The node runs the model; and it passes the criteria, or no node that runs the model does.
pub record Suitable (lower : List ℕ → List ℕ) (c : Criteria) (nodes : Dict NodeInfo) (n : NodeInfo)
    : Type 0 where
  pub named : Named lower c n
  pub measured :
      (is_eligible c.min_tps c.max_load n ≡ true)
      ⊎ All
          (λ m. ¬ (Named lower c m × (is_eligible c.min_tps c.max_load m ≡ true)))
          (Dict.values nodes)

or_all-Suitable :
    (lower : List ℕ → List ℕ) (c : Criteria) (nodes : Dict NodeInfo) (ks : List NodeInfo)
    → keep (is_eligible c.min_tps c.max_load) (found lower c nodes) ≡ ks
    → All (Suitable lower c nodes) (or_all ks (found lower c nodes))
or_all-Suitable lower c nodes [] e =
    All-weaken (Named lower c) _ (found lower c nodes)
      (λ n h. record { named = h; measured = inr (none_eligible lower c nodes e) })
      (found-Named lower c nodes)
or_all-Suitable lower c nodes (k ∷ ks) e =
    let p = is_eligible c.min_tps c.max_load in
    All-weaken (λ n. Named lower c n × (p n ≡ true)) _ (k ∷ ks)
      (λ n h. record { named = h.0; measured = inl h.1 })
      (subst (λ (l : List NodeInfo). All (λ n. Named lower c n × (p n ≡ true)) l) e
        (All-both _ _ (keep p (found lower c nodes))
          (All-keep (Named lower c) p (found lower c nodes) (found-Named lower c nodes))
          (keep-All p (found lower c nodes))))

shortlist-Suitable :
    (lower : List ℕ → List ℕ) (c : Criteria) (nodes : Dict NodeInfo)
    → All (Suitable lower c nodes) (shortlist lower c nodes)
unfolding shortlist found
shortlist-Suitable lower c nodes =
    or_all-Suitable lower c nodes (keep (is_eligible c.min_tps c.max_load) (found lower c nodes))
      refl

-- Each strategy takes an element of its list, if there is one.
near_total :
    (P : NodeInfo → Type 0) (r : Bool) (draw : ℕ) (b : NodeInfo) (ns : List NodeInfo)
    → All P (b ∷ ns)
    → (m : NodeInfo) × (pick_near r draw (b ∷ ns) ≡ some m) × P m
near_total P r draw b ns h =
    let nodes = keep (near b) (b ∷ ns) in
    let some_near : 0 < length nodes = ground arith in
    let all = All-keep P (near b) (b ∷ ns) h in
    elim (Bool-cases (r && ltb 1 (length nodes))) [
      | inl t ↦
          let (m, e) = get_total nodes (draw % length nodes) (omega (arith, some_near)) in
          (m, ground (arith, t, e), All-get P nodes (draw % length nodes) m all e)
      | inr f ↦
          let (m, e) = get_total nodes 0 some_near in
          (m, ground (arith, f, e), All-get P nodes 0 m all e)
    ]

cons_of :
    (xs : List NodeInfo) → 0 < length xs → (y : NodeInfo) × (ys : List NodeInfo) × (xs ≡ y ∷ ys)
cons_of [] h = absurd (omega arith)
cons_of (y ∷ ys) h = (y, ys, refl)

balanced_total :
    (P : NodeInfo → Type 0) (r : Bool) (draw : ℕ) (n : NodeInfo) (ns : List NodeInfo)
    → All P (n ∷ ns)
    → (m : NodeInfo) × (load_balanced_select r draw (n ∷ ns) ≡ some m) × P m
unfolding load_balanced_select
balanced_total P r draw n ns h =
    let all = All-sort load_lt P (n ∷ ns) h in
    let (y, ys, e) =
      cons_of (sort load_lt (n ∷ ns)) (omega (arith, length-sort load_lt (n ∷ ns))) in
    let (m, q, p) = near_total P r draw y ys (subst (λ (l : List NodeInfo). All P l) e all) in
    (m, ap (pick_near r draw) e ∙ q, p)

turn_total :
    (P : NodeInfo → Type 0) (n : NodeInfo) (ns : List NodeInfo) (index : ℕ)
    → All P (n ∷ ns)
    → (m : NodeInfo) × ((round_robin_select (n ∷ ns) index).0 ≡ some m) × P m
unfolding round_robin_select
turn_total P n ns index h =
    let nodes = sort id_lt (n ∷ ns) in
    let some_node : 0 < length nodes = omega (arith, length-sort id_lt (n ∷ ns)) in
    let (m, e) = get_total nodes (index % length nodes) (omega (arith, some_node)) in
    (m, e, All-get P nodes (index % length nodes) m (All-sort id_lt P (n ∷ ns) h) e)

strategy_total :
    (P : NodeInfo → Type 0) (c : Criteria) (draw : ℕ) (n : NodeInfo) (ns : List NodeInfo)
    (index : ℕ)
    → All P (n ∷ ns)
    → (m : NodeInfo) × ((by_strategy c draw (n ∷ ns) index).0 ≡ some m) × P m
strategy_total P c draw n ns index h = elim (Bool-cases (str_eq c.strategy "random")) [
  | inl t ↦
      let (m, e) = get_total (n ∷ ns) (draw % length (n ∷ ns)) (omega arith) in
      (m, rw t e, All-get P (n ∷ ns) (draw % length (n ∷ ns)) m h e)
  | inr f ↦ elim (Bool-cases (str_eq c.strategy "load_balanced")) [
    | inl t ↦ let (m, e, p) = balanced_total P c.randomize draw n ns h in (m, rw (f, t) e, p)
    | inr g ↦ let (m, e, p) = turn_total P n ns index h in (m, rw (f, g) e, p)
  ]
]

chosen_from :
    (lower : List ℕ → List ℕ) (c : Criteria) (draw : ℕ) (nodes : Dict NodeInfo) (index : ℕ)
    (l : List NodeInfo)
    → All (Suitable lower c nodes) l
    → (((by_strategy c draw l index).0 ≡ none) × (l ≡ []))
      ⊎ ((m : NodeInfo) × ((by_strategy c draw l index).0 ≡ some m) × Suitable lower c nodes m)
chosen_from lower c draw nodes index [] h = inl (refl, refl)
chosen_from lower c draw nodes index (n ∷ ns) h =
    inr (strategy_total (Suitable lower c nodes) c draw n ns index h)

or_all_empty : (ks ns : List NodeInfo) → or_all ks ns ≡ [] → ns ≡ []
or_all_empty [] ns e = e
or_all_empty (k ∷ ks) ns e = absurd (ground arith)

none_runs :
    (lower : List ℕ → List ℕ) (c : Criteria) (nodes : Dict NodeInfo)
    → shortlist lower c nodes ≡ []
    → All (λ n. ¬ Named lower c n) (Dict.values nodes)
unfolding shortlist found
none_runs lower c nodes e =
    of_found lower c nodes (λ n. ⊥)
      (subst (λ (l : List NodeInfo). All (λ n. ⊥) l)
        (sym (
          or_all_empty (keep (is_eligible c.min_tps c.max_load) (found lower c nodes))
            (found lower c nodes) e))
        tt)

-- A client gets a node unless none of the nodes that it knows runs the model that it asks for,
-- whatever the strategy and the draw. The node runs that model, exactly where a target model is
-- named; and it has the speed and the load that are asked for, or its measures are unknown, unless no
-- node that the client knows both runs the model and is like that.
pub select_node-Suitable :
    (lower : List ℕ → List ℕ) (c : Criteria) (draw : ℕ) (nodes : Dict NodeInfo) (index : ℕ)
    → (((select_node lower c draw nodes index).0 ≡ none)
        × All (λ n. ¬ Named lower c n) (Dict.values nodes))
      ⊎ ((m : NodeInfo) × ((select_node lower c draw nodes index).0 ≡ some m)
          × Suitable lower c nodes m)
unfolding select_node
select_node-Suitable lower c draw nodes index =
    elim (chosen_from lower c draw nodes index (shortlist lower c nodes)
      (shortlist-Suitable lower c nodes)) [
        | inl (gone, e) ↦ inl (gone, none_runs lower c nodes e)
        | inr chosen ↦ inr chosen
      ]
