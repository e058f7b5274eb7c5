-- ===== src/Client/Select.antt =====
-- `NodeSelector` of client/router.py.
use llama_net.Prelude.{
  ℕ, ◌+◌, ◌%◌, Bool, true, false, ◌&&◌, ◌||◌, Option, none, some, List, [], ◌∷◌, String, str_eq,
  leb, ltb, ◌==◌, keep, length, get_elem?, if◌then◌else◌,
}
use llama_net.Prelude.Dict.{Dict}
use llama_net.Prelude.Text.{codes}
use llama_net.Client.Nodes.{NodeInfo, tenth, some_name, get_nodes}

-- Python's order of texts: by code points, a part before the whole.
unfoldable pub text_lt : List ℕ → List ℕ → Bool
text_lt s [] = false
text_lt [] (d ∷ t) = true
text_lt (c ∷ s) (d ∷ t) = let rest = text_lt s t in if ltb c d then true else (c == d) && rest

module _ {A : Type 0} (lt : A → A → Bool) where
  -- `sorted`, which keeps the order of equals.
  unfoldable pub insert : A → List A → List A
  insert x [] = x ∷ []
  insert x (y ∷ ys) = let rest = insert x ys in if lt y x then y ∷ rest else x ∷ y ∷ ys

  unfoldable pub sort : List A → List A
  unfolding insert
  sort [] = []
  sort (x ∷ xs) = insert x (sort xs)

abbrev pub id_lt : NodeInfo → NodeInfo → Bool
id_lt n m = text_lt (codes n.node_id) (codes m.node_id)

abbrev pub load_lt : NodeInfo → NodeInfo → Bool
load_lt n m = ltb n.load m.load

-- `_round_robin_select`, with the index in and out.
unfoldable pub round_robin_select : List NodeInfo → ℕ → Option NodeInfo × ℕ
unfolding sort text_lt codes
round_robin_select [] index = (none, index)
round_robin_select (n ∷ ns) index =
    let nodes = sort id_lt (n ∷ ns) in
    (get_elem? nodes (index % length nodes), (index + 1) % length nodes)

abbrev pub near : NodeInfo → NodeInfo → Bool
near best n = leb n.load (best.load + tenth)

-- The choice among the best nodes, from their list in the order of load.
abbrev pub pick_near : Bool → ℕ → List NodeInfo → Option NodeInfo
pick_near randomize draw [] = none
pick_near randomize draw (best ∷ rest) =
    let nodes = keep (near best) (best ∷ rest) in
    if randomize && ltb 1 (length nodes)
    then get_elem? nodes (draw % length nodes)
    else get_elem? nodes 0

unfoldable pub load_balanced_select : Bool → ℕ → List NodeInfo → Option NodeInfo
unfolding sort
load_balanced_select randomize draw nodes = pick_near randomize draw (sort load_lt nodes)

-- A node whose measures are not known yet is let through.
abbrev pub is_eligible : ℕ → ℕ → NodeInfo → Bool
is_eligible min_tps max_load n =
    (str_eq n.model "unknown" || (n.tps == 0)) || (leb min_tps n.tps && leb n.load max_load)

abbrev pub or_all : List NodeInfo → List NodeInfo → List NodeInfo
or_all [] nodes = nodes
or_all (n ∷ ns) nodes = n ∷ ns

pub record Criteria : Type 0 where
  pub model : Option String
  pub target_model : Option String
  pub min_tps : ℕ
  pub max_load : ℕ
  pub strategy : String
  pub randomize : Bool

abbrev pub filter_of : Criteria → Option String
filter_of c = elim (some_name c.target_model) [ none ↦ c.model | some t ↦ some t ]

abbrev pub exact : Option String → List NodeInfo → List NodeInfo
exact none nodes = nodes
exact (some t) nodes = keep (λ (n : NodeInfo). str_eq n.model t) nodes

-- The list that the strategy chooses from; it is empty only if no node is left.
unfoldable pub shortlist : (List ℕ → List ℕ) → Criteria → Dict NodeInfo → List NodeInfo
unfolding get_nodes
shortlist lower c nodes =
    let found = exact (some_name c.target_model) (get_nodes lower (filter_of c) nodes) in
    or_all (keep (is_eligible c.min_tps c.max_load) found) found

abbrev pub by_strategy : Criteria → ℕ → List NodeInfo → ℕ → Option NodeInfo × ℕ
by_strategy c draw [] index = (none, index)
by_strategy c draw (n ∷ ns) index =
    if str_eq c.strategy "random"
    then (get_elem? (n ∷ ns) (draw % length (n ∷ ns)), index)
    else if str_eq c.strategy "load_balanced"
    then (load_balanced_select c.randomize draw (n ∷ ns), index)
    else round_robin_select (n ∷ ns) index

-- `select_node`, with the random draw and the index of the selector.
unfoldable pub select_node :
    (List ℕ → List ℕ) → Criteria → ℕ → Dict NodeInfo → ℕ → Option NodeInfo × ℕ
unfolding shortlist load_balanced_select round_robin_select
select_node lower c draw nodes index = by_strategy c draw (shortlist lower c nodes) index
