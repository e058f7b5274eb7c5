-- ===== src/Router/Select.antt =====
-- `_select_node` of gateway/router.py.
use llama_net.Prelude.{
  ℕ, ◌+◌, ◌-◌, ◌%◌, ◌&&◌, Option, none, some, List, [], ◌∷◌, String, str_eq, ltb, keep, length,
  get_elem?, if◌then◌else◌,
}
use llama_net.Prelude.Dict
use llama_net.Prelude.Dict.{Dict}
use llama_net.Prelude.Int.{ℤ, pos, ltb_ℤ, leb_ℤ}
use llama_net.Router.State.{Node, ModelRouter, affinity_max_age}

-- `[k for k, v in ttl.items() if now - v > max_age]`
unfoldable pub expired_keys : ℕ → Dict ℕ → List String
expired_keys now [] = []
expired_keys now ((k, t) ∷ d) =
    let rest = expired_keys now d in if ltb affinity_max_age (now - t) then k ∷ rest else rest

unfoldable pub cleanup_affinity : ℕ → ModelRouter → ModelRouter
cleanup_affinity now s = record s {
  prefix_affinity = Dict.pop_all s.prefix_affinity (expired_keys now s.affinity_ttl);
  affinity_ttl = Dict.pop_all s.affinity_ttl (expired_keys now s.affinity_ttl);
}

-- The nodes whose context is long enough or, if there is none, all.
unfoldable pub context_filter : ℤ → List Node → List Node
context_filter min_ctx nodes =
    if ltb_ℤ (pos 0) min_ctx
    then (elim (keep (λ (n : Node). leb_ℤ min_ctx (pos n.ctx_length)) nodes) [
      | [] ↦ nodes
      | n ∷ ns ↦ n ∷ ns
    ])
    else nodes

unfoldable pub find_node : String → List Node → Option Node
find_node hash [] = none
find_node hash (n ∷ ns) = if str_eq n.node_hash hash then some n else find_node hash ns

-- The loop over the nodes under "Prefix affinity": the node of the hash, if its context will do.
unfoldable pub affinity_node : ℤ → String → List Node → Option Node
unfolding find_node
affinity_node min_ctx hash nodes = elim (find_node hash nodes) [
  | none ↦ none
  | some n ↦
      if ltb_ℤ (pos 0) min_ctx && ltb 0 n.ctx_length && ltb_ℤ (pos n.ctx_length) min_ctx
      then none
      else some n
]

-- `min(nodes, key=load)`: the first of the least loaded.
unfoldable pub least_loaded : Node → List Node → Node
least_loaded best [] = best
least_loaded best (n ∷ ns) = least_loaded (if ltb n.load best.load then n else best) ns

-- "Normal selection", from a list that is not empty.
unfoldable pub by_strategy :
    String → String → ℕ → Node → List Node → ModelRouter → Option Node × ModelRouter
unfolding least_loaded
by_strategy strategy slug draw n ns s =
    if str_eq strategy "round_robin"
    then (let idx = Dict.get_or s.rr_index slug 0 % length (n ∷ ns) in
        (get_elem? (n ∷ ns) idx, record s { rr_index = Dict.put s.rr_index slug (idx + 1) }))
    else if str_eq strategy "random"
    then (get_elem? (n ∷ ns) (draw % length (n ∷ ns)), s)
    else (some (least_loaded n ns), s)

unfoldable pub store_affinity : Option String → Option Node → ℕ → ModelRouter → ModelRouter
store_affinity none n now s = s
store_affinity (some p) none now s = s
store_affinity (some p) (some n) now s = record s {
  prefix_affinity = Dict.put s.prefix_affinity p n.node_hash;
  affinity_ttl = Dict.put s.affinity_ttl p now;
}

-- The node that the prefix is tied to, with the time of its use stamped; or none, with the tie gone.
unfoldable pub sticky : Option String → ℤ → List Node → ℕ → ModelRouter → Option Node × ModelRouter
unfolding affinity_node
sticky none min_ctx nodes now s = (none, s)
sticky (some p) min_ctx nodes now s = elim (Dict.get s.prefix_affinity p) [
  | none ↦ (none, s)
  | some hash ↦ elim (affinity_node min_ctx hash nodes) [
    | some n ↦ (some n, record s { affinity_ttl = Dict.put s.affinity_ttl p now })
    | none ↦ (
      none,
      record s {
        prefix_affinity = Dict.pop s.prefix_affinity p;
        affinity_ttl = Dict.pop s.affinity_ttl p;
      },
    )
  ]
]

abbrev pub fresh_choice :
    Option String → String → String → ℕ → ℕ → List Node → ModelRouter → Option Node × ModelRouter
fresh_choice prefix strategy slug draw now [] s = (none, s)
fresh_choice prefix strategy slug draw now (n ∷ ns) s =
    let (chosen, s') = by_strategy strategy slug draw n ns s in
    (chosen, store_affinity prefix chosen now s')

-- The tied node or, without one, a new choice.
abbrev pub settle :
    Option Node
    → Option String
    → String
    → String
    → ℕ
    → ℕ
    → List Node
    → ModelRouter
    → Option Node × ModelRouter
settle (some m) prefix strategy slug draw now nodes s = (some m, s)
settle none prefix strategy slug draw now nodes s =
    fresh_choice prefix strategy slug draw now nodes s

-- A prefix hash that is "" counts as none, as Python's tests have it.
abbrev pub nonempty : Option String → Option String
nonempty none = none
nonempty (some p) = if str_eq p "" then none else some p

-- From the rows for the slug. `swept`, `used` and `tied` are the three readings of the clock.
unfoldable pub select_from :
    String
    → String
    → Option String
    → ℤ
    → ℕ
    → ℕ
    → ℕ
    → ℕ
    → List Node
    → ModelRouter
    → Option Node × ModelRouter
unfolding cleanup_affinity context_filter sticky by_strategy store_affinity
select_from slug strategy prefix min_ctx draw swept used tied [] s =
    (none, cleanup_affinity swept s)
select_from slug strategy prefix min_ctx draw swept used tied (n ∷ ns) s =
    let nodes = context_filter min_ctx (n ∷ ns) in
    let (tie, s') = sticky (nonempty prefix) min_ctx nodes used (cleanup_affinity swept s) in
    settle tie (nonempty prefix) strategy slug draw tied nodes s'
