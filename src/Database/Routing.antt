-- ===== src/Database/Routing.antt =====
-- `get_nodes_for_model` of gateway/supabase_client.py, and what it never gives to the router. The order
-- of the database by load is a parameter.
use llama_net.Prelude.{
  ℕ, ◌≡◌, refl, Bool, true, false, not, ◌&&◌, Option, none, some, List, [], ◌∷◌, String, str_eq,
  arith, if◌then◌else◌, keep, All, All-if,
}
use llama_net.Prelude.Dict.{Dict}
use llama_net.Prelude.Codes.{same_text}
use llama_net.Client.Select.{sort}
use llama_net.Client.Sorting.{All-sort}
use llama_net.Database.State.{Gauges, NodeRow, ModelRow, Manager}
use llama_net.Database.Calls.{
  Outcome, returned, raised, Method, Schedule, pure, ◌>>=◌, catch, execute, select, handle_with,
  bind_with,
}
use llama_net.Database.Tokens.{accumulate_departing}
use llama_net.Database.Nodes.{change_rows, retired, retire_node, deregister_node}

-- A row of `nodes` with the context length and the gauges of the model on that node.
pub record Routed : Type 0 where
  pub node_hash : String
  pub url : String
  pub ip : String
  pub port : ℕ
  pub gauges : Gauges
  pub ctx_length : ℕ

-- `nm_metrics_map[node_hash]`: of several rows the last.
unfoldable pub row_of : String → List ModelRow → Option ModelRow
row_of hash [] = none
row_of hash (r ∷ rows) = elim (row_of hash rows) [
  | some q ↦ some q
  | none ↦ if str_eq r.node_hash hash then some r else none
]

abbrev pub serves : List ℕ → ModelRow → Bool
serves slug r = same_text r.model_slug slug && not r.is_evicted

abbrev pub routed_with : String → NodeRow → ModelRow → Routed
routed_with hash row r = record {
  node_hash = hash;
  url = row.url;
  ip = row.ip;
  port = row.port;
  gauges = record r.gauges { uptime = row.gauges.uptime };
  ctx_length = r.ctx_length;
}

abbrev pub add_routed : String → NodeRow → Option ModelRow → List Routed → List Routed
add_routed hash row none rest = rest
add_routed hash row (some r) rest = if row.is_active then routed_with hash row r ∷ rest else rest

-- The active rows of nodes that have a row for the model.
unfoldable pub joined_rows : List ModelRow → Dict NodeRow → List Routed
joined_rows models [] = []
joined_rows models ((hash, row) ∷ rows) =
    add_routed hash row (row_of hash models) (joined_rows models rows)

module _ (before : Routed → Routed → Bool) where
  unfoldable pub select_routed : List ModelRow → Method (List Routed)
  unfolding execute joined_rows sort row_of
  select_routed [] = pure []
  select_routed (r ∷ rs) = select (λ m. sort before (joined_rows (r ∷ rs) m.nodes))

  unfoldable pub get_nodes_for_model : List ℕ → Method (List Routed)
  unfolding execute same_text
  get_nodes_for_model slug =
      catch (do models ← select (λ m. keep (serves slug) m.node_models); select_routed models)
        (pure [])

-- No row of a node is active.
abbrev pub IsRetired : String → Dict NodeRow → Type 0
IsRetired hash rows = All (λ e. (str_eq e.0 hash && e.1.is_active) ≡ false) rows

abbrev pub IsOther : String → Routed → Type 0
IsOther hash n = str_eq n.node_hash hash ≡ false

change_rows-IsRetired :
    (hash : String) (rows : Dict NodeRow) → IsRetired hash (change_rows hash retired rows)
change_rows-IsRetired hash [] = tt
change_rows-IsRetired hash ((j, row) ∷ rows) = (ground arith, change_rows-IsRetired hash rows)

add_routed-IsOther :
    (hash j : String) (row : NodeRow) (r : Option ModelRow) (rest : List Routed)
    → (str_eq j hash && row.is_active) ≡ false
    → All (IsOther hash) rest
    → All (IsOther hash) (add_routed j row r rest)
add_routed-IsOther hash j row none rest h k = k
add_routed-IsOther hash j row (some r) rest h k =
    All-if (IsOther hash) row.is_active (routed_with j row r) rest (λ a. ground (arith, h, a)) k

joined_rows-IsOther :
    (hash : String) (models : List ModelRow) (rows : Dict NodeRow)
    → IsRetired hash rows
    → All (IsOther hash) (joined_rows models rows)
unfolding joined_rows
joined_rows-IsOther hash models [] h = tt
joined_rows-IsOther hash models ((j, row) ∷ rows) h =
    add_routed-IsOther hash j row (row_of j models) (joined_rows models rows) h.0
      (joined_rows-IsOther hash models rows h.1)

-- Whatever calls raise: where the node is reported as taken out, none of its rows is active.
retire_node-IsRetired :
    (hash : String) (o : Outcome (Unit {0}) × Manager × Schedule)
    → (handle_with (pure false) (bind_with (λ _. retire_node hash) o)).0 ≡ returned true
    → IsRetired hash (handle_with (pure false) (bind_with (λ _. retire_node hash) o)).1.nodes
unfolding retire_node
retire_node-IsRetired hash (raised, m, s) h = cc
retire_node-IsRetired hash (returned u, m, []) h = change_rows-IsRetired hash m.nodes
retire_node-IsRetired hash (returned u, m, true ∷ s) h = cc
retire_node-IsRetired hash (returned u, m, false ∷ []) h = change_rows-IsRetired hash m.nodes
retire_node-IsRetired hash (returned u, m, false ∷ true ∷ s) h = change_rows-IsRetired hash m.nodes
retire_node-IsRetired hash (returned u, m, false ∷ false ∷ s) h = change_rows-IsRetired hash m.nodes

deregister_node-IsRetired :
    (hash : String) (m : Manager) (s : Schedule)
    → (deregister_node hash m s).0 ≡ returned true
    → IsRetired hash (deregister_node hash m s).1.nodes
unfolding deregister_node
deregister_node-IsRetired hash m s h = retire_node-IsRetired hash (accumulate_departing hash m s) h

module _ (before : Routed → Routed → Bool) where
  select_routed-IsOther :
      (hash : String) (models : List ModelRow) (m : Manager) (s : Schedule)
      → IsRetired hash m.nodes
      → (found : List Routed) × ((handle_with (pure []) (select_routed before models m s)).0
          ≡ returned found)
        × All (IsOther hash) found
  unfolding select_routed
  select_routed-IsOther hash [] m s h = ([], refl, tt)
  select_routed-IsOther hash (r ∷ rs) m [] h = (
    sort before (joined_rows (r ∷ rs) m.nodes),
    refl,
    All-sort before (IsOther hash) (joined_rows (r ∷ rs) m.nodes)
        (joined_rows-IsOther hash (r ∷ rs) m.nodes h),
  )
  select_routed-IsOther hash (r ∷ rs) m (true ∷ s) h = ([], refl, tt)
  select_routed-IsOther hash (r ∷ rs) m (false ∷ s) h = (
    sort before (joined_rows (r ∷ rs) m.nodes),
    refl,
    All-sort before (IsOther hash) (joined_rows (r ∷ rs) m.nodes)
        (joined_rows-IsOther hash (r ∷ rs) m.nodes h),
  )

  routed-IsOther :
      (hash : String) (slug : List ℕ) (m : Manager) (s : Schedule)
      → IsRetired hash m.nodes
      → (found : List Routed) × ((get_nodes_for_model before slug m s).0 ≡ returned found)
        × All (IsOther hash) found
  unfolding get_nodes_for_model
  routed-IsOther hash slug m [] h =
      select_routed-IsOther hash (keep (serves slug) m.node_models) m [] h
  routed-IsOther hash slug m (true ∷ s) h = ([], refl, tt)
  routed-IsOther hash slug m (false ∷ s) h =
      select_routed-IsOther hash (keep (serves slug) m.node_models) m s h

  -- Whichever calls of the database raise, at the deregistration and later: if deregister_node answers
  -- True for a node, the nodes found for a model after it, for any slug, do not include that node.
  pub deregistered-IsOther :
      (hash : String) (slug : List ℕ) (m : Manager) (s later : Schedule)
      → (deregister_node hash m s).0 ≡ returned true
      → (found : List Routed) × ((get_nodes_for_model before slug
            (deregister_node hash m s).1
            later).0
          ≡ returned found)
        × All (IsOther hash) found
  deregistered-IsOther hash slug m s later h =
      routed-IsOther hash slug (deregister_node hash m s).1 later
        (deregister_node-IsRetired hash m s h)
