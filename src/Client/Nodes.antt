-- ===== src/Client/Nodes.antt =====
-- `SimpleNodeDiscovery` of client/router.py: the nodes that a client knows.
use llama_net.Prelude.{ℕ, Bool, Option, none, some, List, String, str_eq, keep, if◌then◌else◌}
use llama_net.Prelude.Dict
use llama_net.Prelude.Dict.{Dict}
use llama_net.Prelude.Text.{codes}
use llama_net.Prelude.Codes.{contains}

-- The fields that the selection reads. Loads and tokens per second are counted in thousandths.
pub record NodeInfo : Type 0 where
  pub node_id : String
  pub model : String
  pub load : ℕ
  pub tps : ℕ

abbrev pub tenth : ℕ
tenth = 100

unfoldable pub add_node : NodeInfo → Dict NodeInfo → Dict NodeInfo
add_node n nodes = Dict.put nodes n.node_id n

unfoldable pub remove_node : String → Dict NodeInfo → Dict NodeInfo
remove_node id nodes = Dict.pop nodes id

-- An empty name of a model filters nothing, as none does. `str.lower` is a parameter.
abbrev pub some_name : Option String → Option String
some_name none = none
some_name (some m) = if str_eq m "" then none else some m

abbrev pub is_match : (List ℕ → List ℕ) → String → NodeInfo → Bool
is_match lower m n = contains (lower (codes m)) (lower (codes n.model))

abbrev pub matching : (List ℕ → List ℕ) → Option String → List NodeInfo → List NodeInfo
matching lower none nodes = nodes
matching lower (some m) nodes = keep (is_match lower m) nodes

unfoldable pub get_nodes : (List ℕ → List ℕ) → Option String → Dict NodeInfo → List NodeInfo
unfolding contains codes
get_nodes lower model nodes = matching lower (some_name model) (Dict.values nodes)

unfoldable pub node_count : Dict NodeInfo → ℕ
node_count nodes = Dict.size nodes
