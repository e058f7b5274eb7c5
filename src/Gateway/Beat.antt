-- ===== src/Gateway/Beat.antt =====
-- The body of a heartbeat, and the change of the URL that `node_heartbeat` of gateway/server.py makes.
use llama_net.Prelude.{
  ℕ, Bool, true, false, ◌&&◌, Option, none, some, List, [], ◌∷◌, String, count, str_eq, ltb,
  if◌then◌else◌, map,
}
use llama_net.Prelude.Dict
use llama_net.Prelude.Dict.{Dict}
use llama_net.Database.State.{NodeRow, Manager}
use llama_net.Database.Calls.{Method, pure, ◌>>=◌, catch, execute, write}
use llama_net.Database.Models.{Listed, no_gauges}
use llama_net.Database.Nodes.{Metrics, change_rows}
use llama_net.Gateway.State.{World, Announced}
use llama_net.Gateway.Publication.{normalized}

-- The body of a heartbeat; a field that is missing is none, and a URL or an IP that is missing is empty.
pub record Heartbeat : Type 0 where
  pub node_hash : String
  pub model : Option String
  pub url : String
  pub ip : String
  pub metrics : Metrics
  pub models : List Announced
  pub ctx_length : ℕ

-- `node_hash`, which may also be a whole node id.
abbrev pub hash_of : World → Heartbeat → String
hash_of w b = if ltb 12 (count b.node_hash) then w.hash b.node_hash else b.node_hash

abbrev pub pool_of : Heartbeat → List Listed
pool_of b = map normalized b.models

-- The metrics, with the pool and the context length of a heartbeat that names models.
abbrev pub metrics_of : Heartbeat → Metrics
metrics_of b = elim b.models [
  | [] ↦ b.metrics
  | m ∷ ms ↦ record b.metrics {
    pool_models = some (pool_of b);
    ctx_length = if ltb 0 b.ctx_length then some b.ctx_length else b.metrics.ctx_length;
  }
]

abbrev pub new_text : String → String → String
new_text new old = if str_eq new "" then old else new

abbrev pub moved : String → String → NodeRow → NodeRow
moved url ip r = record r { url = new_text url r.url; ip = new_text ip r.ip }

abbrev pub moved_active : String → String → NodeRow → NodeRow
moved_active url ip r = if r.is_active then moved url ip r else r

-- The row that an upsert adds for a node that the table does not know.
abbrev pub bare_row : NodeRow
bare_row = record {
  user_id = "";
  url = "";
  ip = "";
  port = 0;
  gpu_info = "";
  gauges = no_gauges;
  total_tokens = 0;
  prompt_tokens = 0;
  completion_tokens = 0;
  ctx_length = 0;
  is_active = true;
  last_heartbeat = 0;
}

abbrev pub woken : ℕ → String → String → NodeRow → NodeRow
woken now url ip r = record (moved url ip r) { is_active = true; last_heartbeat = now }

unfoldable pub is_known_active : String → Dict NodeRow → Bool
is_known_active hash rows = elim (Dict.get rows hash) [ none ↦ false | some r ↦ r.is_active ]

-- The update of the active row, and whether there is one.
abbrev pub move_active : String → String → String → Manager → Bool × Manager
move_active hash url ip m = (
  is_known_active hash m.nodes,
  record m { nodes = change_rows hash (moved_active url ip) m.nodes },
)

abbrev pub wake_row : ℕ → String → String → String → Manager → Manager
wake_row now hash url ip m = record m {
  nodes = Dict.put m.nodes hash (woken now url ip (Dict.get_or m.nodes hash bare_row));
}

-- The change of the URL and the IP: an update of the active row or, if there is none, an upsert.
unfoldable pub move_node : ℕ → String → String → String → Method (Unit {0})
unfolding execute is_known_active
move_node now hash url ip =
    if str_eq url "" && str_eq ip ""
    then pure tt
    else catch
        (do
          found ← execute (move_active hash url ip)
          (if found then pure tt else write (wake_row now hash url ip)))
        (pure tt)
