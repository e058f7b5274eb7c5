-- ===== src/Database/Register.antt =====
-- `register_node`, `cleanup_stale` and the tunnels of gateway/supabase_client.py.
use llama_net.Prelude.{
  ℕ, ◌+◌, ◌-◌, Bool, true, false, ◌&&◌, Option, none, some, List, [], ◌∷◌, String, ltb, ◌==◌,
  if◌then◌else◌, map,
}
use llama_net.Prelude.Dict
use llama_net.Prelude.Dict.{Dict}
use llama_net.Database.State.{counts, Gauges, NodeRow, Tunnel, Manager}
use llama_net.Database.Calls.{Method, pure, ◌>>=◌, ◌>>◌, catch, execute, select, write, modify}
use llama_net.Database.Tokens.{add_cumulative_tokens, detect_restart_and_accumulate}
use llama_net.Database.Models.{
  Listed, named, described, unknown, of_node, upsert_node_models, evict_where,
}
use llama_net.Database.Nodes.{Metrics, with_defaults, or_else, update_nodes, retired}

-- What a node registers with.
pub record Registration : Type 0 where
  pub user_id : String
  pub node_hash : String
  pub model_name : List ℕ
  pub model_slug : List ℕ
  pub url : String
  pub ip : String
  pub port : ℕ
  pub gpu_info : String
  pub metrics : Metrics
  pub ctx_length : ℕ
  pub models_list : List Listed

-- The tokens of the row that is there, whose counts go into the cache if it holds none.
abbrev pub seed : String → NodeRow → Manager → Manager
seed hash row m = if Dict.has m.token_cache hash then m else (record m {
  token_cache = Dict.put m.token_cache hash (counts row.prompt_tokens row.completion_tokens);
})

unfoldable pub existing_tokens : String → Method ℕ
unfolding execute Dict.get Dict.put
existing_tokens hash =
    catch
      (do
        found ← select (λ m. Dict.get m.nodes hash)
        (elim found [ none ↦ pure 0 | some row ↦ modify (seed hash row) >> pure row.total_tokens ]))
      (pure 0)

-- A node that reports no completion tokens and fewer tokens than its row.
unfoldable pub accumulate_rejoining : String → ℕ → Metrics → Method (Unit {0})
unfolding add_cumulative_tokens Dict.pop
accumulate_rejoining hash existing metrics =
    if ltb metrics.total_tokens existing && ltb 0 existing && metrics.completion_tokens == 0
    then (add_cumulative_tokens 0 existing
        >> modify (λ m. record m { token_cache = Dict.pop m.token_cache hash }))
    else pure tt

abbrev pub total_of : Metrics → ℕ
total_of metrics = or_else metrics.total_tokens (metrics.prompt_tokens + metrics.completion_tokens)

unfoldable pub registered_row : ℕ → Registration → NodeRow
registered_row now r = record {
  user_id = r.user_id;
  url = r.url;
  ip = r.ip;
  port = r.port;
  gpu_info = r.gpu_info;
  gauges = with_defaults r.metrics.gauges;
  total_tokens = total_of r.metrics;
  prompt_tokens = r.metrics.prompt_tokens;
  completion_tokens = r.metrics.completion_tokens;
  ctx_length = r.ctx_length;
  is_active = true;
  last_heartbeat = now;
}

-- `m.setdefault(…)`
abbrev default_to {ℓ} : {A : Type ℓ} → Option A → Option A → Option A
default_to (some v) d = some v
default_to none d = d

abbrev default_gauges : Gauges → Gauges → Gauges
default_gauges g d = record {
  load = default_to g.load d.load;
  tps = default_to g.tps d.tps;
  ttft = default_to g.ttft d.ttft;
  latency = default_to g.latency d.latency;
  uptime = default_to g.uptime d.uptime;
}

-- The node's metrics, where a model of the list has none of its own.
abbrev pub with_node_metrics : Metrics → Listed → Listed
with_node_metrics metrics (described m) = described (record m {
  gauges = default_gauges m.gauges (with_defaults metrics.gauges);
  total_tokens = default_to m.total_tokens (some (total_of metrics));
  prompt_tokens = default_to m.prompt_tokens (some metrics.prompt_tokens);
  completion_tokens = default_to m.completion_tokens (some metrics.completion_tokens);
})
with_node_metrics metrics (named name) = named name
with_node_metrics metrics unknown = unknown

-- `models_list or [{"name": model_name, "ctx_length": ctx_length}]`
abbrev pub listed_models : Registration → List Listed
listed_models r = elim r.models_list [
  | [] ↦
      described (record {
        name = r.model_name;
        ctx_length = r.ctx_length;
        gauges = record { load = none; tps = none; ttft = none; latency = none; uptime = none };
        total_tokens = none;
        prompt_tokens = none;
        completion_tokens = none;
      })
      ∷ []
  | l ∷ models ↦ l ∷ models
]

module _ (lower : List ℕ → List ℕ) where
  -- An exception of the write to `nodes` leaves the function.
  unfoldable pub register_node : ℕ → Registration → Method (Unit {0})
  unfolding existing_tokens detect_restart_and_accumulate accumulate_rejoining registered_row
      execute upsert_node_models Dict.put
  register_node now r = do
    existing ← existing_tokens r.node_hash
    detect_restart_and_accumulate r.node_hash r.metrics.prompt_tokens r.metrics.completion_tokens
    accumulate_rejoining r.node_hash existing r.metrics
    write (λ m. record m { nodes = Dict.put m.nodes r.node_hash (registered_row now r) })
    upsert_node_models lower r.node_hash (map (with_node_metrics r.metrics) (listed_models r))
        r.model_slug

-- `cleanup_stale`: the loop over the active rows, with the count so far. A row whose update raises is
-- passed over.
unfoldable pub retire_stale : ℕ → ℕ → Dict NodeRow → ℕ → Method ℕ
unfolding execute
retire_stale now max_age [] count = pure count
retire_stale now max_age ((hash, row) ∷ rows) count =
    if row.is_active && ltb max_age (now - row.last_heartbeat)
    then (do
      n ←
          catch
            (do
              update_nodes hash retired
              catch (write (evict_where (of_node hash))) (pure tt)
              pure (count + 1))
            (pure count)
      retire_stale now max_age rows n)
    else retire_stale now max_age rows count

unfoldable pub cleanup_stale : ℕ → ℕ → Method ℕ
unfolding retire_stale execute
cleanup_stale now max_age =
    catch (do rows ← select (λ m. m.nodes); retire_stale now max_age rows 0) (pure 0)

unfoldable pub store_tunnel : String → Tunnel → Method Bool
unfolding execute Dict.put
store_tunnel hash t =
    catch (write (λ m. record m { tunnel_state = Dict.put m.tunnel_state hash t }) >> pure true)
      (pure false)

unfoldable pub get_tunnel : String → Method (Option Tunnel)
unfolding execute Dict.get
get_tunnel hash = catch (select (λ m. Dict.get m.tunnel_state hash)) (pure none)

unfoldable pub delete_tunnel : String → Method Bool
unfolding execute Dict.pop
delete_tunnel hash =
    catch (write (λ m. record m { tunnel_state = Dict.pop m.tunnel_state hash }) >> pure true)
      (pure false)
