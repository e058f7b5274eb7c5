-- ===== src/Database/Nodes.antt =====
-- The rows of `nodes` in gateway/supabase_client.py: `register_node`, `update_node_metrics`,
-- `deregister_node` and `cleanup_stale`. "now()" is the argument `now`, in seconds.
use llama_net.Prelude.{
  ℕ, ◌+◌, Bool, true, false, not, ◌&&◌, Option, none, some, List, [], ◌∷◌, String, str_eq, ◌==◌,
  if◌then◌else◌, any, map,
}
use llama_net.Prelude.Dict.{Dict}
use llama_net.Prelude.Codes.{same_text}
use llama_net.Database.State.{Gauges, NodeRow, ModelRow, Manager}
use llama_net.Database.Calls.{Method, pure, ◌>>=◌, ◌>>◌, catch, execute, select, write}
use llama_net.Database.Tokens.{
  detect_restart_and_accumulate, persist_token_cache, accumulate_departing,
}
use llama_net.Database.Models.{
  Listed, described, or_zero, of_node, is_row, no_gauges, upsert_node_models, evict_where,
}

-- The metrics of a node. A missing count is 0; `pool_models` may be missing.
pub record Metrics : Type 0 where
  pub gauges : Gauges
  pub total_tokens : ℕ
  pub prompt_tokens : ℕ
  pub completion_tokens : ℕ
  pub pool_models : Option (List Listed)
  pub ctx_length : Option ℕ

abbrev pub no_metrics : Metrics
no_metrics = record {
  gauges = no_gauges;
  total_tokens = 0;
  prompt_tokens = 0;
  completion_tokens = 0;
  pool_models = none;
  ctx_length = none;
}

-- `metrics.get("load", 0)` and the like: ttft and latency have no default.
abbrev pub with_defaults : Gauges → Gauges
with_defaults g = record g { load = or_zero g.load; tps = or_zero g.tps; uptime = or_zero g.uptime }

-- `a or b`
abbrev pub or_else : ℕ → ℕ → ℕ
or_else a b = if a == 0 then b else a

-- `update(…).eq("node_hash", hash)`: every row of the node, and whether there is one.
abbrev pub change_rows : String → (NodeRow → NodeRow) → Dict NodeRow → Dict NodeRow
change_rows hash f rows = map (λ e. if str_eq e.0 hash then (e.0, f e.1) else e) rows

abbrev pub update_nodes : String → (NodeRow → NodeRow) → Method Bool
update_nodes hash f =
    execute
      (λ m. (any (λ e. str_eq e.0 hash) m.nodes, record m { nodes = change_rows hash f m.nodes }))

-- `eq("is_active", True).eq("status", "active")` of a node: the slug of the first row.
unfoldable pub active_slug_of : String → List ModelRow → Option (List ℕ)
active_slug_of hash [] = none
active_slug_of hash (r ∷ rows) =
    if of_node hash r && r.is_active then some r.model_slug else active_slug_of hash rows

abbrev slug_or_empty : Option (List ℕ) → List ℕ
slug_or_empty none = []
slug_or_empty (some slug) = slug

-- The context length that an update takes over: the metrics' own, or that of the first pool model.
abbrev pub first_ctx : Option (List Listed) → Option ℕ
first_ctx (some (described r ∷ models)) = some r.ctx_length
first_ctx _ = none

abbrev pub new_ctx : Metrics → ℕ → ℕ
new_ctx metrics old = elim metrics.ctx_length [
  | some n ↦ n
  | none ↦ elim (first_ctx metrics.pool_models) [ some n ↦ n | none ↦ old ]
]

unfoldable pub updated_row : ℕ → Metrics → NodeRow → NodeRow
updated_row now metrics row = record row {
  gauges = with_defaults metrics.gauges;
  total_tokens = or_else metrics.total_tokens (metrics.prompt_tokens + metrics.completion_tokens);
  prompt_tokens = metrics.prompt_tokens;
  completion_tokens = metrics.completion_tokens;
  ctx_length = new_ctx metrics row.ctx_length;
  is_active = true;
  last_heartbeat = now;
}

-- The gauges of a probe, in the row of the active model.
abbrev probed : Gauges → ModelRow → ModelRow
probed g r = record r {
  gauges = record r.gauges { ttft = g.ttft; latency = g.latency; tps = g.tps };
}

abbrev pub set_probe : String → List ℕ → Gauges → Manager → Manager
set_probe hash slug g m = record m {
  node_models =
      map (λ r. if is_row hash slug r && not r.is_evicted then probed g r else r) m.node_models;
}

unfoldable pub update_probe : String → Gauges → Method (Unit {0})
unfolding execute active_slug_of same_text
update_probe hash g =
    catch
      (do
        found ← select (λ m. active_slug_of hash m.node_models)
        (elim found [ none ↦ pure tt | some slug ↦ write (set_probe hash slug g) ]))
      (pure tt)

module _ (lower : List ℕ → List ℕ) where
  -- What becomes of the pool models that come with the metrics.
  unfoldable pub update_pool : String → Option (List Listed) → Method (Unit {0})
  unfolding upsert_node_models execute active_slug_of
  update_pool hash none = pure tt
  update_pool hash (some []) = catch (write (evict_where (of_node hash))) (pure tt)
  update_pool hash (some (l ∷ models)) = do
    slug ← catch (select (λ m. slug_or_empty (active_slug_of hash m.node_models))) (pure [])
    upsert_node_models lower hash (l ∷ models) slug

  unfoldable pub update_node_metrics : ℕ → String → Metrics → Method Bool
  unfolding detect_restart_and_accumulate update_pool execute updated_row update_probe
      persist_token_cache
  update_node_metrics now hash metrics =
      catch
        (do
          detect_restart_and_accumulate hash metrics.prompt_tokens metrics.completion_tokens
          update_pool hash metrics.pool_models
          found ← update_nodes hash (updated_row now metrics)
          (elim metrics.pool_models [
            | none ↦ update_probe hash (with_defaults metrics.gauges)
            | some models ↦ pure tt
          ])
          persist_token_cache
          pure found)
        (pure false)

-- `deregister_node`: whether there was a row.
abbrev pub retired : NodeRow → NodeRow
retired row = record row { is_active = false }

-- Its second half: the row, and then the models, which may fail.
unfoldable pub retire_node : String → Method Bool
unfolding execute
retire_node hash = do
  found ← update_nodes hash retired
  catch (write (evict_where (of_node hash))) (pure tt)
  pure found

unfoldable pub deregister_node : String → Method Bool
deregister_node hash = catch (accumulate_departing hash >> retire_node hash) (pure false)
