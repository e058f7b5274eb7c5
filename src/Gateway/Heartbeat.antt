-- ===== src/Gateway/Heartbeat.antt =====
-- `node_heartbeat` of gateway/server.py.
use llama_net.Prelude.{
  ℕ, Bool, true, false, ◌&&◌, Option, none, some, List, [], ◌∷◌, String, if◌then◌else◌, keep,
}
use llama_net.Json.{Value}
use llama_net.Json
use llama_net.Prelude.Codes.{is_empty}
use llama_net.Prelude.Text.{codes}
use llama_net.Slug.{model_name_to_slug}
use llama_net.RateLimit.Limiter.{Request, RateLimiter, pass, deny}
use llama_net.RateLimit.Limiter
use llama_net.RateLimit.Check.{check_rate_limit}
use llama_net.Validate.Nodes.{validate_node_url, is_safe}
use llama_net.Database.State.{Gauges, ModelRow, Manager}
use llama_net.Database.Calls.{
  Outcome, returned, raised, Schedule, Method, pure, ◌>>=◌, ◌>>◌, catch, execute, select,
}
use llama_net.Database.Models.{
  Listed, described, of_node, upsert_node_models, evict_stale_node_models,
}
use llama_net.Database.Nodes.{update_node_metrics}
use llama_net.Gateway.Events.{broadcast}
use llama_net.Gateway.State.{World, Gateway, text_or}
use llama_net.Gateway.Beat.{Heartbeat, hash_of, pool_of, metrics_of, is_known_active, move_node}
use llama_net.Gateway.Changes.{raise, should_broadcast}

-- The slugs of the pool's models that have a name.
abbrev pub pool_slugs : (List ℕ → List ℕ) → List Listed → List (List ℕ)
pool_slugs lower [] = []
pool_slugs lower (described r ∷ ls) =
    if is_empty r.name
    then pool_slugs lower ls
    else model_name_to_slug lower r.name ∷ pool_slugs lower ls
pool_slugs lower (_ ∷ ls) = pool_slugs lower ls

unfoldable pub store_pool : World → String → Option String → List Listed → Method (Unit {0})
unfolding model_name_to_slug upsert_node_models evict_stale_node_models codes
store_pool w hash model [] = pure tt
store_pool w hash model (l ∷ ls) = do
  upsert_node_models w.lower hash (l ∷ ls) (model_name_to_slug w.lower (codes (text_or "" model)))
  evict_stale_node_models hash (pool_slugs w.lower (l ∷ ls))

abbrev pub active_name : String → List ℕ → List ModelRow → List ℕ
active_name hash fallback rows = elim (keep (λ r. of_node hash r && r.is_active) rows) [
  | [] ↦ fallback
  | r ∷ more ↦ r.model_name
]

-- The name of the model that the event names; none is a node that is not active, or a failed call.
unfoldable pub told_name : String → List ℕ → Bool → Method (Option (List ℕ))
unfolding execute is_known_active
told_name hash fallback false = pure none
told_name hash fallback true =
    catch
      (do
        known ← select (λ m. is_known_active hash m.nodes)
        name ← catch (select (λ m. active_name hash fallback m.node_models)) (pure fallback)
        pure (if known then some name else none))
      (pure none)

-- A gauge that the log writes with digits behind the point: a null, or another value that is no number,
-- raises; what is missing counts as 0.
abbrev pub is_written : Option Value → Bool
is_written none = true
is_written (some v) = elim (Json.as_number v) [ none ↦ false | some x ↦ true ]

abbrev pub are_written : Gauges → Bool
are_written g = is_written g.load && is_written g.tps

-- What a heartbeat does to the database, with the event's model and the answer.
unfoldable pub heartbeat_rows : World → Heartbeat → String → Method (Option (List ℕ) × Bool)
unfolding move_node should_broadcast store_pool told_name update_node_metrics codes Json.as_number
heartbeat_rows w b hash = do
  move_node w.now hash b.url b.ip
  told ← should_broadcast hash (pool_of b) b.metrics.gauges
  store_pool w hash b.model (pool_of b)
  name ← told_name hash (codes (text_or "unknown" b.model)) told
  (if are_written b.metrics.gauges then pure tt else raise)
  known ← update_node_metrics w.lower w.now hash (metrics_of b)
  pure (name, known)

-- An error with its status and its reason, or whether the node is known.
pub data Beaten : Type 0 where
  refused : ℕ → String → Beaten
  success : Bool → Beaten

abbrev pub BeatenWith : Type 0
BeatenWith = Beaten × Gateway × Schedule

abbrev pub tell : String → Option (List ℕ) → Gateway → Gateway
tell hash none g = g
tell hash (some name) g = record g {
  connections =
      broadcast (record { kind = "node_updated"; node_hash = hash; detail = name }) g.connections;
}

abbrev pub beaten :
    String → Gateway → Outcome (Option (List ℕ) × Bool) × Manager × Schedule → BeatenWith
beaten hash g (raised, m, s) = (refused 500 "exception", record g { manager = m }, s)
beaten hash g (returned (name, known), m, s) =
    (success known, tell hash name (record g { manager = m }), s)

abbrev pub behind_limit : Limiter.Outcome → Gateway → Schedule → BeatenWith → BeatenWith
behind_limit pass g s rest = rest
behind_limit (deny t wait) g s rest = (refused 429 "rate_limit_error", g, s)
behind_limit Limiter.raised g s rest = (refused 500 "exception", g, s)

-- A URL that is empty is found safe.
abbrev pub behind_url : Bool → Gateway → Schedule → BeatenWith → BeatenWith
behind_url true g s rest = rest
behind_url false g s rest = (refused 400 "Invalid URL", g, s)

abbrev pub received : World → Option Heartbeat → Gateway → Schedule → BeatenWith
received w none g s = (refused 500 "exception", g, s)
received w (some b) g s =
    behind_url (is_safe (validate_node_url w.library b.url)) g s
      (beaten (hash_of w b) g (heartbeat_rows w b (hash_of w b) g.manager s))

unfoldable pub node_heartbeat :
    World → Request → (ℕ → ℕ) → Option Heartbeat → Gateway → Schedule → BeatenWith
unfolding heartbeat_rows broadcast
node_heartbeat w r clock b g s =
    let checked = check_rate_limit r clock g.limiter in
    let limited = record g { limiter = checked.1 } in
    behind_limit checked.0 limited s (received w b limited s)
