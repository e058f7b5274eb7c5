-- ===== src/Gateway/Peers.antt =====
-- `handle_peer_notification` of gateway/server.py.
use llama_net.Prelude.{
  ℕ, ◌+◌, Bool, true, false, not, ◌||◌, Option, none, some, List, [], ◌∷◌, String, str_eq, ltb,
  if◌then◌else◌, length,
}
use llama_net.Prelude.Text.{codes}
use llama_net.Slug.{model_name_to_slug}
use llama_net.RateLimit.Limiter.{Request, pass, deny}
use llama_net.RateLimit.Limiter
use llama_net.RateLimit.Check.{check_rate_limit}
use llama_net.Validate.Nodes.{validate_node_url, is_safe}
use llama_net.Database.State.{Manager}
use llama_net.Database.Calls.{
  Outcome, returned, raised, Schedule, Method, pure, ◌>>=◌, ◌>>◌, execute, select,
}
use llama_net.Database.Nodes.{Metrics}
use llama_net.Database.Register.{Registration, register_node}
use llama_net.Gateway.Events.{Event, broadcast}
use llama_net.Gateway.State.{World, Gateway}
use llama_net.Gateway.Publication.{system_user_id}
use llama_net.Gateway.Beat.{is_known_active}

-- A peer of the list; a text that is missing is empty.
pub record Peer : Type 0 where
  pub node_id : String
  pub url : String
  pub model : String
  pub ip : String
  pub port : ℕ
  pub metrics : Metrics

abbrev pub of_peer : World → Peer → Registration
of_peer w p = record {
  user_id = system_user_id;
  node_hash = w.hash p.node_id;
  model_name = codes p.model;
  model_slug = model_name_to_slug w.lower (codes p.model);
  url = p.url;
  ip = p.ip;
  port = p.port;
  gpu_info = "";
  metrics = p.metrics;
  ctx_length = 0;
  models_list = [];
}

-- Whether a peer is looked up at all: its URL is safe, and it has a URL and an id.
abbrev pub is_usable : World → Peer → Bool
is_usable w p =
    if is_safe (validate_node_url w.library p.url)
    then not (str_eq p.url "" || str_eq p.node_id "")
    else false

-- One turn of the loop: whether the peer is a new one.
unfoldable pub notice : World → Peer → Method Bool
unfolding execute is_known_active register_node model_name_to_slug codes
notice w p = do
  known ← select (λ m. is_known_active (w.hash p.node_id) m.nodes)
  (if known then pure false else (register_node w.lower w.now (of_peer w p) >> pure true))

abbrev joined : World → String → Peer → Event
joined w notifier p = record {
  kind = "node_joined";
  node_hash = w.hash p.node_id;
  detail = codes notifier;
}

-- The answer: an error with its status, or the number of new peers.
pub data Notified : Type 0 where
  refused : ℕ → Notified
  new_peers : ℕ → Notified

abbrev pub NotifiedWith : Type 0
NotifiedWith = Notified × Gateway × Schedule

abbrev pub after_notice :
    World
    → String
    → Peer
    → ℕ
    → Gateway
    → Outcome Bool × Manager × Schedule
    → (ℕ → Gateway → Schedule → NotifiedWith)
    → NotifiedWith
after_notice w notifier p count g (raised, m, s) rest = (refused 500, record g { manager = m }, s)
after_notice w notifier p count g (returned false, m, s) rest =
    rest count (record g { manager = m }) s
after_notice w notifier p count g (returned true, m, s) rest =
    rest (count + 1)
      (record g { manager = m; connections = broadcast (joined w notifier p) g.connections }) s

-- The loop, with the count so far. An exception leaves it.
unfoldable pub notice_all : World → String → List Peer → ℕ → Gateway → Schedule → NotifiedWith
notice_all w notifier [] count g s = (new_peers count, g, s)
notice_all w notifier (p ∷ peers) count g s =
    let rest = notice_all w notifier peers in
    if is_usable w p
    then after_notice w notifier p count g (notice w p g.manager s) rest
    else rest count g s

abbrev pub behind_limit : Limiter.Outcome → Gateway → Schedule → NotifiedWith → NotifiedWith
behind_limit pass g s rest = rest
behind_limit (deny t wait) g s rest = (refused 429, g, s)
behind_limit Limiter.raised g s rest = (refused 500, g, s)

-- The id of the node that notifies, and the peers; a body that is no JSON object is none.
abbrev pub Notification : Type 0
Notification = Option (String × List Peer)

abbrev pub notified : World → Notification → Gateway → Schedule → NotifiedWith
notified w none g s = (refused 500, g, s)
notified w (some (notifier, peers)) g s =
    if ltb 50 (length peers) then (refused 400, g, s) else notice_all w notifier peers 0 g s

unfoldable pub handle_peer_notification :
    World → Request → (ℕ → ℕ) → Notification → Gateway → Schedule → NotifiedWith
unfolding notice_all
handle_peer_notification w r clock body g s =
    let checked = check_rate_limit r clock g.limiter in
    let limited = record g { limiter = checked.1 } in
    behind_limit checked.0 limited s (notified w body limited s)
