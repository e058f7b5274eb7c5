-- ===== src/Gateway/Steps.antt =====
-- Runs of heartbeats, peer notifications, departures and publications of gateway/server.py.
use llama_net.Prelude.{ℕ, Option, some}
use llama_net.Prelude.Int.{ℤ}
use llama_net.RateLimit.Limiter.{Request}
use llama_net.Database.Calls.{Schedule}
use llama_net.Gateway.State.{World, Gateway, Publication}
use llama_net.Gateway.Publish.{publish_node}
use llama_net.Gateway.Departures.{Departure, unpublish_node}
use llama_net.Gateway.Beat.{Heartbeat}
use llama_net.Gateway.Heartbeat.{node_heartbeat}
use llama_net.Gateway.Peers.{Notification, handle_peer_notification}
use llama_net.Gateway.Registered.{OneUrl}
use llama_net.Gateway.Vetted.{Vetted}
use llama_net.Gateway.Urls.{node_heartbeat-Vetted, notification-Vetted}
use llama_net.Gateway.Joining.{publish_node-Vetted, unpublish_node-Vetted}

-- One request to `node_heartbeat`, `handle_peer_notification`, `unpublish_node` or `publish_node`, with
-- the calls of the database that raise during it. A publication is one that names a single URL. Node
-- events, registrations and deletions by a user, which change the table too, have no step.
pub data TableStep (w : World) : Gateway → Gateway → Type 0 where
  heartbeat :
      {g : Gateway} (r : Request) (clock : ℕ → ℕ) (b : Option Heartbeat) (s : Schedule)
      → TableStep w g (node_heartbeat w r clock b g s).1
  notification :
      {g : Gateway} (r : Request) (clock : ℕ → ℕ) (body : Notification) (s : Schedule)
      → TableStep w g (handle_peer_notification w r clock body g s).1
  departure :
      {g : Gateway} (d : Option Departure) (s : Schedule) → TableStep w g (unpublish_node w d g s).1
  publication :
      {g : Gateway} (r : Request) (clock : ℕ → ℕ) (size : Option ℤ) (p : Publication) (s : Schedule)
      → OneUrl p
      → TableStep w g (publish_node w r clock size (some p) g s).1

pub data TableReach (w : World) (g : Gateway) : Gateway → Type 0 where
  here : TableReach w g g
  next : {g' g'' : Gateway} → TableReach w g g' → TableStep w g' g'' → TableReach w g g''

step-Vetted :
    (w : World) {g g' : Gateway} → TableStep w g g' → Vetted w.library g → Vetted w.library g'
step-Vetted w (heartbeat r clock b s) h = node_heartbeat-Vetted w r clock b _ s h
step-Vetted w (notification r clock body s) h = notification-Vetted w r clock body _ s h
step-Vetted w (departure d s) h = unpublish_node-Vetted w d _ s h
step-Vetted w (publication r clock size p s u) h = publish_node-Vetted w r clock size p _ s u h

-- From a table whose URLs the validator finds safe, heartbeats, peer notifications, departures and
-- publications, in any order and whichever calls of the database raise, lead only to tables whose URLs
-- it finds safe, if no publication names one URL as "url" and another as "tunnel_url".
pub urls-Vetted :
    (w : World) (g g' : Gateway) → TableReach w g g' → Vetted w.library g → Vetted w.library g'
urls-Vetted w g _ here h = h
urls-Vetted w g g' (next reach step) h = step-Vetted w step (urls-Vetted w g _ reach h)
