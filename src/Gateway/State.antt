-- ===== src/Gateway/State.antt =====
-- What the handlers of gateway/server.py share, and the body of a publication. The fields of a body are
-- texts, numbers and objects where the handlers read them so; what a library call or the environment gives
-- is in the World of a request.
use llama_net.Prelude.{ℕ, Bool, Option, none, some, List, String}
use llama_net.Prelude.Int.{ℤ}
use llama_net.Json.{str, int, Fields, end, field}
use llama_net.RateLimit.Limiter.{RateLimiter}
use llama_net.Validate.Nodes.{Library}
use llama_net.QualityGate.Gate.{Gate}
use llama_net.NodeAuth.Tokens.{NodeTokens}
use llama_net.Database.State.{Manager}
use llama_net.Database.Models.{Reported}
use llama_net.Database.Nodes.{Metrics}
use llama_net.Router.State.{ModelRouter}
use llama_net.Gateway.Events.{Connections}

-- A model of the list that a node publishes: a name alone, or an object.
pub data Announced : Type 0 where
  by_name : List ℕ → Announced
  by_object : Reported → Announced

-- The body of a publication. A field that is missing is none.
pub record Publication : Type 0 where
  pub node_id : Option String
  pub model : Option String
  pub url : Option String
  pub tunnel_url : Option String
  pub ip : Option String
  pub port : Option ℤ
  pub gpu : Option String
  pub platform : Option String
  pub ctx_length : Option ℕ
  pub models : Option (List Announced)
  pub metrics : Option Metrics
  pub probe_metrics : Option Fields

abbrev pub text_or : String → Option String → String
text_or d none = d
text_or d (some s) = s

abbrev pub add_text : String → Option String → Fields → Fields
add_text k none f = f
add_text k (some s) f = field k (str s) f

abbrev pub add_port : Option ℤ → Fields → Fields
add_port none f = f
add_port (some n) f = field "port" (int n) f

-- The fields that the request validator reads.
abbrev pub body_fields : Publication → Fields
body_fields p = add_text "node_id" p.node_id (
    add_text "model" p.model
      (add_text "url" p.url (add_text "tunnel_url" p.tunnel_url (add_port p.port end))))

-- What the handlers read from outside. `hash` is the first twelve digits of the SHA-256.
pub record World : Type 0 where
  pub hash : String → String
  pub lower : List ℕ → List ℕ
  pub library : Library
  pub gate : Gate
  pub now : ℕ
  pub hex : List ℕ
  pub token_write_fails : Bool

-- The gateway's state that the handlers share.
pub record Gateway : Type 0 where
  pub limiter : RateLimiter
  pub manager : Manager
  pub tokens : NodeTokens
  pub connections : Connections
  pub router : ModelRouter
