-- ===== src/NodeClient/State.antt =====
-- `GatewayClient` of inference_node/gateway_client.py: its state, what the gateway answers, and the
-- requests that it sends. Times are in seconds.
use llama_net.Prelude.{
  ℕ, Bool, false, Option, none, some, List, [], String, str_eq, starts_with, if◌then◌else◌, not,
}
use llama_net.Prelude.Dict.{Dict}
use llama_net.Prelude.Text.{rstrip_slash, strip}

-- A node that the gateway lists, with the fields that selection reads. The load is in any fixed unit.
pub record Peer : Type 0 where
  pub node_id : String
  pub model : String
  pub url : String
  pub load : ℕ

pub record GatewayClient : Type 0 where
  pub node_id : String
  pub running : Bool
  pub registered : Bool
  pub own_url : String
  pub tunnel_url : String
  pub node_token : Option String
  pub quality_rejected : Bool
  pub rejection_reason : String
  pub peers : List Peer
  pub rr_index : Dict ℕ

abbrev pub is_blank : String → Bool
is_blank s = str_eq s ""

-- `_detect_tunnel_url`: the variable of the environment, or else the file, if there is one that can be
-- read.
unfoldable pub detect_tunnel_url : String → Option String → String
unfolding rstrip_slash strip
detect_tunnel_url env file = if not (is_blank env) then rstrip_slash env else elim file [
  | none ↦ ""
  | some text ↦ if starts_with (strip text) "http" then rstrip_slash (strip text) else ""
]

-- `__init__`: the URL that is given, or else the one detected.
unfoldable pub new_client : String → String → String → GatewayClient
new_client node_id given detected =
    let url = if is_blank given then detected else given in
    record {
      node_id = node_id;
      running = false;
      registered = false;
      own_url = url;
      tunnel_url = url;
      node_token = none;
      quality_rejected = false;
      rejection_reason = "";
      peers = [];
      rr_index = [];
    }

-- The answer to a publication: accepted, with a token or without; forbidden, with the check that failed
-- and its reason, or with a body that is no JSON object; another status; or no answer.
pub data Reply : Type 0 where
  accepted : String → Reply
  forbidden : String → String → Reply
  unreadable : Reply
  other_status : Reply
  unanswered : Reply

-- The requests that a client sends to the gateway.
pub data Sent : Type 0 where
  publish joined updated left heartbeat unpublish list_models : Sent
