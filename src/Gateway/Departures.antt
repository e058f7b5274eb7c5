-- ===== src/Gateway/Departures.antt =====
-- `unpublish_node` of gateway/server.py.
use llama_net.Prelude.{Bool, true, false, Option, none, some, String, str_eq, if◌then◌else◌}
use llama_net.Prelude.Text.{codes}
use llama_net.NodeAuth.Tokens.{revoke_token}
use llama_net.Database.State.{Manager}
use llama_net.Database.Calls.{Outcome, returned, raised, Schedule}
use llama_net.Database.Nodes.{deregister_node}
use llama_net.Gateway.Events.{Event, broadcast}
use llama_net.Gateway.State.{text_or, World, Gateway}

-- The body of a departure.
pub record Departure : Type 0 where
  pub node_id : Option String
  pub model : Option String

abbrev pub left_event : World → Departure → String → Event
left_event w d id = record {
  kind = "node_left";
  node_hash = w.hash id;
  detail = codes (text_or "unknown" d.model);
}

abbrev pub left :
    World
    → Departure
    → String
    → Gateway
    → Outcome Bool × Manager × Schedule
    → Bool × Gateway × Schedule
left w d id g (raised, m, s) = (false, record g { manager = m }, s)
left w d id g (returned found, m, s) =
    (true, record g { manager = m; connections = broadcast (left_event w d id) g.connections }, s)

-- The flag says that the answer is a success; what `deregister_node` answers is not looked at.
unfoldable pub unpublish_body : World → Departure → Gateway → Schedule → Bool × Gateway × Schedule
unfolding revoke_token deregister_node broadcast codes
unpublish_body w d g s =
    let id = text_or "" d.node_id in
    if str_eq id ""
    then (false, g, s)
    else (let revoked = record g {
      tokens = revoke_token w.token_write_fails (w.hash id) g.tokens;
    } in
        left w d id revoked (deregister_node (w.hash id) g.manager s))

unfoldable pub unpublish_node :
    World → Option Departure → Gateway → Schedule → Bool × Gateway × Schedule
unfolding unpublish_body
unpublish_node w none g s = (false, g, s)
unpublish_node w (some d) g s = unpublish_body w d g s
