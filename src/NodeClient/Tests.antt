-- ===== src/NodeClient/Tests.antt =====
-- Runs of a node's client, and the theorems at them.
use llama_net.Prelude.{ℕ, ◌≡◌, refl, true, false, none, some, List, [], ◌∷◌, arith}
use llama_net.Prelude.Text.{codes}
use llama_net.NodeClient.State.{
  Peer, GatewayClient, detect_tunnel_url, new_client, accepted, publish, joined, heartbeat,
  unpublish, updated, list_models,
}
use llama_net.NodeClient.Register.{take_reply, register, unregister}
use llama_net.NodeClient.Heartbeat.{
  Tick, Beating, turn, Happening, tick, leave, notify, refresh, node_updated, run, happen,
}
use llama_net.NodeClient.Peers.{select_node}
use llama_net.NodeClient.Rejected.{asked_elsewhere, turned_away-silent, turn-registers}

abbrev client : GatewayClient
unfolding new_client
client = new_client "n1" "http://t" ""

abbrev refused : GatewayClient
unfolding new_client
refused = record client { running = true; quality_rejected = true; rejection_reason = "no GPU" }

abbrev at_second : ℕ → Tick
at_second n = record {
  now = n;
  woken_url = "";
  first_url = "";
  fresh_url = "";
  reply = accepted "lnn_0";
}

abbrev beating : GatewayClient → Beating
beating c = record { client = c; last = 100 }

abbrev rejected_run : List Happening
rejected_run =
    tick (at_second 130)
    ∷ notify node_updated
    ∷ tick (at_second 160)
    ∷ refresh none
    ∷ leave true true true
    ∷ []

turned_away-silent_example : (run rejected_run (beating refused)).1 ≡ asked_elsewhere rejected_run
unfolding new_client client refused
turned_away-silent_example =
    turned_away-silent rejected_run (beating refused) (refl, refl) (omega arith)

two_requests : asked_elsewhere rejected_run ≡ updated ∷ list_models ∷ []
unfolding asked_elsewhere
two_requests = refl

-- After a gap of more than 60 seconds the node that was turned away publishes itself again.
woken_publishes : (run (tick (at_second 170) ∷ []) (beating refused)).1 ≡ publish ∷ joined ∷ []
unfolding run happen turn register take_reply new_client client refused
woken_publishes = refl

turn-registers_example : (turn (at_second 130) (beating client)).0.client.registered ≡ true
unfolding new_client client
turn-registers_example = turn-registers (at_second 130) (beating client) "lnn_0" refl refl refl

first_turn : (turn (at_second 130) (beating client)).1 ≡ publish ∷ joined ∷ heartbeat ∷ []
unfolding turn register take_reply new_client client
first_turn = refl

two_attempts :
    (unregister false true true (record client { registered = true })).1
    ≡ unpublish ∷ unpublish ∷ []
unfolding unregister new_client client
two_attempts = refl

abbrev peer_list : List Peer
peer_list =
    record { node_id = "n1"; model = "llama"; url = "http://a"; load = 1 }
    ∷ record { node_id = "n2"; model = "llama"; url = "http://b"; load = 5 }
    ∷ record { node_id = "n3"; model = "qwen"; url = "http://c"; load = 3 }
    ∷ []

-- Never the node itself, and the least loaded of those that serve the model.
other_selected :
    (select_node (λ s. s) none "llama" "load_balanced" 0 (record client { peers = peer_list })).0
    ≡ some (record { node_id = "n2"; model = "llama"; url = "http://b"; load = 5 })
unfolding select_node codes new_client client
other_selected = refl

url_from_file : detect_tunnel_url "" (some " https://x.example/ ") ≡ "https://x.example"
unfolding detect_tunnel_url
url_from_file = refl
