-- ===== src/NodeClient/Heartbeat.antt =====
-- `heartbeat_loop` of inference_node/gateway_client.py: one turn of it, and the loop over what happens.
use llama_net.Prelude.{
  ℕ, ◌+◌, Bool, false, not, ◌&&◌, Option, List, [], ◌∷◌, ◌++◌, String, str_eq, ltb, if◌then◌else◌,
}
use llama_net.NodeClient.State.{
  GatewayClient, is_blank, Reply, Sent, joined, updated, left, heartbeat, list_models,
}
use llama_net.NodeClient.Peers.{ModelInfo, refresh_peers}
use llama_net.NodeClient.Register.{register, unregister}

-- What one turn reads: the clock, the URL that each of its detections finds, and the answer to a
-- publication.
pub record Tick : Type 0 where
  pub now : ℕ
  pub woken_url : String
  pub first_url : String
  pub fresh_url : String
  pub reply : Reply

-- A client with the time of the last turn.
pub record Beating : Type 0 where
  pub client : GatewayClient
  pub last : ℕ

abbrev pub sleep_gap : ℕ
sleep_gap = 60

abbrev pub with_url : String → GatewayClient → GatewayClient
with_url url c = if is_blank url then c else record c { own_url = url; tunnel_url = url }

-- `await self.register()`, and the event if it is registered then.
unfoldable pub register_and_join : Reply → GatewayClient → GatewayClient × List Sent
unfolding register
register_and_join reply c =
    let r = register reply c in (r.0, if r.1 then r.2 ++ joined ∷ [] else r.2)

-- After a gap: the client registers anew.
unfoldable pub wake : Tick → GatewayClient → GatewayClient × List Sent
unfolding register_and_join
wake t c = register_and_join t.reply (record (with_url t.woken_url c) { registered = false })

-- The URL, if there was none at the start.
abbrev pub find_url : Tick → GatewayClient → GatewayClient
find_url t c = if is_blank c.own_url then with_url t.first_url c else c

-- `if self.own_url and not self.registered`. The event is sent if the client is registered then.
unfoldable pub try_register : Tick → GatewayClient → GatewayClient × List Sent
unfolding register
try_register t c =
    if not (is_blank c.own_url) && not c.registered
    then (if c.quality_rejected
        then (c, [])
        else (let r = register t.reply c in
            (r.0, if (r.0).registered then r.2 ++ joined ∷ [] else r.2)))
    else (c, [])

-- `if self.registered`: the heartbeat, after an event if the URL has changed.
unfoldable pub send_heartbeat : Tick → GatewayClient → GatewayClient × List Sent
send_heartbeat t c =
    if c.registered
    then (if not (is_blank t.fresh_url) && not (str_eq t.fresh_url c.own_url)
        then (with_url t.fresh_url c, updated ∷ heartbeat ∷ [])
        else (c, heartbeat ∷ []))
    else (c, [])

unfoldable pub normal_turn : Tick → GatewayClient → GatewayClient × List Sent
unfolding try_register send_heartbeat
normal_turn t c =
    let tried = try_register t (find_url t c) in
    let sent = send_heartbeat t tried.0 in (sent.0, tried.1 ++ sent.1)

-- One turn of the loop.
unfoldable pub turn : Tick → Beating → Beating × List Sent
unfolding wake normal_turn
turn t b =
    let done =
      if ltb (b.last + sleep_gap) t.now && ltb 0 b.last
      then wake t b.client
      else normal_turn t b.client in
    (record { client = done.0; last = t.now }, done.1)

-- The events that the node's server sends through its client, rejected or not.
pub data Event : Type 0 where
  node_joined node_updated node_left : Event

abbrev pub send_event : Event → Sent
send_event node_joined = joined
send_event node_updated = updated
send_event node_left = left

-- What happens to a client: a turn of the loop, which is made only while it runs; its departure; an
-- event; or a refresh of its peers, with the answer.
pub data Happening : Type 0 where
  tick : Tick → Happening
  leave : Bool → Bool → Bool → Happening
  notify : Event → Happening
  refresh : Option (List ModelInfo) → Happening

unfoldable pub happen : Happening → Beating → Beating × List Sent
unfolding turn unregister refresh_peers
happen (tick t) b = if b.client.running then turn t b else (b, [])
happen (leave first second third) b =
    let gone = unregister first second third b.client in (record b { client = gone.0 }, gone.1)
happen (notify e) b = (b, send_event e ∷ [])
happen (refresh answer) b = (record b { client = refresh_peers answer b.client }, list_models ∷ [])

unfoldable pub run : List Happening → Beating → Beating × List Sent
run [] b = (b, [])
run (h ∷ hs) b = let step = happen h b in let rest = run hs step.0 in (rest.0, step.1 ++ rest.1)
