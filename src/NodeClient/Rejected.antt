-- ===== src/NodeClient/Rejected.antt =====
-- A node that the hardware gate has turned away, and a node that can register.
use llama_net.Prelude.{
  ℕ, ◌+◌, ◌≤◌, ◌≡◌, refl, sym, ap, subst, none, some, Bool, true, false, List, [], ◌∷◌, length,
  String, arith, Bool-cases, inl, inr,
}
use llama_net.NodeClient.State.{GatewayClient, is_blank, accepted, Sent, list_models}
use llama_net.NodeClient.Peers.{refresh_peers}
use llama_net.NodeClient.Register.{take_reply, register, attempt, unregister}
use llama_net.NodeClient.Heartbeat.{
  Tick, Beating, sleep_gap, wake, normal_turn, turn, Happening, tick, leave, notify, refresh,
  send_event, happen, run,
}

abbrev pub IsTurnedAway : GatewayClient → Type 0
IsTurnedAway c = (c.quality_rejected ≡ true) × (c.registered ≡ false)

-- No turn comes more than the gap after the one before it.
abbrev pub IsSteady : ℕ → List Happening → Type 0
IsSteady last [] = Unit
IsSteady last (tick t ∷ hs) = (t.now ≤ last + sleep_gap) × IsSteady t.now hs
IsSteady last (_ ∷ hs) = IsSteady last hs

-- The events and the refreshes among what happens, as requests.
unfoldable pub asked_elsewhere : List Happening → List Sent
asked_elsewhere [] = []
asked_elsewhere (notify e ∷ hs) = send_event e ∷ asked_elsewhere hs
asked_elsewhere (refresh answer ∷ hs) = list_models ∷ asked_elsewhere hs
asked_elsewhere (_ ∷ hs) = asked_elsewhere hs

normal_turn-quiet :
    (t : Tick) (c : GatewayClient)
    → IsTurnedAway c
    → IsTurnedAway (normal_turn t c).0 × ((normal_turn t c).1 ≡ [])
unfolding normal_turn
normal_turn-quiet t c h = ground arith

turn-quiet :
    (t : Tick) (b : Beating)
    → t.now ≤ b.last + sleep_gap
    → IsTurnedAway b.client
    → IsTurnedAway (turn t b).0.client × ((turn t b).1 ≡ [])
unfolding turn
turn-quiet t b g h = ground (arith, normal_turn-quiet t b.client h)

turn-last : (t : Tick) (b : Beating) → (turn t b).0.last ≡ t.now
unfolding turn
turn-last t b = refl

-- A client that neither runs nor is registered sends nothing of its own any more.
stopped-quiet :
    (hs : List Happening) (b : Beating)
    → b.client.running ≡ false
    → b.client.registered ≡ false
    → (run hs b).1 ≡ asked_elsewhere hs
unfolding run happen unregister asked_elsewhere refresh_peers
stopped-quiet [] b r g = refl
stopped-quiet (tick t ∷ hs) b r g = ground (arith, stopped-quiet hs b r g)
stopped-quiet (leave first second third ∷ hs) b r g =
    ground
      (arith, stopped-quiet hs (record b { client = record b.client { running = false } }) refl g)
stopped-quiet (notify e ∷ hs) b r g = ap (λ l. send_event e ∷ l) (stopped-quiet hs b r g)
stopped-quiet (refresh none ∷ hs) b r g = ap (λ l. list_models ∷ l) (stopped-quiet hs b r g)
stopped-quiet (refresh (some ms) ∷ hs) b r g =
    ap (λ l. list_models ∷ l)
      (stopped-quiet hs (record b { client = refresh_peers (some ms) b.client }) r g)

-- The client of a node that the hardware gate has turned away, and that is not registered, sends the
-- gateway nothing of its own any more: no publication, no heartbeat and no departure. In a run of turns
-- of the heartbeat loop, departures, events and refreshes of the peers, in any order and whatever the
-- gateway would answer, the requests are just those of the events and the refreshes, in their order,
-- as long as no turn of the loop comes more than 60 seconds after the one before it.
pub turned_away-silent :
    (hs : List Happening) (b : Beating)
    → IsTurnedAway b.client
    → IsSteady b.last hs
    → (run hs b).1 ≡ asked_elsewhere hs
unfolding run happen unregister asked_elsewhere refresh_peers
turned_away-silent [] b h s = refl
turned_away-silent (tick t ∷ hs) b h s = elim (Bool-cases b.client.running) [
  | inl r ↦
      let q : IsTurnedAway (turn t b).0.client × ((turn t b).1 ≡ []) = turn-quiet t b s.0 h in
      let rest : (run hs (turn t b).0).1 ≡ asked_elsewhere hs =
        turned_away-silent hs (turn t b).0 q.0
          (subst (λ n. IsSteady n hs) (sym (turn-last t b)) s.1) in
      ground (arith, r, q.1, rest)
  | inr r ↦ ground (arith, r, stopped-quiet hs b r h.1)
]
turned_away-silent (leave first second third ∷ hs) b h s =
    ground
      (arith, stopped-quiet hs (record b { client = record b.client { running = false } }) refl h.1)
turned_away-silent (notify e ∷ hs) b h s = ap (λ l. send_event e ∷ l) (turned_away-silent hs b h s)
turned_away-silent (refresh none ∷ hs) b h s =
    ap (λ l. list_models ∷ l) (turned_away-silent hs b h s)
turned_away-silent (refresh (some ms) ∷ hs) b h s =
    ap (λ l. list_models ∷ l)
      (turned_away-silent hs (record b { client = refresh_peers (some ms) b.client }) h s)

-- `unregister` makes at most three requests; and whatever the answers, the client neither runs nor is
-- registered after it, and a later departure sends nothing.
pub unregister-ends :
    (first second third again again' again'' : Bool) (c : GatewayClient)
    → let gone = unregister first second third c in
      (gone.0.running ≡ false)
      × (gone.0.registered ≡ false)
      × (length gone.1 ≤ 3)
      × ((unregister again again' again'' gone.0).1 ≡ [])
unfolding unregister attempt
unregister-ends first second third again again' again'' c = ground arith

normal_turn-registers :
    (t : Tick) (c : GatewayClient) (token : String)
    → t.reply ≡ accepted token
    → is_blank c.own_url ≡ false
    → c.quality_rejected ≡ false
    → (normal_turn t c).0.registered ≡ true
unfolding normal_turn register take_reply
normal_turn-registers t c token e u q = ground arith

wake-registers :
    (t : Tick) (c : GatewayClient) (token : String)
    → t.reply ≡ accepted token
    → is_blank c.own_url ≡ false
    → (wake t c).0.registered ≡ true
unfolding wake register take_reply
wake-registers t c token e u = ground arith

-- A turn of the loop that the gateway would accept leaves the node registered, if it has a URL and has
-- not been turned away, whether it was registered before or not and however long ago the last turn was.
pub turn-registers :
    (t : Tick) (b : Beating) (token : String)
    → t.reply ≡ accepted token
    → is_blank b.client.own_url ≡ false
    → b.client.quality_rejected ≡ false
    → (turn t b).0.client.registered ≡ true
unfolding turn
turn-registers t b token e u q =
    ground
      (arith, normal_turn-registers t b.client token e u q, wake-registers t b.client token e u)
