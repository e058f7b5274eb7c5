-- ===== src/NodeClient/Register.antt =====
-- `register` and `unregister` of inference_node/gateway_client.py. Each gives the client after it and the
-- requests sent.
use llama_net.Prelude.{Bool, true, false, some, List, [], ◌∷◌, str_eq, if◌then◌else◌}
use llama_net.NodeClient.State.{
  GatewayClient, is_blank, Reply, accepted, forbidden, unreadable, other_status, unanswered, Sent,
  publish, unpublish,
}

-- What the answer changes; the flag is the result of `register`.
unfoldable pub take_reply : Reply → GatewayClient → GatewayClient × Bool
take_reply (accepted token) c = (
  record c { registered = true; node_token = if is_blank token then c.node_token else some token },
  true,
)
take_reply (forbidden check reason) c = (
  if str_eq check "hardware"
      then record c { quality_rejected = true; rejection_reason = reason }
      else c,
  false,
)
take_reply unreadable c = (c, false)
take_reply other_status c = (c, false)
take_reply unanswered c = (c, false)

unfoldable pub register : Reply → GatewayClient → GatewayClient × Bool × List Sent
unfolding take_reply
register reply c =
    let started = record c { running = true } in
    if is_blank c.own_url
    then (started, false, [])
    else (let taken = take_reply reply started in (taken.0, taken.1, publish ∷ []))

-- The loop of `unregister`: the answers to the attempts left, each 200 or not. The attempts that are not
-- needed are not made.
unfoldable pub attempt : List Bool → List Sent
attempt [] = []
attempt (true ∷ replies) = unpublish ∷ []
attempt (false ∷ replies) = unpublish ∷ attempt replies

-- `for attempt in range(3)`: the answers to the three attempts.
unfoldable pub unregister : Bool → Bool → Bool → GatewayClient → GatewayClient × List Sent
unfolding attempt
unregister first second third c =
    let stopped = record c { running = false } in
    if c.registered
    then (record stopped { registered = false }, attempt (first ∷ second ∷ third ∷ []))
    else (stopped, [])
