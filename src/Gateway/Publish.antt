-- ===== src/Gateway/Publish.antt =====
-- `publish_node` of gateway/server.py.
use llama_net.Prelude.{ℕ, Option, none, some, List, String, str_eq, if◌then◌else◌}
use llama_net.Prelude.Int.{ℤ}
use llama_net.Prelude.Text.{codes}
use llama_net.RateLimit.Limiter.{Request, RateLimiter, LimitType, pass, deny}
use llama_net.RateLimit.Limiter
use llama_net.RateLimit.Check.{check_node_publish}
use llama_net.Validate.Checks.{Checked, passed, invalid, type_error}
use llama_net.Validate.Requests.{validate_request_body_size}
use llama_net.Validate.Nodes.{validate_node_registration}
use llama_net.QualityGate.Hardware.{HardwareVerdict, evaluate_hardware}
use llama_net.NodeAuth.Tokens.{generate_token}
use llama_net.Database.State.{Manager}
use llama_net.Database.Calls.{Outcome, returned, raised, Schedule}
use llama_net.Gateway.Events.{Event, broadcast}
use llama_net.Gateway.State.{Publication, text_or, body_fields, World, Gateway}
use llama_net.Gateway.Publication.{hardware_of, hardware_admits, Probed, publish_rows, kept, weak}

-- An error with its status and its reason, or the token of the node.
pub data Answer : Type 0 where
  refused : ℕ → String → Answer
  token : List ℕ → Answer

-- The event of a publication: `existing` is selected without its status, so every node is new.
abbrev pub joined_event : World → Publication → String → Event
joined_event w p id = record {
  kind = "node_joined";
  node_hash = w.hash id;
  detail = codes (text_or "unknown" p.model);
}

abbrev pub finish :
    World
    → Publication
    → String
    → Gateway
    → Outcome Probed × Manager × Schedule
    → Answer × Gateway × Schedule
finish w p id g (raised, m, s) = (refused 500 "exception", record g { manager = m }, s)
finish w p id g (returned weak, m, s) = (refused 403 "probe", record g { manager = m }, s)
finish w p id g (returned kept, m, s) =
    let issued = generate_token w.token_write_fails w.hex (w.hash id) g.tokens in
    (
      token issued.0,
      record g {
        manager = m;
        tokens = issued.1;
        connections = broadcast (joined_event w p id) g.connections;
      },
      s,
    )

abbrev pub Answered : Type 0
Answered = Answer × Gateway × Schedule

-- Behind the quality gate's check of the hardware.
abbrev pub behind_hardware : HardwareVerdict → Gateway → Schedule → Answered → Answered
behind_hardware verdict g s rest =
    if hardware_admits verdict then rest else (refused 403 "hardware", g, s)

-- Behind the check of the registration: a ValidationError ends in the `except` of the handler, as any
-- other exception does.
abbrev pub behind_validation : Checked → Gateway → Schedule → Answered → Answered
behind_validation passed g s rest = rest
behind_validation (invalid status reason) g s rest = (refused 500 "exception", g, s)
behind_validation type_error g s rest = (refused 500 "exception", g, s)

-- The body of the `try`.
unfoldable pub publish_body : World → Publication → Gateway → Schedule → Answered
publish_body w p g s =
    let id = text_or "" p.node_id in
    if str_eq id ""
    then (refused 400 "node_id required", g, s)
    else behind_validation (validate_node_registration w.library (body_fields p)) g s (
        behind_hardware (evaluate_hardware w.lower w.gate (hardware_of p)) g s
          (finish w p id g (publish_rows w p id g.manager s)))

-- Behind the check of the body's length; a body is none if it is no JSON.
abbrev pub behind_size : Checked → Gateway → Schedule → Answered → Answered
behind_size passed g s rest = rest
behind_size (invalid status reason) g s rest = (refused status reason, g, s)
behind_size type_error g s rest = (refused 500 "exception", g, s)

abbrev pub parsed : World → Option Publication → Gateway → Schedule → Answered
parsed w none g s = (refused 500 "exception", g, s)
parsed w (some p) g s = publish_body w p g s

abbrev pub behind_limit : Limiter.Outcome → Gateway → Schedule → Answered → Answered
behind_limit pass g s rest = rest
behind_limit (deny t wait) g s rest = (refused 429 "rate_limit_error", g, s)
behind_limit Limiter.raised g s rest = (refused 500 "exception", g, s)

unfoldable pub publish_node :
    World → Request → (ℕ → ℕ) → Option ℤ → Option Publication → Gateway → Schedule → Answered
publish_node w r clock size p g s =
    let checked = check_node_publish r clock g.limiter in
    let limited = record g { limiter = checked.1 } in
    behind_limit checked.0 limited s
      (behind_size (validate_request_body_size size) limited s (parsed w p limited s))
