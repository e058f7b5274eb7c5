-- ===== src/Gateway/Completions.antt =====
-- `_enforce_rate_limit`, `openai_chat_completions` and `openai_completions` of gateway/server.py. The two
-- handlers differ in the validator and in the path that the router forwards to.
use llama_net.Prelude.{ℕ, Option, none, some, List, [], ◌∷◌, String, leb, if◌then◌else◌}
use text.Mathlib.Text.{starts_with}
use llama_net.Prelude.Int.{ℤ, pos}
use llama_net.Json.{int, Fields}
use llama_net.RateLimit.Limiter.{Request, RateLimiter, pass, deny, auth_key}
use llama_net.RateLimit.Limiter
use llama_net.RateLimit.Check.{check_rate_limit}
use llama_net.Validate.Checks.{Checked, passed, invalid, type_error}
use llama_net.Validate.Requests.{
  validate_request_body_size, validate_chat_request, validate_completion_request,
}
use llama_net.Database.State.{Manager}
use llama_net.Database.Calls.{Outcome, returned, raised, Schedule, Method, pure, ◌>>◌}
use llama_net.Database.Keys.{get_token_usage, record_token_usage}
use llama_net.Database.Nodes.{deregister_node}
use llama_net.Router.State.{Response, Write, record_tokens, deregister, ModelRouter}
use llama_net.Router.State
use llama_net.Router.Route.{object, Endpoint, chat, completion, route}
use llama_net.Gateway.Auth.{Identities, Credentials, get_current_user}
use llama_net.Gateway.State.{Gateway}

-- What a handler of completions reads from outside. `routing` is what the router reads.
pub record Surroundings : Type 0 where
  pub identities : Identities
  pub routing : State.World
  pub today : String
  pub clock : ℕ → ℕ
  pub routing_clock : ℕ → ℕ

-- A request: its headers, where a length that is missing is none, and its body, which is none if it is
-- no JSON object.
pub record Call : Type 0 where
  pub request : Request
  pub session : String
  pub content_length : Option ℤ
  pub body : Option Fields

-- An error with its status and its reason; or what the router answers.
pub data Completed : Type 0 where
  refused : ℕ → String → Completed
  routed : Response → Completed

abbrev pub Served : Type 0
Served = Completed × Gateway × Schedule

abbrev pub credentials_of : Call → Credentials
credentials_of c = record { authorization = c.request.authorization; llamanet_session = c.session }

abbrev pub validate : Endpoint → Fields → Checked
validate chat body = validate_chat_request body
validate completion body = validate_completion_request body

abbrev pub behind_limit : Limiter.Outcome → Gateway → Schedule → Served → Served
behind_limit pass g s rest = rest
behind_limit (deny t wait) g s rest = (refused 429 "rate_limit_error", g, s)
behind_limit Limiter.raised g s rest = (refused 500 "exception", g, s)

-- A ValidationError leaves the handler, and is answered with its status.
abbrev pub behind_size : Checked → Gateway → Schedule → Served → Served
behind_size passed g s rest = rest
behind_size (invalid status reason) g s rest = (refused status reason, g, s)
behind_size type_error g s rest = (refused 500 "exception", g, s)

abbrev pub behind_user :
    Gateway
    → Outcome (Option String) × Manager × Schedule
    → (String → Gateway → Schedule → Served)
    → Served
behind_user g (returned (some user), m, s) rest = rest user (record g { manager = m }) s
behind_user g (returned none, m, s) rest =
    (refused 401 "API key required", record g { manager = m }, s)
behind_user g (raised, m, s) rest = (refused 500 "exception", record g { manager = m }, s)

abbrev pub behind_json : Option Fields → Gateway → Schedule → (Fields → Served) → Served
behind_json none g s rest = (refused 400 "Invalid JSON body", g, s)
behind_json (some body) g s rest = rest body

-- Behind the check of the body: another exception than a ValidationError is answered 400.
abbrev pub behind_body : Checked → Gateway → Schedule → Served → Served
behind_body passed g s rest = rest
behind_body (invalid status reason) g s rest = (refused status reason, g, s)
behind_body type_error g s rest = (refused 400 "Invalid JSON body", g, s)

-- The key whose budget is checked.
abbrev pub budget_key : Surroundings → Call → Option String
budget_key w c = elim (auth_key c.request) [
  | none ↦ none
  | some k ↦ if starts_with k "ln-" then some (w.identities.sha256 k) else none
]

abbrev pub within_budget :
    ℕ → Gateway → Outcome ℕ × Manager × Schedule → (Gateway → Schedule → Served) → Served
within_budget budget g (returned consumed, m, s) rest =
    if leb budget consumed
    then (refused 429 "token_budget_exceeded", record g { manager = m }, s)
    else rest (record g { manager = m }) s
within_budget budget g (raised, m, s) rest = (refused 500 "exception", record g { manager = m }, s)

abbrev pub behind_budget :
    Surroundings → Option String → Gateway → Schedule → (Gateway → Schedule → Served) → Served
behind_budget w none g s rest = rest g s
behind_budget w (some h) g s rest =
    within_budget w.routing.daily_token_budget g (get_token_usage h w.today g.manager s) rest

-- A write of the router. A count that is no whole number is refused by its column.
abbrev pub write_one : String → Write → Method (Unit {0})
write_one today (record_tokens h (int (pos n))) = record_token_usage h today n
write_one today (record_tokens h v) = pure tt
write_one today (deregister hash) = deregister_node hash >> pure tt

unfoldable pub write_all : String → List Write → Method (Unit {0})
unfolding record_token_usage deregister_node
write_all today [] = pure tt
write_all today (v ∷ vs) = write_one today v >> write_all today vs

abbrev pub stored : String → Gateway → Schedule → Response × ModelRouter × List Write → Served
stored today g s (r, router, writes) =
    let after = write_all today writes g.manager s in
    (routed r, record g { router = router; manager = after.1 }, after.2)

unfoldable pub served : Surroundings → Endpoint → Call → Fields → Gateway → Schedule → Served
unfolding write_all route
served w e c body g s =
    stored w.today g s
      (route w.routing w.routing_clock e (auth_key c.request) (object body) g.router)

unfoldable pub authorized : Surroundings → Endpoint → Call → String → Gateway → Schedule → Served
unfolding validate_chat_request validate_completion_request get_token_usage
authorized w e c user g s = behind_json c.body g s (λ body.
    behind_body (validate e body) g s (behind_budget w (budget_key w c) g s (served w e c body)))

unfoldable pub complete : Surroundings → Endpoint → Call → Gateway → Schedule → Served
complete w e c g s =
    let checked = check_rate_limit c.request w.clock g.limiter in
    let limited = record g { limiter = checked.1 } in
    behind_limit checked.0 limited s (
      behind_size (validate_request_body_size c.content_length) limited s (
        behind_user limited (get_current_user w.identities (credentials_of c) limited.manager s)
          (authorized w e c)))
