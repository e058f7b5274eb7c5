-- ===== src/Gateway/Permitted.antt =====
-- What a request has passed that reaches the router.
use llama_net.Prelude.{
  ℕ, ◌≡◌, ◌<◌, refl, Option, none, some, String, leb, Bool-cases, inl, inr, arith,
}
use llama_net.Json.{Fields}
use llama_net.RateLimit.Limiter.{pass, deny, auth_key}
use llama_net.RateLimit.Limiter
use llama_net.RateLimit.Check.{check_rate_limit}
use llama_net.Validate.Checks.{Checked, passed, invalid, type_error}
use llama_net.Validate.Requests.{validate_request_body_size}
use llama_net.Database.State.{Manager}
use llama_net.Database.Calls.{Outcome, returned, raised, Schedule}
use llama_net.Database.Keys.{get_token_usage}
use llama_net.Router.State.{Response}
use llama_net.Router.Route.{object, Endpoint, route}
use llama_net.Gateway.Auth.{get_current_user}
use llama_net.Gateway.State.{Gateway}
use llama_net.Gateway.Completions.{
  Surroundings, Call, routed, Served, credentials_of, validate, behind_limit, behind_size,
  behind_user, behind_json, behind_body, budget_key, within_budget, behind_budget, served,
  authorized, complete,
}

-- An answer of the router.
abbrev IsRouted : Response → Served → Type 0
IsRouted r a = a.0 ≡ routed r

limit-IsRouted :
    {r : Response} (o : Limiter.Outcome) (g : Gateway) (s : Schedule) (rest : Served)
    → IsRouted r (behind_limit o g s rest)
    → (o ≡ pass) × IsRouted r rest
limit-IsRouted pass g s rest h = (refl, h)
limit-IsRouted (deny l wait) g s rest h = absurd (ground (arith, h))
limit-IsRouted Limiter.raised g s rest h = absurd (ground (arith, h))

size-IsRouted :
    {r : Response} (c : Checked) (g : Gateway) (s : Schedule) (rest : Served)
    → IsRouted r (behind_size c g s rest)
    → (c ≡ passed) × IsRouted r rest
size-IsRouted passed g s rest h = (refl, h)
size-IsRouted (invalid status reason) g s rest h = absurd (ground (arith, h))
size-IsRouted type_error g s rest h = absurd (ground (arith, h))

body-IsRouted :
    {r : Response} (c : Checked) (g : Gateway) (s : Schedule) (rest : Served)
    → IsRouted r (behind_body c g s rest)
    → (c ≡ passed) × IsRouted r rest
body-IsRouted passed g s rest h = (refl, h)
body-IsRouted (invalid status reason) g s rest h = absurd (ground (arith, h))
body-IsRouted type_error g s rest h = absurd (ground (arith, h))

user-IsRouted :
    {r : Response} (g : Gateway) (o : Outcome (Option String) × Manager × Schedule)
    (rest : String → Gateway → Schedule → Served)
    → IsRouted r (behind_user g o rest)
    → (user : String) × (o.0 ≡ returned (some user))
      × IsRouted r (rest user (record g { manager = o.1 }) o.2)
user-IsRouted g (returned (some user), m, s) rest h = (user, refl, h)
user-IsRouted g (returned none, m, s) rest h = absurd (ground (arith, h))
user-IsRouted g (raised, m, s) rest h = absurd (ground (arith, h))

-- The key whose budget is checked has used less than its budget, as far as the database tells.
pub record IsSolvent (w : Surroundings) (h : String) (m : Manager) (s : Schedule) : Type 0 where
  pub consumed : ℕ
  pub read : (get_token_usage h w.today m s).0 ≡ returned consumed
  pub below : consumed < w.routing.daily_token_budget

abbrev pub KeyIsSolvent : Surroundings → Option String → Manager → Schedule → Type 0
KeyIsSolvent w none m s = Unit
KeyIsSolvent w (some h) m s = IsSolvent w h m s

within-IsRouted :
    {r : Response} (budget : ℕ) (g : Gateway) (o : Outcome ℕ × Manager × Schedule)
    (rest : Gateway → Schedule → Served)
    → IsRouted r (within_budget budget g o rest)
    → (n : ℕ) × (o.0 ≡ returned n)
      × (n < budget)
      × IsRouted r (rest (record g { manager = o.1 }) o.2)
within-IsRouted budget g (returned n, m, s) rest h = elim (Bool-cases (leb budget n)) [
  | inl e ↦ absurd (ground (arith, h, e))
  | inr e ↦ (n, refl, ground (arith, e), ground (arith, h, e))
]
within-IsRouted budget g (raised, m, s) rest h = absurd (ground (arith, h))

-- `routed_at` is the gateway whose router is asked.
pub record IsPermitted (w : Surroundings) (e : Endpoint) (c : Call) (g : Gateway) (s : Schedule)
    (r : Response) : Type 0 where
  pub within_rate : (check_rate_limit c.request w.clock g.limiter).0 ≡ pass
  pub within_size : validate_request_body_size c.content_length ≡ passed
  pub user : String
  pub known :
      (get_current_user w.identities (credentials_of c) g.manager s).0 ≡ returned (some user)
  pub body : Fields
  pub given : c.body ≡ some body
  pub valid : validate e body ≡ passed
  pub solvent :
      KeyIsSolvent w
        (budget_key w c)
        (get_current_user w.identities (credentials_of c) g.manager s).1
        (get_current_user w.identities (credentials_of c) g.manager s).2
  pub answered :
      r ≡ (route w.routing w.routing_clock e (auth_key c.request) (object body) g.router).0

budget-IsRouted :
    {r : Response} (w : Surroundings) (e : Endpoint) (c : Call) (body : Fields)
    (key : Option String) (g : Gateway) (s : Schedule)
    → IsRouted r (behind_budget w key g s (served w e c body))
    → KeyIsSolvent w key g.manager s
      × (r ≡ (route w.routing w.routing_clock e (auth_key c.request) (object body) g.router).0)
unfolding served
budget-IsRouted w e c body none g s h = (tt, ground (arith, h))
budget-IsRouted w e c body (some k) g s h =
    let (n, q, below, rest) =
      within-IsRouted w.routing.daily_token_budget g (get_token_usage k w.today g.manager s)
        (served w e c body) h in
    (record { consumed = n; read = q; below = below }, ground (arith, rest))

json-IsRouted :
    {r : Response} (o : Option Fields) (g : Gateway) (s : Schedule) (rest : Fields → Served)
    → IsRouted r (behind_json o g s rest)
    → (body : Fields) × (o ≡ some body) × IsRouted r (rest body)
json-IsRouted none g s rest h = absurd (ground (arith, h))
json-IsRouted (some body) g s rest h = (body, refl, h)

authorized-IsRouted :
    {r : Response} (w : Surroundings) (e : Endpoint) (c : Call) (user : String) (g : Gateway)
    (s : Schedule)
    → IsRouted r (authorized w e c user g s)
    → (body : Fields) × (c.body ≡ some body)
      × (validate e body ≡ passed)
      × KeyIsSolvent w (budget_key w c) g.manager s
      × (r ≡ (route w.routing w.routing_clock e (auth_key c.request) (object body) g.router).0)
unfolding authorized
authorized-IsRouted w e c user g s h =
    let (body, q, j) = json-IsRouted c.body g s _ h in
    let (v, k) = body-IsRouted (validate e body) g s _ j in
    let (sol, ans) = budget-IsRouted w e c body (budget_key w c) g s k in (body, q, v, sol, ans)

-- A request that the router answers was within the rate limit and the size limit, came from a user that
-- is known, and has a valid body; its API key, if it has one of the gateway's, had not used up its
-- daily tokens, as far as the database can be read; and the answer is that of the router to this body
-- and this key.
pub routed-IsPermitted :
    (w : Surroundings) (e : Endpoint) (c : Call) (g : Gateway) (s : Schedule) (r : Response)
    → (complete w e c g s).0 ≡ routed r
    → IsPermitted w e c g s r
unfolding complete
routed-IsPermitted w e c g s r h =
    let limited = record g { limiter = (check_rate_limit c.request w.clock g.limiter).1 } in
    let (a, h1) = limit-IsRouted _ limited s _ h in
    let (b, h2) = size-IsRouted _ limited s _ h1 in
    let (user, u, h3) = user-IsRouted limited _ (authorized w e c) h2 in
    let (body, q, v, sol, ans) = authorized-IsRouted w e c user _ _ h3 in
    record {
      within_rate = a;
      within_size = b;
      user = user;
      known = u;
      body = body;
      given = q;
      valid = v;
      solvent = sol;
      answered = ans;
    }
