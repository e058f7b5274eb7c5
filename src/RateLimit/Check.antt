-- ===== src/RateLimit/Check.antt =====
-- `check_rate_limit`, `check_node_publish` and the counters of common/rate_limiter.py. The gates
-- read the clock anew each time: `clock i` is the i-th reading of one call.
use Prim.Native.String.{◌++◌}
use llama_net.Prelude.{◌==◌, ℕ, ◌*◌, Option, none, some, String, str_eq, leb, if◌then◌else◌}
use llama_net.Prelude.Dict
use llama_net.Prelude.Dict.{Dict}
use llama_net.RateLimit.Bucket.{consume}
use llama_net.RateLimit.Limiter.{
  raised, second, Request, get_or_create_bucket, client_ip, auth_key, LimitType, two_seconds, pass,
  deny, Gate, ◌>>◌, outcome, due_cleanup,
}

unfoldable pub global_gate : ℕ → Gate
unfolding outcome
global_gate now s =
    let (v, b) = consume s.global_minute now 1 in
    (outcome LimitType.global_rate v, record s { global_minute = b })

unfoldable pub global_room : Gate
global_room s =
    if leb s.limits.global_concurrent s.in_flight
    then (deny LimitType.global_concurrent two_seconds, s)
    else (pass, s)

unfoldable pub ip_minute_gate : String → ℕ → ℕ → Gate
unfolding outcome get_or_create_bucket
ip_minute_gate ip made now s =
    let key = "ip:" ++ ip in
    let b =
      get_or_create_bucket s.ip_minute key s.limits.ip_rpm s.limits.ip_rpm (60 * second) made in
    let (v, b') = consume b now 1 in
    (outcome LimitType.ip_rate v, record s { ip_minute = Dict.put s.ip_minute key b' })

unfoldable pub ip_hour_gate : String → ℕ → ℕ → Gate
unfolding outcome get_or_create_bucket
ip_hour_gate ip made now s =
    let key = "ip:" ++ ip ++ ":hour" in
    let b =
      get_or_create_bucket s.ip_hour key s.limits.ip_rph s.limits.ip_rph (3600 * second) made in
    let (v, b') = consume b now 1 in
    (outcome LimitType.ip_hourly v, record s { ip_hour = Dict.put s.ip_hour key b' })

unfoldable pub key_minute_gate : String → ℕ → ℕ → Gate
unfolding outcome get_or_create_bucket
key_minute_gate k made now s =
    let key = "key:" ++ k in
    let b =
      get_or_create_bucket s.key_minute key s.limits.key_rpm s.limits.key_rpm (60 * second) made in
    let (v, b') = consume b now 1 in
    (outcome LimitType.key_rate v, record s { key_minute = Dict.put s.key_minute key b' })

unfoldable pub key_hour_gate : String → ℕ → ℕ → Gate
unfolding outcome get_or_create_bucket
key_hour_gate k made now s =
    let key = "key:" ++ k ++ ":hour" in
    let b =
      get_or_create_bucket s.key_hour key s.limits.key_rph s.limits.key_rph (3600 * second) made in
    let (v, b') = consume b now 1 in
    (outcome LimitType.key_hourly v, record s { key_hour = Dict.put s.key_hour key b' })

-- A window of 0 is a ZeroDivisionError.
unfoldable pub key_burst_gate : String → ℕ → ℕ → Gate
unfolding outcome get_or_create_bucket
key_burst_gate k made now s =
    let key = "key:" ++ k ++ ":burst" in
    let b =
      get_or_create_bucket s.key_burst key s.limits.burst_rps s.limits.burst_rps
        s.limits.burst_window made in
    let (v, b') = consume b now 1 in
    if s.limits.burst_window == 0
    then (raised, s)
    else (outcome LimitType.burst v, record s { key_burst = Dict.put s.key_burst key b' })

unfoldable pub key_room : String → Gate
key_room k s =
    if leb s.limits.key_concurrent (Dict.get_or s.per_key k 0)
    then (deny LimitType.key_concurrent two_seconds, s)
    else (pass, s)

-- `if auth_key:`, so an empty key is no key.
abbrev pub with_key : Option String → (String → Gate) → Gate
with_key none f s = (pass, s)
with_key (some k) f s = if str_eq k "" then (pass, s) else f k s

unfoldable pub key_gates : (ℕ → ℕ) → String → Gate
unfolding ◌>>◌ key_minute_gate key_hour_gate key_burst_gate key_room
key_gates clock k =
    key_minute_gate k (clock 7) (clock 8)
    >> key_hour_gate k (clock 9) (clock 10)
    >> key_burst_gate k (clock 11) (clock 12)
    >> key_room k

unfoldable pub check_rate_limit : Request → (ℕ → ℕ) → Gate
unfolding ◌>>◌ global_gate global_room ip_minute_gate ip_hour_gate key_gates due_cleanup
check_rate_limit r clock =
    due_cleanup (clock 0) (clock 1)
    >> global_gate (clock 2)
    >> global_room
    >> ip_minute_gate (client_ip r) (clock 3) (clock 4)
    >> ip_hour_gate (client_ip r) (clock 5) (clock 6)
    >> with_key (auth_key r) (key_gates clock)

unfoldable pub publish_gate : String → ℕ → ℕ → Gate
unfolding outcome get_or_create_bucket
publish_gate ip made now s =
    let key = "publish:" ++ ip in
    let b =
      get_or_create_bucket s.node_publish key s.limits.node_publish_rph s.limits.node_publish_rph
        (3600 * second) made in
    let (v, b') = consume b now 1 in
    (outcome LimitType.node_publish v, record s { node_publish = Dict.put s.node_publish key b' })

unfoldable pub check_node_publish : Request → (ℕ → ℕ) → Gate
unfolding ◌>>◌ publish_gate due_cleanup
check_node_publish r clock =
    due_cleanup (clock 0) (clock 1) >> publish_gate (client_ip r) (clock 2) (clock 3)
