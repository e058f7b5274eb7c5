-- ===== src/RateLimit/Counters.antt =====
-- The counters of common/rate_limiter.py: requests in flight and open SSE connections.
use llama_net.Prelude.{ℕ, ◌+◌, ◌-◌, Option, none, some, String, str_eq, leb, if◌then◌else◌}
use llama_net.Prelude.Dict
use llama_net.Prelude.Dict.{Dict}
use llama_net.RateLimit.Limiter.{
  Request, RateLimiter, client_ip, LimitType, unstated, Outcome, pass, deny,
}

-- `d[k] = d.get(k, 0) + 1`
abbrev pub increment : Dict ℕ → String → Dict ℕ
increment d k = Dict.put d k (Dict.get_or d k 0 + 1)

-- `d[k] = max(0, d.get(k, 0) - 1)`; subtraction stops at 0.
abbrev pub decrement : Dict ℕ → String → Dict ℕ
decrement d k = Dict.put d k (Dict.get_or d k 0 - 1)

-- `if auth_key:`
abbrev for_key : Option String → (String → Dict ℕ → Dict ℕ) → Dict ℕ → Dict ℕ
for_key none f d = d
for_key (some k) f d = if str_eq k "" then d else f k d

unfoldable pub acquire_concurrent : Option String → RateLimiter → RateLimiter
acquire_concurrent key s = record s {
  in_flight = s.in_flight + 1;
  per_key = for_key key (λ k d. increment d k) s.per_key;
}

unfoldable pub release_concurrent : Option String → RateLimiter → RateLimiter
release_concurrent key s = record s {
  in_flight = s.in_flight - 1;
  per_key = for_key key (λ k d. decrement d k) s.per_key;
}

unfoldable pub check_sse_connection : Request → RateLimiter → Outcome
check_sse_connection r s =
    if leb s.limits.sse_global s.sse_open
    then deny LimitType.sse_global unstated
    else if leb s.limits.sse_per_ip (Dict.get_or s.sse_by_ip (client_ip r) 0)
    then deny LimitType.sse_per_ip unstated
    else pass

unfoldable pub track_sse_open : Request → RateLimiter → RateLimiter
track_sse_open r s = record s {
  sse_open = s.sse_open + 1;
  sse_by_ip = increment s.sse_by_ip (client_ip r);
}

unfoldable pub track_sse_close : Request → RateLimiter → RateLimiter
track_sse_close r s = record s {
  sse_open = s.sse_open - 1;
  sse_by_ip = decrement s.sse_by_ip (client_ip r);
}

-- `get_status`
pub record LimiterStatus : Type 0 where
  pub global_concurrent : ℕ
  pub global_max : ℕ
  pub tracked_keys : ℕ
  pub tracked_ips : ℕ
  pub sse_connections : ℕ
  pub sse_max : ℕ

unfoldable pub get_status : RateLimiter → LimiterStatus
get_status s = record {
  global_concurrent = s.in_flight;
  global_max = s.limits.global_concurrent;
  tracked_keys = Dict.size s.key_minute;
  tracked_ips = Dict.size s.ip_minute;
  sse_connections = s.sse_open;
  sse_max = s.limits.sse_global;
}
