-- ===== src/RateLimit/Limiter.antt =====
-- `RateLimiter` of common/rate_limiter.py: its state, and the checks as a chain of gates. A gate
-- that refuses ends the chain, and what the gates before it have consumed stays consumed. The lock
-- of the class is never taken; the methods do not wait, so each runs as one step.
use llama_net.Prelude.{
  ℕ, ◌-◌, ◌*◌, Option, none, some, List, [], ◌∷◌, String, str_eq, starts_with, ltb, leb,
  if◌then◌else◌,
}
use llama_net.Prelude.Dict
use llama_net.Prelude.Dict.{Dict}
use llama_net.Prelude.Text
use llama_net.Prelude.Int.{ℤ}
use llama_net.RateLimit.Bucket.{
  TokenBucket, new_bucket, Verdict, allowed, retry_after, zero_division,
}

-- One second, in ticks: the clock is read to the microsecond.
abbrev pub second : ℕ
second = 1000000

-- The header fields that the limiter reads, "" where one is absent, and the peer's address.
pub record Request : Type 0 where
  pub x_forwarded_for : String
  pub x_real_ip : String
  pub authorization : String
  pub client_host : Option String

-- The numbers that `__init__` is given. `burst_window` is in ticks.
pub record Limits : Type 0 where
  pub key_rpm : ℕ
  pub key_rph : ℕ
  pub key_concurrent : ℕ
  pub ip_rpm : ℕ
  pub ip_rph : ℕ
  pub global_rpm : ℕ
  pub global_concurrent : ℕ
  pub burst_rps : ℕ
  pub burst_window : ℕ
  pub node_publish_rph : ℕ
  pub sse_per_ip : ℕ
  pub sse_global : ℕ

abbrev pub default_limits : Limits
default_limits = record {
  key_rpm = 60;
  key_rph = 1000;
  key_concurrent = 5;
  ip_rpm = 30;
  ip_rph = 300;
  global_rpm = 500;
  global_concurrent = 50;
  burst_rps = 10;
  burst_window = 1000000;
  node_publish_rph = 30;
  sse_per_ip = 5;
  sse_global = 200;
}

pub record RateLimiter : Type 0 where
  pub limits : Limits
  pub key_minute : Dict TokenBucket
  pub key_hour : Dict TokenBucket
  pub key_burst : Dict TokenBucket
  pub ip_minute : Dict TokenBucket
  pub ip_hour : Dict TokenBucket
  pub node_publish : Dict TokenBucket
  pub global_minute : TokenBucket
  pub per_key : Dict ℕ
  pub in_flight : ℕ
  pub sse_by_ip : Dict ℕ
  pub sse_open : ℕ
  pub last_cleanup : ℕ

unfoldable pub new_limiter : Limits → ℕ → RateLimiter
unfolding new_bucket
new_limiter l now = record {
  limits = l;
  key_minute = [];
  key_hour = [];
  key_burst = [];
  ip_minute = [];
  ip_hour = [];
  node_publish = [];
  global_minute = new_bucket l.global_rpm l.global_rpm (60 * second) now;
  per_key = [];
  in_flight = 0;
  sse_by_ip = [];
  sse_open = 0;
  last_cleanup = now;
}

unfoldable pub get_or_create_bucket : Dict TokenBucket → String → ℕ → ℕ → ℕ → ℕ → TokenBucket
unfolding new_bucket
get_or_create_bucket store key capacity rate per now = elim (Dict.get store key) [
  | none ↦ new_bucket capacity rate per now
  | some b ↦ b
]

unfoldable pub client_ip : Request → String
client_ip r =
    if str_eq r.x_forwarded_for ""
    then (if str_eq r.x_real_ip ""
        then (elim r.client_host [ none ↦ "unknown" | some host ↦ host ])
        else r.x_real_ip)
    else Text.strip (Text.before_comma r.x_forwarded_for)

unfoldable pub auth_key : Request → Option String
auth_key r =
    if starts_with r.authorization "Bearer " then some (Text.drop 7 r.authorization) else none

-- The "limit_type" of a refusal, and an error that a gate raises.
pub data LimitType : Type 0 where
  global_rate global_concurrent ip_rate ip_hourly key_rate key_hourly burst key_concurrent :
      LimitType
  node_publish sse_global sse_per_ip : LimitType

pub data Wait : Type 0 where
  ticks : ℤ → ℕ → Wait
  two_seconds : Wait
  unstated : Wait

pub data Outcome : Type 0 where
  pass : Outcome
  deny : LimitType → Wait → Outcome
  raised : Outcome

abbrev pub Gate : Type 0
Gate = RateLimiter → Outcome × RateLimiter

abbrev pub next_gate : Outcome → Gate → Gate
next_gate pass k s = k s
next_gate (deny t w) k s = (deny t w, s)
next_gate raised k s = (raised, s)

infixl 5 ◌>>◌
unfoldable pub ◌>>◌ : Gate → Gate → Gate
◌>>◌ m k s = let (o, s') = m s in next_gate o k s'

unfoldable pub outcome : LimitType → Verdict → Outcome
outcome t allowed = pass
outcome t (retry_after d r) = deny t (ticks d r)
outcome t zero_division = raised

-- `[k for k, v in store.items() if now - v.last_refill > 3600]`
unfoldable pub stale_keys : ℕ → Dict TokenBucket → List String
stale_keys now [] = []
stale_keys now ((k, b) ∷ d) =
    let rest = stale_keys now d in
    if ltb (3600 * second) (now - b.last_refill) then k ∷ rest else rest

unfoldable pub zero_keys : Dict ℕ → List String
zero_keys [] = []
zero_keys ((k, n) ∷ d) = let rest = zero_keys d in if leb n 0 then k ∷ rest else rest

abbrev pub drop_stale : ℕ → Dict TokenBucket → Dict TokenBucket
drop_stale now d = Dict.pop_all d (stale_keys now d)

-- `_cleanup_stale_buckets`
unfoldable pub cleanup_stale_buckets : ℕ → RateLimiter → RateLimiter
cleanup_stale_buckets now s = record s {
  key_minute = drop_stale now s.key_minute;
  key_hour = drop_stale now s.key_hour;
  key_burst = drop_stale now s.key_burst;
  ip_minute = drop_stale now s.ip_minute;
  ip_hour = drop_stale now s.ip_hour;
  node_publish = drop_stale now s.node_publish;
  per_key = Dict.pop_all s.per_key (zero_keys s.per_key);
}

-- The cleanup that a check starts with, at most once in 300 seconds. `swept` is the reading of the
-- clock inside `_cleanup_stale_buckets`.
unfoldable pub due_cleanup : ℕ → ℕ → Gate
unfolding cleanup_stale_buckets
due_cleanup now swept s =
    if ltb (300 * second) (now - s.last_cleanup)
    then (pass, record (cleanup_stale_buckets swept s) { last_cleanup = now })
    else (pass, s)
