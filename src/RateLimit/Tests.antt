-- ===== src/RateLimit/Tests.antt =====
-- Runs of the rate limiter, and its theorems at concrete inputs.
use llama_net.Prelude.{
  ◌+◌, ◌-◌, ◌*◌, ◌≤◌, ◌≡◌, ◌↔◌, refl, subst, some_inj, none, some, [], ◌∷◌, arith,
}
use llama_net.Prelude.Text
use llama_net.Prelude.Dict
use llama_net.Prelude.Dict.{Dict}
use llama_net.Prelude.Int.{pos, ◌-ℤ◌, ◌+ℤ◌, ◌*ℤ◌}
use llama_net.RateLimit.Bucket.{TokenBucket, allowed, retry_after, consume}
use llama_net.RateLimit.Window.{run, window_bound}
use llama_net.RateLimit.Retry.{retry_exact}
use llama_net.RateLimit.Sweep.{BucketOf, sweep_gives_nothing}
use llama_net.RateLimit.Limiter.{
  Request, RateLimiter, default_limits, new_limiter, pass, client_ip, auth_key,
  get_or_create_bucket, drop_stale, stale_keys,
}
use llama_net.RateLimit.Check.{check_rate_limit}
use llama_net.RateLimit.Counters.{check_sse_connection, track_sse_open}
use llama_net.RateLimit.Connections.{SseWithin, open_one, here, next, sse_limits_hold}
use llama_net.RateLimit.Admission.{Admitted, SameCounters, check_admits}

-- 30 requests a minute, one token left.
abbrev nearly_empty : TokenBucket
nearly_empty = record {
  capacity = 30;
  rate = 30;
  per = 60000000;
  tokens = pos 60000000;
  last_refill = 0;
}

abbrev emptied : TokenBucket
emptied = record nearly_empty { tokens = pos 30000000; last_refill = 1000000 }

first_allowed : consume nearly_empty 0 1 ≡ (allowed, record nearly_empty { tokens = pos 0 })
unfolding consume ◌-ℤ◌ ◌+ℤ◌ ◌*ℤ◌
first_allowed = refl

then_refused :
    consume (record nearly_empty { tokens = pos 0 }) 1000000 1
    ≡ (retry_after (pos 30000000) 30, emptied)
unfolding consume ◌-ℤ◌ ◌+ℤ◌ ◌*ℤ◌
then_refused = refl

window_bound_example :
    (run nearly_empty (0 ∷ 0 ∷ 2000000 ∷ [])).0 * 60000000 ≤ 30 * 60000000 + (2000000 - 0) * 30
window_bound_example =
    window_bound nearly_empty (0 ∷ 0 ∷ 2000000 ∷ []) (omega arith) (omega arith) (omega arith)

retry_exact_example :
    ((consume emptied 2000000 1).0 ≡ allowed) ↔ (30000000 ≤ (2000000 - 1000000) * 30)
retry_exact_example =
    retry_exact (record nearly_empty { tokens = pos 0 }) 1000000 2000000 30 (pos 30000000) emptied
      (omega arith) (omega arith) (omega arith) (omega arith) then_refused

-- A table with the bucket of one address, which the sweep forgets after an hour and a second.
abbrev one_bucket : Dict TokenBucket
one_bucket = ("10.0.0.7", emptied) ∷ []

one_made :
    (b : TokenBucket)
    → Dict.get one_bucket "10.0.0.7" ≡ some b
    → BucketOf 30 30 60000000 3602000000 b
unfolding Dict.get
one_made b e = subst (BucketOf 30 30 60000000 3602000000) (some_inj e) (record {
  same_capacity = refl;
  same_rate = refl;
  same_per = refl;
  filled = omega arith;
  stamped = omega arith;
})

forgotten : Dict.get (drop_stale 3602000000 one_bucket) "10.0.0.7" ≡ none
unfolding Dict.get Dict.pop_all Dict.pop stale_keys
forgotten = refl

sweep_gives_nothing_example :
    consume
      (get_or_create_bucket (drop_stale 3602000000 one_bucket) "10.0.0.7" 30 30 60000000 3602000000)
      3602000000
      1
    ≡ consume (get_or_create_bucket one_bucket "10.0.0.7" 30 30 60000000 3602000000) 3602000000 1
unfolding Dict.get
sweep_gives_nothing_example =
    sweep_gives_nothing one_bucket "10.0.0.7" 30 30 60000000 3602000000 3602000000 1 (refl, tt)
      one_made (omega arith) (omega arith)

abbrev visitor : Request
visitor = record {
  x_forwarded_for = "10.0.0.7 , 10.0.0.1";
  x_real_ip = "";
  authorization = "Bearer ln-1";
  client_host = none;
}

abbrev idle_limiter : RateLimiter
unfolding new_limiter
idle_limiter = new_limiter default_limits 0

who : (client_ip visitor ≡ "10.0.0.7") × (auth_key visitor ≡ some "ln-1")
unfolding client_ip auth_key Text.strip Text.before_comma Text.drop
who = (refl, refl)

first_passes : (check_rate_limit visitor (λ i. i) idle_limiter).0 ≡ pass
unfolding check_rate_limit new_limiter consume ◌-ℤ◌ ◌+ℤ◌ ◌*ℤ◌ Dict.get client_ip auth_key Text.strip
    Text.before_comma Text.drop
first_passes = refl

check_admits_example :
    ((check_rate_limit visitor (λ i. i) idle_limiter).0 ≡ pass
      → Admitted visitor (check_rate_limit visitor (λ i. i) idle_limiter).1)
    × SameCounters idle_limiter (check_rate_limit visitor (λ i. i) idle_limiter).1
unfolding idle_limiter
check_admits_example = check_admits visitor (λ i. i) idle_limiter tt

sse_limits_hold_example : SseWithin (track_sse_open visitor idle_limiter)
unfolding new_limiter check_sse_connection Dict.get client_ip Text.strip Text.before_comma
sse_limits_hold_example =
    sse_limits_hold {s = idle_limiter} refl refl (next here (open_one idle_limiter visitor refl))
