-- ===== src/RateLimit/Bucket.antt =====
-- `TokenBucket` of common/rate_limiter.py. Time is counted in ticks. A bucket gains `rate` tokens in
-- `per` ticks, so its level is kept in units of 1/per token: one token is `per` units, and a tick
-- adds `rate` units. In these units the arithmetic of the source is exact. The level is signed,
-- since the clock may be set back.
use llama_net.Prelude.{ℕ, zero, suc, ◌*◌, if◌then◌else◌}
use llama_net.Prelude.Int.{ℤ, pos, ◌-ℤ◌, ◌+ℤ◌, ◌*ℤ◌, ◌≤ℤ◌, min_ℤ, leb_ℤ}

pub record TokenBucket : Type 0 where
  pub capacity : ℕ
  pub rate : ℕ
  pub per : ℕ
  pub tokens : ℤ
  pub last_refill : ℕ

-- A full bucket holds `capacity` tokens.
abbrev pub full_level : TokenBucket → ℤ
full_level b = pos (b.capacity * b.per)

-- The constructor and `__post_init__`: the bucket starts full.
unfoldable pub new_bucket : ℕ → ℕ → ℕ → ℕ → TokenBucket
new_bucket capacity rate per now = record {
  capacity = capacity;
  rate = rate;
  per = per;
  tokens = pos (capacity * per);
  last_refill = now;
}

-- `(True, 0.0)`; `(False, retry_after)`, with the missing units and the rate that divides them to
-- the ticks to wait; or the ZeroDivisionError of a rate that is 0.
pub data Verdict : Type 0 where
  allowed : Verdict
  retry_after : ℤ → ℕ → Verdict
  zero_division : Verdict

unfoldable pub refill : TokenBucket → ℕ → TokenBucket
unfolding min_ℤ
refill b now = record b {
  tokens = min_ℤ (full_level b) (b.tokens +ℤ (pos now -ℤ pos b.last_refill) *ℤ pos b.rate);
  last_refill = now;
}

unfoldable pub take_tokens : TokenBucket → ℕ → Verdict × TokenBucket
take_tokens b n =
    if leb_ℤ (pos (n * b.per)) b.tokens
    then (allowed, record b { tokens = b.tokens -ℤ pos (n * b.per) })
    else (
      elim b.rate [
        | zero ↦ zero_division
        | suc r ↦ retry_after (pos (n * b.per) -ℤ b.tokens) (suc r)
      ],
      b,
    )

unfoldable pub consume : TokenBucket → ℕ → ℕ → Verdict × TokenBucket
unfolding refill take_tokens
consume b now n = take_tokens (refill b now) n

-- Never more than a full bucket.
pub record IsBounded (b : TokenBucket) : Type 0 where
  pub bounded : b.tokens ≤ℤ full_level b
