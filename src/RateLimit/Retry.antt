-- ===== src/RateLimit/Retry.antt =====
-- When a refused caller of a token bucket may come back, and what forgetting a bucket costs.
use llama_net.Prelude.{ℕ, ◌+◌, ◌-◌, ◌*◌, ◌≤◌, ◌≡◌, ◌↔◌, sym, ◌∙◌, ap, arith}
use llama_net.Prelude.Int.{ℤ, pos_part, ◌-ℤ◌, ◌+ℤ◌, scaled_pos}
use llama_net.RateLimit.Bucket.{
  TokenBucket, new_bucket, allowed, retry_after, refill, take_tokens, consume,
}
use llama_net.RateLimit.Window.{IsFilled}

-- A refusal leaves the bucket refilled, with less than a token in it, and reports what is missing.
refused_lem :
    (b : TokenBucket) (now r : ℕ) (d : ℤ) (b' : TokenBucket)
    → IsFilled b
    → b.last_refill ≤ now
    → consume b now 1 ≡ (retry_after d r, b')
    → (b'.capacity ≡ b.capacity)
      × (b'.per ≡ b.per)
      × (b'.rate ≡ r)
      × (b'.last_refill ≡ now)
      × IsFilled b'
      × (pos_part d + pos_part b'.tokens ≡ b.per)
unfolding consume refill ◌-ℤ◌ ◌+ℤ◌
refused_lem b now r d b' h le e = ground (arith, scaled_pos now b.last_refill b.rate le)

allowed_iff :
    (b : TokenBucket) (later : ℕ)
    → IsFilled b
    → b.last_refill ≤ later
    → 1 ≤ b.capacity
    → ((consume b later 1).0 ≡ allowed)
      ↔ (b.per ≤ pos_part b.tokens + (later - b.last_refill) * b.rate)
unfolding consume refill ◌-ℤ◌ ◌+ℤ◌
allowed_iff b later h le room =
    let fits : b.per ≤ b.capacity * b.per = grind arith in
    (
      λ e. ground (arith, scaled_pos later b.last_refill b.rate le),
      λ e. ground (arith, scaled_pos later b.last_refill b.rate le),
    )

-- A refusal is exact: after `consume(1.0)` answers (False, d / r), a call at a later time is allowed
-- exactly when the time that has passed has brought the missing units, d ≤ (later - now) * r. This
-- holds of a bucket whose level is not negative and that can hold a token, on a clock that does not
-- go back.
pub retry_exact :
    (b : TokenBucket) (now later r : ℕ) (d : ℤ) (b' : TokenBucket)
    → IsFilled b
    → 1 ≤ b.capacity
    → b.last_refill ≤ now
    → now ≤ later
    → consume b now 1 ≡ (retry_after d r, b')
    → ((consume b' later 1).0 ≡ allowed) ↔ (pos_part d ≤ (later - now) * r)
retry_exact b now later r d b' h room le le' e =
    let (capacity, per, rate, stamped, filled, missing) = refused_lem b now r d b' h le e in
    let both = allowed_iff b' later filled (rw stamped le') (rw capacity room) in
    let span : (later - b'.last_refill) * b'.rate ≡ (later - now) * r = cc (rate, stamped) in
    (
      λ a. omega (arith, both.0 a, span, per, missing),
      λ a. both.1 (omega (arith, a, span, per, missing)),
    )

full_refill :
    (b : TokenBucket) (now : ℕ)
    → IsFilled b
    → b.last_refill ≤ now
    → b.capacity * b.per ≤ (now - b.last_refill) * b.rate
    → refill b now ≡ new_bucket b.capacity b.rate b.per now
unfolding refill new_bucket ◌+ℤ◌
full_refill b now h le idle = ground (arith, scaled_pos now b.last_refill b.rate le)

refill-new_bucket : (c r p now : ℕ) → refill (new_bucket c r p now) now ≡ new_bucket c r p now
unfolding refill new_bucket ◌+ℤ◌
refill-new_bucket c r p now = ground (arith, scaled_pos now now r (omega arith))

-- A bucket that has idled long enough to fill up answers as a new one does.
pub full_is_new :
    (b : TokenBucket) (now n : ℕ)
    → IsFilled b
    → b.last_refill ≤ now
    → b.capacity * b.per ≤ (now - b.last_refill) * b.rate
    → consume b now n ≡ consume (new_bucket b.capacity b.rate b.per now) now n
unfolding consume
full_is_new b now n h le idle =
    ap (λ x. take_tokens x n)
      (full_refill b now h le idle ∙ sym (refill-new_bucket b.capacity b.rate b.per now))
