-- ===== src/RateLimit/Window.antt =====
-- What a token bucket lets through over a stretch of time.
use llama_net.Prelude.{ℕ, ◌+◌, ◌-◌, ◌*◌, ◌≤◌, ◌≡◌, refl, sym, ◌∙◌, subst, List, [], ◌∷◌, arith}
use mathlib.Core.Path.{subst₃}
use llama_net.Prelude.Int.{pos_part, neg_part, ◌-ℤ◌, ◌+ℤ◌, scaled_pos}
use llama_net.RateLimit.Bucket.{
  TokenBucket, Verdict, allowed, refill, take_tokens, consume, IsBounded,
}

-- Refilling never overfills a bucket.
refill-IsBounded : (b : TokenBucket) (now : ℕ) → IsBounded (refill b now)
unfolding refill
refill-IsBounded b now = record { bounded = ground arith }

take_tokens-IsBounded : (b : TokenBucket) (n : ℕ) → IsBounded b → IsBounded (take_tokens b n).1
unfolding take_tokens ◌-ℤ◌
take_tokens-IsBounded b n h = record { bounded = ground (arith, h.bounded) }

abbrev pub IsFilled : TokenBucket → Type 0
IsFilled b = neg_part b.tokens ≡ 0

-- The tokens that a verdict has let through, one or none.
abbrev passed : Verdict → ℕ
passed allowed = 1
passed _ = 0

-- `consume(1.0)` at each time in turn: how many calls are allowed, and the bucket that is left.
unfoldable pub run : TokenBucket → List ℕ → ℕ × TokenBucket
run b [] = (0, b)
run b (t ∷ ts) = let (v, b') = consume b t 1 in let (n, final) = run b' ts in (passed v + n, final)

-- No reading of the clock is before the one above it.
abbrev pub Ascending : ℕ → List ℕ → Type 0
Ascending t [] = Unit
Ascending t (u ∷ ts) = (t ≤ u) × Ascending u ts

abbrev pub final_time : ℕ → List ℕ → ℕ
final_time t [] = t
final_time t (u ∷ ts) = final_time u ts

refill_credit :
    (b : TokenBucket) (now : ℕ)
    → IsFilled b
    → b.last_refill ≤ now
    → IsFilled (refill b now)
      × (pos_part (refill b now).tokens ≤ pos_part b.tokens + (now - b.last_refill) * b.rate)
unfolding refill ◌+ℤ◌
refill_credit b now h le = ground (arith, scaled_pos now b.last_refill b.rate le)

record Credit (b : TokenBucket) (now : ℕ) (r : Verdict × TokenBucket) : Type 0 where
  filled : IsFilled r.1
  paid :
      pos_part r.1.tokens + passed r.0 * b.per ≤ pos_part b.tokens + (now - b.last_refill) * b.rate
  same_rate : r.1.rate ≡ b.rate
  same_per : r.1.per ≡ b.per
  stamped : r.1.last_refill ≡ now

take_tokens_credit :
    (b : TokenBucket)
    → IsFilled b
    → IsFilled (take_tokens b 1).1
      × (pos_part (take_tokens b 1).1.tokens + passed (take_tokens b 1).0 * b.per
          ≤ pos_part b.tokens)
unfolding take_tokens ◌-ℤ◌
take_tokens_credit b h = ground arith

consume-Credit :
    (b : TokenBucket) (now : ℕ) → IsFilled b → b.last_refill ≤ now → Credit b now (consume b now 1)
unfolding consume
consume-Credit b now h le = record {
  filled = (take_tokens_credit (refill b now) (refill_credit b now h le).0).0;
  paid = omega (
    arith,
    refill_credit b now h le,
    take_tokens_credit (refill b now) (refill_credit b now h le).0,
  );
  same_rate = ground arith;
  same_per = ground arith;
  stamped = ground arith;
}

Ascending-le : (t : ℕ) (ts : List ℕ) → Ascending t ts → t ≤ final_time t ts
Ascending-le t [] h = omega arith
Ascending-le t (u ∷ ts) h = omega (arith, Ascending-le u ts h.1)

split_span : (a b c r : ℕ) → a ≤ b → b ≤ c → (c - a) * r ≡ (b - a) * r + (c - b) * r
split_span a b c r h k = grind arith

run_credit :
    (per rate last : ℕ) (b : TokenBucket) (ts : List ℕ)
    → b.per ≡ per
    → b.rate ≡ rate
    → b.last_refill ≡ last
    → IsFilled b
    → Ascending last ts
    → (run b ts).0 * per ≤ pos_part b.tokens + (final_time last ts - last) * rate
unfolding run
run_credit per rate last b [] p r l h asc = omega arith
run_credit per rate last b (t ∷ ts) p r l h asc =
    let c = consume-Credit b t h (subst (λ u. u ≤ t) (sym l) asc.0) in
    let b' = (consume b t 1).1 in
    let rest =
      run_credit per rate t b' ts (c.same_per ∙ p) (c.same_rate ∙ r) c.stamped c.filled asc.1 in
    let paid : pos_part b'.tokens + passed (consume b t 1).0 * per
        ≤ pos_part b.tokens + (t - last) * rate =
      subst₃
        (λ x y z.
          pos_part b'.tokens + passed (consume b t 1).0 * x ≤ pos_part b.tokens + (t - z) * y)
        p r l c.paid in
    omega
      (arith, paid, rest, split_span last t (final_time t ts) rate asc.0 (Ascending-le t ts asc.1))

-- However the calls are spread over a stretch of time in which the clock does not go back, a bucket
-- that starts between empty and full lets through at most its capacity and what it gains in that
-- time: n tokens with n * per ≤ capacity * per + elapsed * rate.
pub window_bound :
    (b : TokenBucket) (ts : List ℕ)
    → IsFilled b
    → IsBounded b
    → Ascending b.last_refill ts
    → (run b ts).0 * b.per
      ≤ b.capacity * b.per + (final_time b.last_refill ts - b.last_refill) * b.rate
window_bound b ts h k asc =
    omega (arith, k.bounded, run_credit b.per b.rate b.last_refill b ts refl refl refl h asc)
