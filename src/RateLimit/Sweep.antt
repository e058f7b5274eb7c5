-- ===== src/RateLimit/Sweep.antt =====
-- The sweep of `_cleanup_stale_buckets` of common/rate_limiter.py, and what it forgets.
use llama_net.Prelude.{
  ℕ, ◌-◌, ◌*◌, ◌≤◌, ◌≡◌, inl, inr, refl, sym, ◌∙◌, ap, subst, true, false, Option, none, some, [],
  ◌∷◌, String, str_eq, arith, ltb, leb, Bool-cases, Option-cases, eq_iff, some_inj,
}
use llama_net.Prelude.Dict
use llama_net.Prelude.Dict.{Dict, Distinct}
use llama_net.RateLimit.Bucket.{TokenBucket, Verdict, new_bucket, consume}
use llama_net.RateLimit.Limiter.{second, get_or_create_bucket, stale_keys, zero_keys, drop_stale}
use llama_net.RateLimit.Window.{IsFilled}
use llama_net.RateLimit.Retry.{full_is_new}

-- A key of the rest is another key than the first.
other_key :
    {V : Type 0} (d : Dict V) (j k : String) (v : V)
    → Dict.get d j ≡ none
    → Dict.get d k ≡ some v
    → str_eq j k ≡ false
other_key d j k v h e = elim (Bool-cases (str_eq j k)) [
  | inr other ↦ other
  | inl same ↦
      let e1 : j ≡ k = (eq_iff j k).0 same in
      absurd (ground (arith, subst (λ x. Dict.get d x ≡ none) e1 h, e))
]

get_tail :
    {V : Type 0} (d : Dict V) (j k : String) (u v : V)
    → Dict.get d j ≡ none
    → Dict.get d k ≡ some v
    → Dict.get ((j, u) ∷ d) k ≡ some v
unfolding Dict.get
get_tail d j k u v h e = rw (other_key d j k v h e) e

get_popped :
    {V : Type 0} (e : Dict V) (j k : String)
    → str_eq j k ≡ false
    → Dict.get (Dict.pop e j) k ≡ Dict.get e k
get_popped e j k o = Dict.get-pop e j k ∙ rw o refl

-- A count of 0 is what a missing key counts.
zero_popped :
    (e : Dict ℕ) (j k : String) (n : ℕ)
    → leb n 0 ≡ true
    → (str_eq j k ≡ true → Dict.get e k ≡ some n)
    → Dict.get_or (Dict.pop e j) k 0 ≡ Dict.get_or e k 0
zero_popped e j k n z here = elim (Bool-cases (str_eq j k)) [
  | inl same ↦ ground (arith, Dict.get-pop e j k, here same, same, z)
  | inr other ↦ ap (λ (o : Option ℕ). elim o [ none ↦ 0 | some m ↦ m ]) (get_popped e j k other)
]

zero_stays :
    (d e : Dict ℕ) (k : String)
    → Distinct d
    → ((n : ℕ) → Dict.get d k ≡ some n → Dict.get e k ≡ some n)
    → Dict.get_or (Dict.pop_all e (zero_keys d)) k 0 ≡ Dict.get_or e k 0
unfolding zero_keys Dict.get Dict.pop_all
zero_stays [] e k h q = refl
zero_stays ((j, n) ∷ d) e k h q =
    let rest : (m : ℕ) → Dict.get d k ≡ some m → Dict.get e k ≡ some m =
      λ m r. q m (get_tail d j k n m h.0 r) in
    elim (Bool-cases (leb n 0)) [
      | inl z ↦ rw z (
          zero_stays d (Dict.pop e j) k h.1
            (λ m r. get_popped e j k (other_key d j k m h.0 r) ∙ rest m r)
          ∙ zero_popped e j k n z (λ same. q n (ground (arith, same))))
      | inr z ↦ rw z (zero_stays d e k h.1 rest)
    ]

pub zero_keys_uncounted :
    (d : Dict ℕ) (k : String)
    → Distinct d
    → Dict.get_or (Dict.pop_all d (zero_keys d)) k 0 ≡ Dict.get_or d k 0
zero_keys_uncounted d k h = zero_stays d d k h (λ n q. q)

fresh_stays :
    (now : ℕ) (d e : Dict TokenBucket) (k : String)
    → Distinct d
    → ((b : TokenBucket)
        → Dict.get d k ≡ some b
        → ltb (3600 * second) (now - b.last_refill) ≡ false)
    → Dict.get (Dict.pop_all e (stale_keys now d)) k ≡ Dict.get e k
unfolding stale_keys Dict.get Dict.pop_all
fresh_stays now [] e k h q = refl
fresh_stays now ((j, b) ∷ d) e k h q =
    let rest : (b' : TokenBucket)
        → Dict.get d k ≡ some b'
        → ltb (3600 * second) (now - b'.last_refill) ≡ false =
      λ b' r. q b' (get_tail d j k b b' h.0 r) in
    elim (Bool-cases (ltb (3600 * second) (now - b.last_refill))) [
      | inl old ↦
          let other : str_eq j k ≡ false = elim (Bool-cases (str_eq j k)) [
            | inr f ↦ f
            | inl t ↦ absurd (ground (arith, q b (ground (arith, t)), old))
          ] in
          rw old (fresh_stays now d (Dict.pop e j) k h.1 rest ∙ get_popped e j k other)
      | inr new ↦ rw new (fresh_stays now d e k h.1 rest)
    ]

-- A bucket made from these numbers, whose stamp is not after the time.
pub record BucketOf (capacity rate per now : ℕ) (b : TokenBucket) : Type 0 where
  pub same_capacity : b.capacity ≡ capacity
  pub same_rate : b.rate ≡ rate
  pub same_per : b.per ≡ per
  pub filled : IsFilled b
  pub stamped : b.last_refill ≤ now

stale_is_new :
    (c r p swept later n : ℕ) (b : TokenBucket)
    → BucketOf c r p later b
    → swept ≤ later
    → c * p ≤ 3600 * second * r
    → ltb (3600 * second) (swept - b.last_refill) ≡ true
    → consume (new_bucket c r p later) later n ≡ consume b later n
stale_is_new c r p swept later n b h le room old =
    let idle : 3600 * second ≤ later - b.last_refill = ground arith in
    let units : 3600 * second * r ≤ (later - b.last_refill) * r = grind arith in
    let full : b.capacity * b.per ≤ (later - b.last_refill) * b.rate =
      rw (h.same_capacity, h.same_per, h.same_rate) (omega (arith, room, units)) in
    sym (
      full_is_new b later n h.filled h.stamped full
      ∙ rw (h.same_capacity, h.same_rate, h.same_per) refl)

-- The sweep gives nothing away: after it, a call for any key answers as without it, and leaves the same
-- bucket behind. This holds of a table whose buckets of the key are as the limiter makes them, if what
-- a bucket holds takes no more than an hour to fill, and if the clock does not go back.
pub sweep_gives_nothing :
    (d : Dict TokenBucket) (k : String) (capacity rate per swept later n : ℕ)
    → Distinct d
    → ((b : TokenBucket) → Dict.get d k ≡ some b → BucketOf capacity rate per later b)
    → capacity * per ≤ 3600 * second * rate
    → swept ≤ later
    → consume (get_or_create_bucket (drop_stale swept d) k capacity rate per later) later n
      ≡ consume (get_or_create_bucket d k capacity rate per later) later n
unfolding get_or_create_bucket
sweep_gives_nothing d k c r p swept later n h made room le =
    let answer : Option TokenBucket → Verdict × TokenBucket =
      λ o. consume (elim o [ none ↦ new_bucket c r p later | some b ↦ b ]) later n in
    elim (Option-cases (Dict.get d k)) [
      | inl q ↦ ap answer (fresh_stays swept d d k h (λ b e. absurd (ground (arith, q, e))))
      | inr (b, q) ↦ elim (Bool-cases (ltb (3600 * second) (swept - b.last_refill))) [
        | inr new ↦
            let only : (b' : TokenBucket) → Dict.get d k ≡ some b' → b ≡ b' =
              λ b' e. some_inj (sym q ∙ e) in
            ap answer (
              fresh_stays swept d d k h (λ b' e.
                subst (λ (x : TokenBucket). ltb (3600 * second) (swept - x.last_refill) ≡ false)
                  (only b' e) new))
        | inl old ↦ elim (Dict.get-pop_all d (stale_keys swept d) k) [
          | inr same ↦ ap answer same
          | inl gone ↦
              ap answer gone
              ∙ stale_is_new c r p swept later n b (made b q) le room old
              ∙ ap answer (sym q)
        ]
      ]
    ]
