-- ===== src/RateLimit/Unmoved.antt =====
-- What no gate of `check_rate_limit` of common/rate_limiter.py changes.
use llama_net.Prelude.{
  ℕ, ◌-◌, ◌*◌, ltb, Bool-cases, inl, inr, ◌≡◌, refl, sym, ap, subst, ◌∙◌, Option, String, arith,
}
use llama_net.Prelude.Dict
use llama_net.Prelude.Dict.{Dict, Distinct}
use llama_net.RateLimit.Limiter.{
  Request, RateLimiter, Gate, ◌>>◌, second, zero_keys, cleanup_stale_buckets, due_cleanup,
}
use llama_net.RateLimit.Check.{
  global_gate, global_room, ip_minute_gate, ip_hour_gate, key_minute_gate, key_hour_gate,
  key_burst_gate, key_room, with_key, key_gates, check_rate_limit,
}
use llama_net.RateLimit.Sweep.{zero_keys_uncounted}
use llama_net.RateLimit.Leaves.{Leaves, Leaves-then, Leaves-with_key}

-- The count of each key stays, and so does the table's form.
pub record CountsStay (d e : Dict ℕ) : Type 0 where
  pub counts : (k : String) → Dict.get_or e k 0 ≡ Dict.get_or d k 0
  pub distinct : Distinct e

pub record Unmoved (s t : RateLimiter) : Type 0 where
  pub limits : t.limits ≡ s.limits
  pub in_flight : t.in_flight ≡ s.in_flight
  pub sse_open : t.sse_open ≡ s.sse_open
  pub sse_by_ip : t.sse_by_ip ≡ s.sse_by_ip
  pub per_key : Distinct s.per_key → CountsStay s.per_key t.per_key

Unmoved-refl : (s : RateLimiter) → Unmoved s s
Unmoved-refl s = record {
  limits = refl;
  in_flight = refl;
  sse_open = refl;
  sse_by_ip = refl;
  per_key = λ h. record { counts = λ k. refl; distinct = h };
}

Unmoved-trans : (s t u : RateLimiter) → Unmoved s t → Unmoved t u → Unmoved s u
Unmoved-trans s t u h k = record {
  limits = k.limits ∙ h.limits;
  in_flight = k.in_flight ∙ h.in_flight;
  sse_open = k.sse_open ∙ h.sse_open;
  sse_by_ip = k.sse_by_ip ∙ h.sse_by_ip;
  per_key = λ d.
      let first = h.per_key d in
      let second = k.per_key first.distinct in
      record { counts = λ x. second.counts x ∙ first.counts x; distinct = second.distinct };
}

kept_counts : (d e : Dict ℕ) → e ≡ d → Distinct d → CountsStay d e
kept_counts d e q h = record {
  counts = λ k. ap (λ x. Dict.get_or x k 0) q;
  distinct = subst Distinct (sym q) h;
}

swept_counts : (d : Dict ℕ) → Distinct d → CountsStay d (Dict.pop_all d (zero_keys d))
swept_counts d h = record {
  counts = λ k. zero_keys_uncounted d k h;
  distinct = Dict.Distinct-pop_all d (zero_keys d) h;
}

pub due_cleanup-Unmoved : (now swept : ℕ) → Leaves Unmoved (due_cleanup now swept)
unfolding due_cleanup cleanup_stale_buckets
due_cleanup-Unmoved now swept = record {
  at = λ s. elim (Bool-cases (ltb (300 * second) (now - s.last_cleanup))) [
    | inr early ↦ rw early (Unmoved-refl s)
    | inl due ↦ rw due (record {
      limits = refl;
      in_flight = refl;
      sse_open = refl;
      sse_by_ip = refl;
      per_key = swept_counts s.per_key;
    })
  ];
}

pub global_gate-Unmoved : (now : ℕ) → Leaves Unmoved (global_gate now)
unfolding global_gate
global_gate-Unmoved now = record {
  at = λ s. record {
    limits = ground arith;
    in_flight = ground arith;
    sse_open = ground arith;
    sse_by_ip = ground arith;
    per_key = λ h. kept_counts s.per_key _ (ground arith) h;
  };
}

pub global_room-Unmoved : Leaves Unmoved global_room
unfolding global_room
global_room-Unmoved = record {
  at = λ s. record {
    limits = ground arith;
    in_flight = ground arith;
    sse_open = ground arith;
    sse_by_ip = ground arith;
    per_key = λ h. kept_counts s.per_key _ (ground arith) h;
  };
}

pub ip_minute_gate-Unmoved :
    (ip : String) (made now : ℕ) → Leaves Unmoved (ip_minute_gate ip made now)
unfolding ip_minute_gate
ip_minute_gate-Unmoved ip made now = record {
  at = λ s. record {
    limits = ground arith;
    in_flight = ground arith;
    sse_open = ground arith;
    sse_by_ip = ground arith;
    per_key = λ h. kept_counts s.per_key _ (ground arith) h;
  };
}

pub ip_hour_gate-Unmoved : (ip : String) (made now : ℕ) → Leaves Unmoved (ip_hour_gate ip made now)
unfolding ip_hour_gate
ip_hour_gate-Unmoved ip made now = record {
  at = λ s. record {
    limits = ground arith;
    in_flight = ground arith;
    sse_open = ground arith;
    sse_by_ip = ground arith;
    per_key = λ h. kept_counts s.per_key _ (ground arith) h;
  };
}

pub key_minute_gate-Unmoved :
    (k : String) (made now : ℕ) → Leaves Unmoved (key_minute_gate k made now)
unfolding key_minute_gate
key_minute_gate-Unmoved k made now = record {
  at = λ s. record {
    limits = ground arith;
    in_flight = ground arith;
    sse_open = ground arith;
    sse_by_ip = ground arith;
    per_key = λ h. kept_counts s.per_key _ (ground arith) h;
  };
}

pub key_hour_gate-Unmoved : (k : String) (made now : ℕ) → Leaves Unmoved (key_hour_gate k made now)
unfolding key_hour_gate
key_hour_gate-Unmoved k made now = record {
  at = λ s. record {
    limits = ground arith;
    in_flight = ground arith;
    sse_open = ground arith;
    sse_by_ip = ground arith;
    per_key = λ h. kept_counts s.per_key _ (ground arith) h;
  };
}

pub key_burst_gate-Unmoved :
    (k : String) (made now : ℕ) → Leaves Unmoved (key_burst_gate k made now)
unfolding key_burst_gate
key_burst_gate-Unmoved k made now = record {
  at = λ s. record {
    limits = ground arith;
    in_flight = ground arith;
    sse_open = ground arith;
    sse_by_ip = ground arith;
    per_key = λ h. kept_counts s.per_key _ (ground arith) h;
  };
}

pub key_room-Unmoved : (k : String) → Leaves Unmoved (key_room k)
unfolding key_room
key_room-Unmoved k = record {
  at = λ s. record {
    limits = ground arith;
    in_flight = ground arith;
    sse_open = ground arith;
    sse_by_ip = ground arith;
    per_key = λ h. kept_counts s.per_key _ (ground arith) h;
  };
}

pub Leaves-then_same : (m k : Gate) → Leaves Unmoved m → Leaves Unmoved k → Leaves Unmoved (m >> k)
Leaves-then_same = Leaves-then Unmoved Unmoved-refl Unmoved-trans

pub Leaves-with_key_same :
    (o : Option String) (f : String → Gate)
    → ((k : String) → Leaves Unmoved (f k))
    → Leaves Unmoved (with_key o f)
Leaves-with_key_same = Leaves-with_key Unmoved Unmoved-refl Unmoved-trans

pub ruleset same_rules = (
  due_cleanup-Unmoved, global_gate-Unmoved, global_room-Unmoved, ip_minute_gate-Unmoved,
  ip_hour_gate-Unmoved, key_minute_gate-Unmoved, key_hour_gate-Unmoved, key_burst_gate-Unmoved,
  key_room-Unmoved, Leaves-then_same, Leaves-with_key_same,
)

key_gates-Unmoved : (clock : ℕ → ℕ) (k : String) → Leaves Unmoved (key_gates clock k)
key_gates-Unmoved clock k = unfold key_gates in search same_rules depth 9

pub check-Unmoved : (r : Request) (clock : ℕ → ℕ) → Leaves Unmoved (check_rate_limit r clock)
check-Unmoved r clock =
    unfold check_rate_limit in search (same_rules, key_gates-Unmoved clock) depth 9
