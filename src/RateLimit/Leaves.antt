-- ===== src/RateLimit/Leaves.antt =====
-- Rules for what a chain of gates does to the limiter's state.
use llama_net.Prelude.{arith, ◌≡◌, refl, none, some, Option, String, str_eq, Bool-cases, inl, inr}
use llama_net.RateLimit.Limiter.{RateLimiter, Outcome, pass, deny, raised, Gate, ◌>>◌, next_gate}
use llama_net.RateLimit.Check.{with_key}

-- The state after the gate, passed or not, is related to the state before it.
pub record Leaves (R : RateLimiter → RateLimiter → Type 0) (m : Gate) : Type 0 where
  pub at : (s : RateLimiter) → R s (m s).1

module _ (R : RateLimiter → RateLimiter → Type 0) (R_refl : (s : RateLimiter) → R s s)
    (R_trans : (s t u : RateLimiter) → R s t → R t u → R s u) where
  next_gate-Leaves :
      (o : Outcome) (k : Gate) (s t : RateLimiter) → R s t → Leaves R k → R s (next_gate o k t).1
  next_gate-Leaves pass k s t r hk = R_trans s t (k t).1 r (hk.at t)
  next_gate-Leaves (deny x w) k s t r hk = r
  next_gate-Leaves raised k s t r hk = r

  pub Leaves-then : (m k : Gate) → Leaves R m → Leaves R k → Leaves R (m >> k)
  unfolding ◌>>◌
  Leaves-then m k hm hk = record { at = λ s. next_gate-Leaves (m s).0 k s (m s).1 (hm.at s) hk }

  pub Leaves-with_key :
      (o : Option String) (f : String → Gate)
      → ((k : String) → Leaves R (f k))
      → Leaves R (with_key o f)
  Leaves-with_key none f h = record { at = R_refl }
  Leaves-with_key (some k) f h = elim (Bool-cases (str_eq k "")) [
    | inl e ↦ record { at = λ s. rw e (R_refl s) }
    | inr e ↦ record { at = λ s. rw e ((h k).at s) }
  ]

next_gate-pass :
    (o : Outcome) (k : Gate) (s : RateLimiter)
    → (next_gate o k s).0 ≡ pass
    → (o ≡ pass) × ((k s).0 ≡ pass)
next_gate-pass pass k s h = (refl, h)
next_gate-pass (deny x w) k s h = absurd (ground arith)
next_gate-pass raised k s h = absurd (ground arith)

-- A chain passes only if each of its gates does.
pub pass-then :
    (m k : Gate) (s : RateLimiter)
    → ((m >> k) s).0 ≡ pass
    → ((m s).0 ≡ pass) × ((k (m s).1).0 ≡ pass)
unfolding ◌>>◌
pass-then m k s h = next_gate-pass (m s).0 k (m s).1 h

next_gate-state :
    (o : Outcome) (k : Gate) (s : RateLimiter) → o ≡ pass → (next_gate o k s).1 ≡ (k s).1
next_gate-state pass k s h = refl
next_gate-state (deny x w) k s h = absurd (ground arith)
next_gate-state raised k s h = absurd (ground arith)

-- Past a gate that passes, a chain ends in the state that the next gate leaves.
pub state-then : (m k : Gate) (s : RateLimiter) → (m s).0 ≡ pass → ((m >> k) s).1 ≡ (k (m s).1).1
unfolding ◌>>◌
state-then m k s h = next_gate-state (m s).0 k (m s).1 h
