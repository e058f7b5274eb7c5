-- ===== src/RateLimit/Admission.antt =====
-- What a passed check guarantees, and what a check leaves alone.
use llama_net.Prelude.{
  ℕ, ◌<◌, ◌≡◌, ◌≢◌, refl, sym, ap, subst, eq_iff, ◌∙◌, false, Option, some, String, str_eq, arith,
}
use llama_net.Prelude.Dict
use llama_net.Prelude.Dict.{Dict, Distinct}
use llama_net.RateLimit.Limiter.{
  Request, RateLimiter, client_ip, auth_key, pass, Gate, ◌>>◌, due_cleanup,
}
use llama_net.RateLimit.Check.{
  global_gate, global_room, ip_minute_gate, ip_hour_gate, key_minute_gate, key_hour_gate,
  key_burst_gate, key_room, with_key, key_gates, check_rate_limit,
}
use llama_net.RateLimit.Leaves.{Leaves, pass-then, state-then}
use llama_net.RateLimit.Unmoved.{Unmoved, same_rules, check-Unmoved}

-- What no check changes: the limits and the counters of what is in flight.
pub record SameCounters (s t : RateLimiter) : Type 0 where
  pub limits : t.limits ≡ s.limits
  pub in_flight : t.in_flight ≡ s.in_flight
  pub per_key : (k : String) → Dict.get_or t.per_key k 0 ≡ Dict.get_or s.per_key k 0
  pub sse_open : t.sse_open ≡ s.sse_open
  pub sse_by_ip : t.sse_by_ip ≡ s.sse_by_ip

global_room_pass :
    (s : RateLimiter) → (global_room s).0 ≡ pass → s.in_flight < s.limits.global_concurrent
unfolding global_room
global_room_pass s h = ground arith

key_room_pass :
    (k : String) (s : RateLimiter)
    → (key_room k s).0 ≡ pass
    → Dict.get_or (key_room k s).1.per_key k 0 < (key_room k s).1.limits.key_concurrent
unfolding key_room
key_room_pass k s h = ground arith

key_gates_pass :
    (clock : ℕ → ℕ) (k : String) (s : RateLimiter)
    → (key_gates clock k s).0 ≡ pass
    → Dict.get_or (key_gates clock k s).1.per_key k 0
      < (key_gates clock k s).1.limits.key_concurrent
key_gates_pass clock k s h =
    let m : Gate =
      key_minute_gate k (clock 7) (clock 8)
      >> key_hour_gate k (clock 9) (clock 10)
      >> key_burst_gate k (clock 11) (clock 12) in
    let h' : ((m >> key_room k) s).0 ≡ pass = unfold key_gates in h in
    let (first, last) = pass-then m (key_room k) s h' in
    let e : (key_gates clock k s).1 ≡ (key_room k (m s).1).1 =
      unfold key_gates in state-then m (key_room k) s first in
    rw e (key_room_pass k (m s).1 last)

-- What holds in the state that a check leaves behind when it passes.
pub record Admitted (r : Request) (t : RateLimiter) : Type 0 where
  pub global_free : t.in_flight < t.limits.global_concurrent
  pub key_free :
      (k : String)
      → auth_key r ≡ some k
      → k ≢ ""
      → Dict.get_or t.per_key k 0 < t.limits.key_concurrent

with_key_pass :
    (clock : ℕ → ℕ) (o : Option String) (k : String) (s : RateLimiter)
    → o ≡ some k
    → k ≢ ""
    → (with_key o (key_gates clock) s).0 ≡ pass
    → Dict.get_or (with_key o (key_gates clock) s).1.per_key k 0
      < (with_key o (key_gates clock) s).1.limits.key_concurrent
with_key_pass clock o k s e ne h =
    let f : str_eq k "" ≡ false = ground (arith, eq_iff k "") in
    let w : with_key o (key_gates clock) s ≡ key_gates clock k s = rw (e, with_key, f) refl in
    rw w (key_gates_pass clock k s (sym (ap (λ x. x.0) w) ∙ h))

-- A check that passes has found a free place: fewer requests are in flight than the limiter allows
-- at once and, for a request with a key, fewer than a key is allowed. Passed or refused, a check
-- changes neither the limits nor any counter of requests in flight, overall or of any key, or of SSE
-- connections, though it may sweep the keys that have none in flight. (No key stands twice in the
-- table of the keys' counts.)
pub check_admits :
    (r : Request) (clock : ℕ → ℕ) (s : RateLimiter)
    → Distinct s.per_key
    → ((check_rate_limit r clock s).0 ≡ pass → Admitted r (check_rate_limit r clock s).1)
      × SameCounters s (check_rate_limit r clock s).1
check_admits r clock s h = (admitted, same_counters)
  where
    whole_run : Unmoved s (check_rate_limit r clock s).1
    whole_run = (check-Unmoved r clock).at s

    same_counters : SameCounters s (check_rate_limit r clock s).1
    same_counters = record {
      limits = whole_run.limits;
      in_flight = whole_run.in_flight;
      per_key = (whole_run.per_key h).counts;
      sse_open = whole_run.sse_open;
      sse_by_ip = whole_run.sse_by_ip;
    }

    m2 : Gate
    m2 = due_cleanup (clock 0) (clock 1) >> global_gate (clock 2)

    m3 : Gate
    m3 = m2 >> global_room

    m5 : Gate
    m5 =
        m3
        >> ip_minute_gate (client_ip r) (clock 3) (clock 4)
        >> ip_hour_gate (client_ip r) (clock 5) (clock 6)

    last : Gate
    last = with_key (auth_key r) (key_gates clock)

    same2 : Unmoved s (m2 s).1
    same2 = (let l : Leaves Unmoved m2 = search same_rules in l).at s

    admitted : (check_rate_limit r clock s).0 ≡ pass → Admitted r (check_rate_limit r clock s).1
    admitted h =
        let whole : ((m5 >> last) s).0 ≡ pass = unfold check_rate_limit in h in
        let (p5, plast) = pass-then m5 last s whole in
        let m4 : Gate = m3 >> ip_minute_gate (client_ip r) (clock 3) (clock 4) in
        let p4 = (pass-then m4 (ip_hour_gate (client_ip r) (clock 5) (clock 6)) s p5).0 in
        let p3 = (pass-then m3 (ip_minute_gate (client_ip r) (clock 3) (clock 4)) s p4).0 in
        let room = global_room_pass (m2 s).1 (pass-then m2 global_room s p3).1 in
        let e : (check_rate_limit r clock s).1 ≡ (last (m5 s).1).1 =
          unfold check_rate_limit in state-then m5 last s p5 in
        let same = whole_run in
        record {
          global_free =
              rw (same.in_flight, same.limits)
                (rw (← same2.in_flight)
                  (subst (λ l. (m2 s).1.in_flight < l.global_concurrent) same2.limits room));
          key_free = λ k ek ne. rw e (with_key_pass clock (auth_key r) k (m5 s).1 ek ne plast);
        }
