-- ===== src/RateLimit/Connections.antt =====
-- The SSE limits hold however connections come and go.
use llama_net.Prelude.{ℕ, ◌+◌, ◌-◌, ◌≤◌, ◌<◌, ◌≡◌, String, [], ◌∷◌, arith, eq_iff}
use llama_net.Prelude.Dict
use llama_net.Prelude.Dict.{Dict}
use llama_net.RateLimit.Limiter.{Request, RateLimiter, client_ip, pass}
use llama_net.RateLimit.Counters.{check_sse_connection, track_sse_open, track_sse_close}

abbrev pub total : Dict ℕ → ℕ
total [] = 0
total ((k, n) ∷ d) = n + total d

total-put :
    (d : Dict ℕ) (k : String) (v : ℕ) → total (Dict.put d k v) + Dict.get_or d k 0 ≡ total d + v
unfolding Dict.put Dict.get
total-put [] k v = omega arith
total-put ((j, w) ∷ d) k v = ground (arith, total-put d k v)

-- The gateway opens a connection only after the check passes, with no wait between, and closes one
-- that it has opened.
pub data SseStep : RateLimiter → RateLimiter → Type 0 where
  open_one :
      (s : RateLimiter) (r : Request)
      → check_sse_connection r s ≡ pass
      → SseStep s (track_sse_open r s)
  close_one :
      (s : RateLimiter) (r : Request)
      → 0 < Dict.get_or s.sse_by_ip (client_ip r) 0
      → SseStep s (track_sse_close r s)

pub data SseReach (s : RateLimiter) : RateLimiter → Type 0 where
  here : SseReach s s
  next : {t u : RateLimiter} → SseReach s t → SseStep t u → SseReach s u

pub record SseWithin (s : RateLimiter) : Type 0 where
  pub all_open : s.sse_open ≤ s.limits.sse_global
  pub each_ip : (ip : String) → Dict.get_or s.sse_by_ip ip 0 ≤ s.limits.sse_per_ip
  pub counted : total s.sse_by_ip ≡ s.sse_open

SseStep-SseWithin : {s t : RateLimiter} → SseStep s t → SseWithin s → SseWithin t
unfolding check_sse_connection track_sse_open track_sse_close
SseStep-SseWithin (open_one s r ok) w =
    let ip = client_ip r in
    let n = Dict.get_or s.sse_by_ip ip 0 in
    record {
      all_open = ground arith;
      each_ip =
          λ j. ground (arith, Dict.get_or-put s.sse_by_ip ip j (n + 1) 0, eq_iff ip j, w.each_ip j);
      counted = omega (arith, w.counted, total-put s.sse_by_ip ip (n + 1));
    }
SseStep-SseWithin (close_one s r some_open) w =
    let ip = client_ip r in
    let n = Dict.get_or s.sse_by_ip ip 0 in
    record {
      all_open = omega (arith, w.all_open);
      each_ip =
          λ j. ground (arith, Dict.get_or-put s.sse_by_ip ip j (n - 1) 0, eq_iff ip j, w.each_ip j);
      counted = omega (arith, w.counted, total-put s.sse_by_ip ip (n - 1));
    }

-- From a limiter with no connection open, whatever connections open after a passed check and close
-- later, no more than `sse_global` are open, no address has more than `sse_per_ip`, and the counts
-- of the addresses add up to the number open.
pub sse_limits_hold :
    {s t : RateLimiter} → s.sse_open ≡ 0 → s.sse_by_ip ≡ [] → SseReach s t → SseWithin t
unfolding Dict.get
sse_limits_hold {s} none_open no_ip here = record {
  all_open = omega arith;
  each_ip = λ ip. rw no_ip (omega arith);
  counted = rw no_ip (omega arith);
}
sse_limits_hold none_open no_ip (next r st) =
    SseStep-SseWithin st (sse_limits_hold none_open no_ip r)
