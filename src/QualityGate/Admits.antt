-- ===== src/QualityGate/Admits.antt =====
-- What a node has to show to pass the gate.
use llama_net.Prelude.{
  ℕ, ◌≡◌, ◌↔◌, refl, true, false, Option, none, some, List, [], ◌∷◌, arith, Bool-cases,
  Option-cases, inl, inr,
}
use llama_net.Prelude.Text.{codes}
use llama_net.Json
use llama_net.Json.{Value, Real, int, bool, Fields}
use llama_net.QualityGate.Gate.{
  Threshold, is_set, exceeds, falls_short, Gate, Environment, new_gate,
}
use llama_net.QualityGate.Hardware.{Hardware, gate_disabled, evaluate_hardware}
use llama_net.QualityGate.Metrics.{
  Measure, ttft, latency, too_high, too_slow, metrics_disabled, metrics_passed, both, verdict,
  number_or_0, evaluate_metrics,
}

-- A threshold that is set is not exceeded by the number measured.
abbrev pub Under : Threshold → Value → Type 0
Under t v = is_set t ≡ true → (x : Real) × (Json.as_number v ≡ some x) × (exceeds x t ≡ false)

-- A speed that is asked for is reached, or no token was produced.
abbrev pub Fast : Threshold → Value → Value → Type 0
Fast t tokens v =
    is_set t ≡ true
    → (n : Real) × (Json.as_number tokens ≡ some n)
      × (Json.above n 0 ≡ true
          → (x : Real) × (Json.as_number v ≡ some x) × (falls_short x t ≡ false))

too_high_lem : (m : Measure) (t : Threshold) (v : Value) → too_high m t v ≡ some [] → Under t v
unfolding too_high
too_high_lem m t v h s = elim (Option-cases (Json.as_number v)) [
  | inl q ↦ absurd (ground (arith, h, s, q))
  | inr (x, q) ↦ (
    x,
    q,
    elim (Bool-cases (exceeds x t)) [ inl e ↦ absurd (ground (arith, h, s, q, e)) | inr e ↦ e ],
  )
]

under_lem : (m : Measure) (t : Threshold) (v : Value) → Under t v → too_high m t v ≡ some []
unfolding too_high
under_lem m t v u = elim (Bool-cases (is_set t)) [
  | inr f ↦ ground (arith, f)
  | inl s ↦ let (x, q, e) = u s in ground (arith, s, q, e)
]

too_slow_lem : (t : Threshold) (n v : Value) → too_slow t n v ≡ some [] → Fast t n v
unfolding too_slow
too_slow_lem t n v h s = elim (Option-cases (Json.as_number n)) [
  | inl q ↦ absurd (ground (arith, h, s, q))
  | inr (k, q) ↦ (
    k,
    q,
    λ a. elim (Option-cases (Json.as_number v)) [
      | inl r ↦ absurd (ground (arith, h, s, q, a, r))
      | inr (x, r) ↦ (
        x,
        r,
        elim (Bool-cases (falls_short x t)) [
          | inl e ↦ absurd (ground (arith, h, s, q, a, r, e))
          | inr e ↦ e
        ],
      )
    ],
  )
]

fast_lem : (t : Threshold) (n v : Value) → Fast t n v → too_slow t n v ≡ some []
unfolding too_slow
fast_lem t n v u = elim (Bool-cases (is_set t)) [
  | inr f ↦ ground (arith, f)
  | inl s ↦
      let (k, q, r) = u s in
      elim (Bool-cases (Json.above k 0)) [
        | inr a ↦ ground (arith, s, q, a)
        | inl a ↦ let (x, e, f) = r a in ground (arith, s, q, a, e, f)
      ]
]

verdict_lem :
    (a b c : Option (List Measure))
    → verdict (both a (both b c)) ≡ metrics_passed
    → (a ≡ some []) × (b ≡ some []) × (c ≡ some [])
verdict_lem (some []) (some []) (some []) h = (refl, refl, refl)
verdict_lem none b c h = absurd (ground arith)
verdict_lem (some xs) none c h = absurd (ground arith)
verdict_lem (some xs) (some ys) none h = absurd (ground arith)
verdict_lem (some (x ∷ xs)) (some ys) (some zs) h = absurd (ground arith)
verdict_lem (some []) (some (y ∷ ys)) (some zs) h = absurd (ground arith)
verdict_lem (some []) (some []) (some (z ∷ zs)) h = absurd (ground arith)

pub record Meets (g : Gate) (f : Fields) : Type 0 where
  pub probed : Json.truthy (Json.get_or f "probe_success" (bool false)) ≡ true
  pub quick_start : Under g.max_ttft (number_or_0 f "ttft")
  pub quick : Under g.max_latency (number_or_0 f "latency")
  pub fast : Fast g.min_tps (number_or_0 f "completion_tokens") (number_or_0 f "tps")

-- A gate that is enabled passes a node's measures exactly if its probe succeeded, neither its time to
-- the first token nor its latency exceeds a limit that is set, and it reaches the speed that is set or
-- has produced no token; what is compared with a limit is a number.
pub evaluate_metrics-Meets :
    (g : Gate) (f : Fields) → g.enabled ≡ true → (evaluate_metrics g f ≡ metrics_passed) ↔ Meets g f
unfolding evaluate_metrics
evaluate_metrics-Meets g f on = (to, from)
  where
    high : Option (List Measure)
    high = too_high ttft g.max_ttft (number_or_0 f "ttft")

    late : Option (List Measure)
    late = too_high latency g.max_latency (number_or_0 f "latency")

    slow : Option (List Measure)
    slow = too_slow g.min_tps (number_or_0 f "completion_tokens") (number_or_0 f "tps")

    to : evaluate_metrics g f ≡ metrics_passed → Meets g f
    to h = elim (Bool-cases (Json.truthy (Json.get_or f "probe_success" (bool false)))) [
      | inr n ↦ absurd (ground (arith, h, on, n))
      | inl y ↦
          let (a, b, c) = verdict_lem high late slow (ground (arith, h, on, y)) in
          record {
            probed = y;
            quick_start = too_high_lem ttft g.max_ttft (number_or_0 f "ttft") a;
            quick = too_high_lem latency g.max_latency (number_or_0 f "latency") b;
            fast =
                too_slow_lem g.min_tps (number_or_0 f "completion_tokens") (number_or_0 f "tps") c;
          }
    ]

    from : Meets g f → evaluate_metrics g f ≡ metrics_passed
    from m = ground (
      arith,
      on,
      m.probed,
      under_lem ttft g.max_ttft (number_or_0 f "ttft") m.quick_start,
      under_lem latency g.max_latency (number_or_0 f "latency") m.quick,
      fast_lem g.min_tps (number_or_0 f "completion_tokens") (number_or_0 f "tps") m.fast,
    )

-- The environment without any of the variables.
abbrev pub unset : Environment
unset = record {
  require_gpu = codes "false";
  require_tunnel = codes "false";
  max_ttft = record { num = 0; den = 0 };
  max_latency = record { num = 0; den = 0 };
  min_tps = record { num = 0; den = 0 };
  exclude_hardware = [];
}

-- Where none of its variables is set, the gate is disabled and lets every node pass, whatever its
-- hardware and its measures. (`str.lower` leaves "false" as it is.)
pub unset_gate_passes :
    (lower : List ℕ → List ℕ) (h : Hardware) (f : Fields)
    → lower (codes "false") ≡ codes "false"
    → (evaluate_hardware lower (new_gate lower unset) h ≡ gate_disabled)
      × (evaluate_metrics (new_gate lower unset) f ≡ metrics_disabled)
unfolding evaluate_hardware evaluate_metrics new_gate codes
unset_gate_passes lower h f e = (rw e refl, rw e refl)
