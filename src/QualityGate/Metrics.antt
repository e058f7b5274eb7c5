-- ===== src/QualityGate/Metrics.antt =====
-- `evaluate_metrics` of common/quality_gate.py.
use llama_net.Prelude.{
  Bool, true, false, not, Option, none, some, List, [], ◌∷◌, ◌++◌, String, if◌then◌else◌,
}
use llama_net.Prelude.Int.{pos}
use llama_net.Json
use llama_net.Json.{Value, Real, int, bool, Fields}
use llama_net.QualityGate.Gate.{Threshold, is_set, exceeds, falls_short, Gate}

pub data Measure : Type 0 where
  ttft latency tps : Measure

-- What a test adds to the list of failures; none is a TypeError, of a value that is no number.
abbrev pub failure : Bool → Measure → List Measure
failure true m = m ∷ []
failure false m = []

unfoldable pub too_high : Measure → Threshold → Value → Option (List Measure)
unfolding Json.as_number exceeds
too_high m t v =
    if is_set t
    then (elim (Json.as_number v) [ none ↦ none | some x ↦ some (failure (exceeds x t) m) ])
    else some []

-- The speed counts only if tokens were produced.
unfoldable pub too_slow : Threshold → Value → Value → Option (List Measure)
unfolding Json.as_number falls_short Json.above
too_slow t tokens v =
    if is_set t
    then (elim (Json.as_number tokens) [
      | none ↦ none
      | some n ↦
          if Json.above n 0
          then (elim (Json.as_number v) [
            | none ↦ none
            | some x ↦ some (failure (falls_short x t) tps)
          ])
          else some []
    ])
    else some []

pub data MetricsVerdict : Type 0 where
  metrics_disabled metrics_passed probe_failed metrics_type_error : MetricsVerdict
  too_weak : List Measure → MetricsVerdict

abbrev pub both : Option (List Measure) → Option (List Measure) → Option (List Measure)
both none b = none
both (some xs) none = none
both (some xs) (some ys) = some (xs ++ ys)

abbrev pub verdict : Option (List Measure) → MetricsVerdict
verdict none = metrics_type_error
verdict (some []) = metrics_passed
verdict (some (m ∷ ms)) = too_weak (m ∷ ms)

abbrev pub number_or_0 : Fields → String → Value
number_or_0 f k = Json.get_or f k (int (pos 0))

unfoldable pub evaluate_metrics : Gate → Fields → MetricsVerdict
unfolding Json.get Json.truthy too_high too_slow
evaluate_metrics g f =
    if not g.enabled
    then metrics_disabled
    else if not (Json.truthy (Json.get_or f "probe_success" (bool false)))
    then probe_failed
    else verdict (
        both (too_high ttft g.max_ttft (number_or_0 f "ttft")) (
          both (too_high latency g.max_latency (number_or_0 f "latency"))
            (too_slow g.min_tps (number_or_0 f "completion_tokens") (number_or_0 f "tps"))))
