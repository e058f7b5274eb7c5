-- ===== src/QualityGate/Gate.antt =====
-- The thresholds of `NodeQualityGate` in common/quality_gate.py. Texts are lists of code points, and
-- `str.lower` is a parameter.
use llama_net.Prelude.{ℕ, suc, ◌*◌, Bool, true, false, not, ◌||◌, List, [], ◌∷◌, ltb, if◌then◌else◌}
use llama_net.Prelude.Codes.{strip_with, same_text, is_empty, split}
use llama_net.Prelude.Text.{is_space, codes}
use llama_net.Prelude.Int.{pos, ◌*ℤ◌, ltb_ℤ}
use llama_net.Json.{Real, ratio, infinity, minus_infinity}

-- A threshold: the fraction num / (den + 1).
pub record Threshold : Type 0 where
  pub num : ℕ
  pub den : ℕ

-- `self.max_ttft > 0`
abbrev pub is_set : Threshold → Bool
is_set t = ltb 0 t.num

-- `x > t` and `x < t`; NaN compares false.
unfoldable pub exceeds : Real → Threshold → Bool
exceeds (ratio p d) t = ltb_ℤ (pos (t.num * suc d)) (p *ℤ pos (suc t.den))
exceeds infinity t = true
exceeds _ t = false

unfoldable pub falls_short : Real → Threshold → Bool
falls_short (ratio p d) t = ltb_ℤ (p *ℤ pos (suc t.den)) (pos (t.num * suc d))
falls_short minus_infinity t = true
falls_short _ t = false

pub record Gate : Type 0 where
  pub require_gpu : Bool
  pub require_tunnel : Bool
  pub max_ttft : Threshold
  pub max_latency : Threshold
  pub min_tps : Threshold
  pub excluded_hardware : List (List ℕ)
  pub enabled : Bool

-- The variables of the environment, with the numbers read.
pub record Environment : Type 0 where
  pub require_gpu : List ℕ
  pub require_tunnel : List ℕ
  pub max_ttft : Threshold
  pub max_latency : Threshold
  pub min_tps : Threshold
  pub exclude_hardware : List ℕ

-- `… in ("true", "1", "yes")`
unfoldable pub is_yes : List ℕ → Bool
unfolding same_text codes
is_yes s = same_text s (codes "true") || same_text s (codes "1") || same_text s (codes "yes")

unfoldable pub patterns : (List ℕ → List ℕ) → List (List ℕ) → List (List ℕ)
unfolding strip_with is_space
patterns lower [] = []
patterns lower (p ∷ ps) =
    let rest = patterns lower ps in
    if is_empty (strip_with is_space p) then rest else lower (strip_with is_space p) ∷ rest

abbrev none_excluded : List (List ℕ) → Bool
none_excluded [] = true
none_excluded (p ∷ ps) = false

unfoldable pub new_gate : (List ℕ → List ℕ) → Environment → Gate
unfolding is_yes split patterns
new_gate lower env =
    let gpu = is_yes (lower env.require_gpu) in
    let tunnel = is_yes (lower env.require_tunnel) in
    let excluded = patterns lower (split 44 env.exclude_hardware) in
    record {
      require_gpu = gpu;
      require_tunnel = tunnel;
      max_ttft = env.max_ttft;
      max_latency = env.max_latency;
      min_tps = env.min_tps;
      excluded_hardware = excluded;
      enabled =
          gpu
          || tunnel
          || not (none_excluded excluded)
          || is_set env.max_ttft
          || is_set env.max_latency
          || is_set env.min_tps;
    }
