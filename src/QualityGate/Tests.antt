-- ===== src/QualityGate/Tests.antt =====
-- Nodes before the gate, and its theorems at concrete inputs.
use llama_net.Prelude.{◌≡◌, ◌↔◌, refl, true, false, [], ◌∷◌}
use llama_net.Prelude.Text.{codes}
use llama_net.Prelude.Int.{pos, ◌*ℤ◌}
use llama_net.Json.{real, ratio, int, bool, Fields, end, field}
use llama_net.QualityGate.Gate.{Gate}
use llama_net.QualityGate.Hardware.{
  Hardware, excluded, evaluate_hardware, build_hardware_identifier,
}
use llama_net.QualityGate.Metrics.{metrics_passed, too_weak, tps, evaluate_metrics}
use llama_net.QualityGate.Admits.{Meets, evaluate_metrics-Meets}

abbrev strict : Gate
strict = record {
  require_gpu = true;
  require_tunnel = false;
  max_ttft = record { num = 3; den = 1 };
  max_latency = record { num = 0; den = 0 };
  min_tps = record { num = 20; den = 0 };
  excluded_hardware = codes "cpu-only" ∷ [];
  enabled = true;
}

-- 1.25 s to the first token, 18 tokens a second.
abbrev measured : Fields
measured = field "probe_success" (bool true) (
    field "ttft" (real (ratio (pos 125) 99))
      (field "completion_tokens" (int (pos 30)) (field "tps" (int (pos 18)) end)))

too_slow_a_node : evaluate_metrics strict measured ≡ too_weak (tps ∷ [])
unfolding evaluate_metrics ◌*ℤ◌
too_slow_a_node = refl

evaluate_metrics-Meets_example :
    (evaluate_metrics strict measured ≡ metrics_passed) ↔ Meets strict measured
evaluate_metrics-Meets_example = evaluate_metrics-Meets strict measured refl

abbrev laptop : Hardware
laptop = record { platform = codes "linux"; gpu_info = []; tunnel_url = []; url = [] }

no_gpu_named :
    build_hardware_identifier (λ s. s) [] (codes "linux") ≡ codes "cpu-only,x86_64-no-gpu"
unfolding build_hardware_identifier
no_gpu_named = refl

laptop_excluded : evaluate_hardware (λ s. s) strict laptop ≡ excluded
unfolding evaluate_hardware
laptop_excluded = refl
