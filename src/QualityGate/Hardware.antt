-- ===== src/QualityGate/Hardware.antt =====
-- `evaluate_hardware` of common/quality_gate.py.
use llama_net.Prelude.{ℕ, Bool, not, ◌&&◌, ◌||◌, List, [], ◌∷◌, ◌++◌, String, any, if◌then◌else◌}
use llama_net.Prelude.Codes.{strip_with, is_prefix, contains, same_text, is_empty}
use llama_net.Prelude.Text.{codes, is_space}
use llama_net.QualityGate.Gate.{Gate}

abbrev pub any_in : List String → List ℕ → Bool
any_in ps s = any (λ p. contains (codes p) s) ps

-- `in ("none", "cpu", "cpu only", "")`
unfoldable pub no_gpu_word : List ℕ → Bool
unfolding same_text codes
no_gpu_word s =
    is_empty s
    || same_text s (codes "none")
    || same_text s (codes "cpu")
    || same_text s (codes "cpu only")

-- The parts of the identifier, from whether there is a text on the GPU, each with its test, in the order in which the set is sorted.
unfoldable pub hardware_parts : Bool → List ℕ → List ℕ → List (String × Bool)
unfolding contains codes no_gpu_word
hardware_parts absent gpu platform =
    let darwin = contains (codes "darwin") platform in
    (
      "apple-silicon",
      any_in ("apple" ∷ "metal" ∷ "m1" ∷ "m2" ∷ "m3" ∷ "m4" ∷ []) gpu
          || darwin && contains (codes "arm64") platform,
    )
    ∷ ("cpu-only", absent || no_gpu_word gpu)
    ∷ (
      "intel-mac",
      contains (codes "intel") gpu
          || contains (codes "intel") platform
          || darwin && contains (codes "x86_64") platform
          || darwin && contains (codes "x86") platform,
    )
    ∷ ("nvidia", any_in ("nvidia" ∷ "cuda" ∷ "geforce" ∷ "rtx" ∷ "gtx" ∷ "a100" ∷ "v100" ∷ []) gpu)
    ∷ ("x86_64-no-gpu", absent || no_gpu_word gpu)
    ∷ []

unfoldable pub present : List (String × Bool) → List String
present [] = []
present ((p, b) ∷ ps) = let rest = present ps in if b then p ∷ rest else rest

-- `",".join(…)`
unfoldable pub join_commas : List String → List ℕ
unfolding codes
join_commas [] = []
join_commas (p ∷ []) = codes p
join_commas (p ∷ q ∷ ps) = codes p ++ 44 ∷ join_commas (q ∷ ps)

abbrev pub or_unknown : List String → List ℕ
or_unknown [] = codes "unknown"
or_unknown (p ∷ ps) = join_commas (p ∷ ps)

unfoldable pub build_hardware_identifier : (List ℕ → List ℕ) → List ℕ → List ℕ → List ℕ
unfolding hardware_parts present join_commas codes
build_hardware_identifier lower gpu platform =
    or_unknown (present (hardware_parts (is_empty gpu) (lower gpu) (lower platform)))

unfoldable pub detect_gpu_presence : (List ℕ → List ℕ) → List ℕ → Bool
unfolding no_gpu_word strip_with is_space
detect_gpu_presence lower gpu =
    not (is_empty gpu) && not (no_gpu_word (strip_with is_space (lower gpu)))

pub record Hardware : Type 0 where
  pub platform : List ℕ
  pub gpu_info : List ℕ
  pub tunnel_url : List ℕ
  pub url : List ℕ

-- `tunnel_url or url`
abbrev pub effective_url : Hardware → List ℕ
effective_url h = if is_empty h.tunnel_url then h.url else h.tunnel_url

pub data HardwareVerdict : Type 0 where
  gate_disabled hardware_passed no_tunnel excluded no_gpu : HardwareVerdict

unfoldable pub evaluate_hardware : (List ℕ → List ℕ) → Gate → Hardware → HardwareVerdict
unfolding is_prefix contains codes build_hardware_identifier detect_gpu_presence
evaluate_hardware lower g h =
    let id = build_hardware_identifier lower h.gpu_info h.platform in
    if not g.enabled
    then gate_disabled
    else if g.require_tunnel && not (is_prefix (codes "http") (effective_url h))
    then no_tunnel
    else if any (λ p. contains p id) g.excluded_hardware
    then excluded
    else if g.require_gpu && not (detect_gpu_presence lower h.gpu_info)
    then no_gpu
    else hardware_passed
