-- ===== src/Gateway/Publication.antt =====
-- The calls of the database that `publish_node` of gateway/server.py makes.
use llama_net.Prelude.{
  ◌&&◌, ℕ, Bool, true, false, Option, none, some, List, [], ◌∷◌, String, str_eq, if◌then◌else◌, map,
}
use llama_net.Prelude.Dict
use llama_net.Prelude.Int.{ℤ, pos}
use llama_net.Prelude.Text.{codes}
use llama_net.Json
use llama_net.Json.{Value, str, int, arr, obj, bool, nil, Fields, end, field}
use llama_net.Slug.{model_name_to_slug}
use llama_net.QualityGate.Hardware.{Hardware, HardwareVerdict, gate_disabled, hardware_passed}
use llama_net.QualityGate.Metrics.{
  MetricsVerdict, metrics_disabled, metrics_passed, metrics_type_error, evaluate_metrics,
}
use llama_net.Database.State.{User, Gauges}
use llama_net.Database.Calls.{raised, Method, pure, ◌>>=◌, ◌>>◌, catch, execute, select, write}
use llama_net.Database.Models.{Listed, described, no_gauges}
use llama_net.Database.Nodes.{Metrics, no_metrics, update_node_metrics, deregister_node}
use llama_net.Database.Register.{Registration, register_node}
use llama_net.Gateway.State.{Announced, Publication, text_or, World, by_name, by_object}

abbrev pub hardware_of : Publication → Hardware
hardware_of p = record {
  platform = codes (text_or "" p.platform);
  gpu_info = codes (text_or "" p.gpu);
  tunnel_url = codes (text_or "" p.tunnel_url);
  url = codes (text_or "" p.url);
}

abbrev pub hardware_admits : HardwareVerdict → Bool
hardware_admits gate_disabled = true
hardware_admits hardware_passed = true
hardware_admits _ = false

-- `tunnel_url or body.get("url", "")`
abbrev pub published_url : Publication → String
published_url p =
    if str_eq (text_or "" p.tunnel_url) "" then text_or "" p.url else text_or "" p.tunnel_url

abbrev pub count_of : Option ℕ → ℕ
count_of none = 0
count_of (some n) = n

abbrev pub own_model : Publication → Listed
own_model p = described (record {
  name = codes (text_or "unknown" p.model);
  ctx_length = count_of p.ctx_length;
  gauges = no_gauges;
  total_tokens = none;
  prompt_tokens = none;
  completion_tokens = none;
})

-- A name alone, as an object with the context length 0.
abbrev pub normalized : Announced → Listed
normalized (by_name name) = described (record {
  name = name;
  ctx_length = 0;
  gauges = no_gauges;
  total_tokens = none;
  prompt_tokens = none;
  completion_tokens = none;
})
normalized (by_object m) = described m

abbrev pub models_of : Publication → List Listed
models_of p = elim p.models [
  | none ↦ own_model p ∷ []
  | some ls ↦ elim ls [ [] ↦ own_model p ∷ [] | l ∷ more ↦ map normalized (l ∷ more) ]
]

abbrev pub metrics_of : Publication → Metrics
metrics_of p = elim p.metrics [ none ↦ no_metrics | some m ↦ m ]

abbrev pub system_user_id : String
system_user_id = "00000000-0000-0000-0000-000000000000"

-- `int` of a port that the validator has let through
abbrev pub port_number : Option ℤ → ℕ
port_number none = 8000
port_number (some (pos n)) = n
port_number (some _) = 0

abbrev pub registration : World → Publication → String → Registration
registration w p id = record {
  user_id = system_user_id;
  node_hash = w.hash id;
  model_name = codes (text_or "unknown" p.model);
  model_slug = model_name_to_slug w.lower (codes (text_or "unknown" p.model));
  url = published_url p;
  ip = text_or "" p.ip;
  port = port_number p.port;
  gpu_info = text_or "" p.gpu;
  metrics = metrics_of p;
  ctx_length = count_of p.ctx_length;
  models_list = models_of p;
}

-- The user under whose id public nodes are registered.
abbrev pub add_system_user : Option User → Method (Unit {0})
add_system_user (some u) = pure tt
add_system_user none = write (λ m. record m {
  users =
      Dict.put m.users system_user_id
        (record { email = "system@llamanet.app"; full_name = "LlamaNet System" });
})

unfoldable pub ensure_system_user : Method (Unit {0})
unfolding execute Dict.get Dict.put
ensure_system_user =
    catch (catch (select (λ m. Dict.get m.users system_user_id)) (pure none) >>= add_system_user)
      (pure tt)

-- How the probe of a node ends, if it comes with one.
pub data Probed : Type 0 where
  kept weak : Probed

abbrev pub probe_gauges : Fields → Gauges
probe_gauges f = record {
  load = none;
  tps = some (Json.get_or f "tps" (int (pos 0)));
  ttft = some (Json.get_or f "ttft" (int (pos 0)));
  latency = some (Json.get_or f "latency" (int (pos 0)));
  uptime = none;
}

abbrev pub probe_succeeded : Fields → Bool
probe_succeeded f = Json.truthy (Json.get_or f "probe_success" (bool false))

abbrev pub raise : {A : Type 0} → Method A
raise m s = (raised, m, s)

-- A measure that the log writes with digits behind the point: on what is no number, null included, this
-- raises. (An integer beyond the floats is left out.)
abbrev pub is_written : Fields → String → Bool
is_written f k = elim (Json.as_number (Json.get_or f k (int (pos 0)))) [
  | none ↦ false
  | some x ↦ true
]

abbrev pub are_written : Fields → Bool
are_written f = is_written f "ttft" && (is_written f "latency" && is_written f "tps")

-- The log's lines are written from the measures: after the update, and before a rejection.
unfoldable pub keep_probe : World → String → Fields → Method Probed
unfolding update_node_metrics Json.get Json.as_number
keep_probe w hash f =
    update_node_metrics w.lower w.now hash (record no_metrics { gauges = probe_gauges f })
    >> (if are_written f then pure kept else raise)

unfoldable pub judge_probe : World → String → Fields → MetricsVerdict → Method Probed
unfolding keep_probe deregister_node Json.get Json.as_number
judge_probe w hash f metrics_passed = keep_probe w hash f
judge_probe w hash f metrics_disabled = keep_probe w hash f
judge_probe w hash f metrics_type_error = raise
judge_probe w hash f _ = if are_written f then (deregister_node hash >> pure weak) else raise

unfoldable pub probe : World → String → Option Fields → Method Probed
unfolding judge_probe keep_probe evaluate_metrics Json.get Json.truthy
probe w hash none = pure kept
probe w hash (some f) =
    if probe_succeeded f
    then (if w.gate.enabled
        then judge_probe w hash f (evaluate_metrics w.gate f)
        else keep_probe w hash f)
    else pure kept

-- The calls of the database that a publication makes.
unfoldable pub publish_rows : World → Publication → String → Method Probed
unfolding ensure_system_user execute register_node model_name_to_slug codes probe
publish_rows w p id = do
  ensure_system_user
  existing ← select (λ m. Dict.has m.nodes (w.hash id))
  register_node w.lower w.now (registration w p id)
  probe w (w.hash id) p.probe_metrics
