-- ===== src/Gateway/Tests.antt =====
-- Publications and heartbeats at concrete inputs, and the theorems at them.
use llama_net.Prelude.{inl, if◌then◌else◌, str_eq, ◌≡◌, refl, true, false, none, some, [], ◌∷◌}
use llama_net.Prelude.Dict
use llama_net.Prelude.Int.{pos, ◌-ℤ◌, ◌+ℤ◌, ◌*ℤ◌}
use llama_net.RateLimit.Limiter.{Request, default_limits, new_limiter, client_ip}
use llama_net.Validate.Requests.{validate_request_body_size}
use llama_net.QualityGate.Hardware.{evaluate_hardware}
use llama_net.NodeAuth.Tokens.{generate_token}
use llama_net.Database.Register.{register_node}
use llama_net.RateLimit.Check.{check_node_publish}
use llama_net.RateLimit.Bucket.{consume}
use llama_net.Validate.Nodes.{v4, Library, validate_node_registration}
use llama_net.NodeAuth.Tokens.{get_token}
use llama_net.Database.State.{empty_manager}
use llama_net.Router.State.{new_router}
use llama_net.Gateway.State.{Publication, World, Gateway}
use llama_net.Gateway.Publish.{token, publish_node, publish_body}
use llama_net.Gateway.Publication.{publish_rows}
use llama_net.Gateway.Departures.{unpublish_node}
use llama_net.Database.Nodes.{no_metrics}
use llama_net.Gateway.Beat.{Heartbeat}
use llama_net.Gateway.Heartbeat.{node_heartbeat}
use llama_net.Gateway.Vetted.{Vetted}
use llama_net.Gateway.Registered.{OneUrl}
use llama_net.Gateway.Steps.{here, next, heartbeat, departure, publication, urls-Vetted}
use llama_net.Gateway.Admitted.{IsAdmitted, published-IsAdmitted}

abbrev visitor : Request
visitor = record {
  x_forwarded_for = "10.0.0.7";
  x_real_ip = "";
  authorization = "";
  client_host = none;
}

abbrev library : Library
library = record {
  urlparse = λ url. some (record {
    scheme = "https";
    hostname = some (if str_eq url "https://8.8.8.8" then "8.8.8.8" else "10.0.0.7");
  });
  ip_address = λ host. some (v4 (if str_eq host "8.8.8.8" then 134744072 else 167772167));
  lower = λ s. s;
}

abbrev world : World
world = record {
  hash = λ id. "h";
  lower = λ s. s;
  library = library;
  gate = record {
    require_gpu = true;
    require_tunnel = true;
    max_ttft = record { num = 0; den = 0 };
    max_latency = record { num = 0; den = 0 };
    min_tps = record { num = 0; den = 0 };
    excluded_hardware = [];
    enabled = true;
  };
  now = 100;
  hex = 48 ∷ 49 ∷ [];
  token_write_fails = false;
}

abbrev gateway : Gateway
unfolding new_limiter new_router
gateway = record {
  limiter = new_limiter default_limits 0;
  manager = empty_manager;
  tokens = record { cache = []; rows = none };
  connections = ("c", []) ∷ [];
  router = new_router 2 (pos 100000);
}

abbrev body : Publication
body = record {
  node_id = some "n1";
  model = some "Llama";
  url = some "";
  tunnel_url = some "https://8.8.8.8";
  ip = none;
  port = some (pos 8000);
  gpu = some "RTX";
  platform = some "Linux";
  ctx_length = some 4096;
  models = none;
  metrics = none;
  probe_metrics = none;
}

issued :
    (publish_node world visitor (λ i. 100) none (some body) gateway []).0
    ≡ token (108 ∷ 110 ∷ 110 ∷ 95 ∷ 48 ∷ 49 ∷ [])
unfolding publish_node publish_body publish_rows gateway new_limiter check_node_publish consume ◌-ℤ◌
    ◌+ℤ◌ ◌*ℤ◌ Dict.get client_ip validate_request_body_size validate_node_registration
    evaluate_hardware generate_token register_node
issued = refl

published-IsAdmitted_example :
    IsAdmitted world visitor (λ i. 100) none body gateway []
    × ((get_token true "h"
          (publish_node world visitor (λ i. 100) none (some body) gateway []).1.tokens).0
        ≡ some (108 ∷ 110 ∷ 110 ∷ 95 ∷ 48 ∷ 49 ∷ []))
published-IsAdmitted_example =
    published-IsAdmitted true world visitor (λ i. 100) none body gateway []
      (108 ∷ 110 ∷ 110 ∷ 95 ∷ 48 ∷ 49 ∷ []) issued

abbrev published : Gateway
unfolding gateway
published = (publish_node world visitor (λ i. 100) none (some body) gateway []).1

abbrev beat : Heartbeat
beat = record {
  node_hash = "h";
  model = some "Llama";
  url = "https://8.8.8.8";
  ip = "";
  metrics = no_metrics;
  models = [];
  ctx_length = 0;
}

body_names_one : OneUrl body
body_names_one = inl refl

urls-Vetted_example :
    Vetted library
      (unpublish_node world
        (some (record { node_id = some "n1"; model = none }))
        (node_heartbeat world visitor (λ i. 200) (some beat) published (false ∷ true ∷ [])).1
        []).1
unfolding published gateway
urls-Vetted_example =
    urls-Vetted world gateway
      (unpublish_node world (some (record { node_id = some "n1"; model = none }))
        (node_heartbeat world visitor (λ i. 200) (some beat) published (false ∷ true ∷ [])).1 []).1
      (next
        (next (next here (publication visitor (λ i. 100) none body [] body_names_one))
          (heartbeat visitor (λ i. 200) (some beat) (false ∷ true ∷ [])))
        (departure (some (record { node_id = some "n1"; model = none })) []))
      tt
