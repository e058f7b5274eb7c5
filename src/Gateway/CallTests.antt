-- ===== src/Gateway/CallTests.antt =====
-- A chat request at the gateway, and the theorems at it.
use llama_net.Prelude.{◌≡◌, refl, true, none, some, [], ◌∷◌}
use llama_net.Prelude.Dict
use llama_net.Prelude.Text
use llama_net.Prelude.Int.{pos, ◌-ℤ◌, ◌+ℤ◌, ◌*ℤ◌}
use llama_net.Json
use llama_net.Json.{str, int, arr, obj, nil, cons, Fields, end, field}
use llama_net.RateLimit.Limiter.{default_limits, new_limiter, client_ip, auth_key}
use llama_net.RateLimit.Check.{check_rate_limit}
use llama_net.RateLimit.Bucket.{consume}
use llama_net.Validate.Requests.{validate_request_body_size, validate_chat_request}
use llama_net.Database.State.{empty_manager}
use llama_net.Database.Calls.{execute}
use llama_net.Database.Keys.{get_user, validate_api_key, get_token_usage, find_use}
use llama_net.Router.State.{new_router, answer, json, Response}
use llama_net.Router.Route.{
  chat, route, route_held, request_cost, request_plan, route_planned, forward_request,
}
use llama_net.Router.Budget.{acquire_key_slot, key_hash, check_token_budget, check_compute_budget}
use llama_net.Router.Select.{select_from}
use llama_net.Gateway.Auth.{get_current_user}
use llama_net.Gateway.State.{Gateway}
use llama_net.Gateway.Completions.{Surroundings, Call, routed, served, authorized, complete}
use llama_net.Gateway.Permitted.{IsPermitted, routed-IsPermitted}

abbrev gateway : Gateway
unfolding new_limiter new_router
gateway = record {
  limiter = new_limiter default_limits 0;
  manager = record empty_manager {
    users = ("u", record { email = "a@b.c"; full_name = "" }) ∷ [];
    api_keys =
        record {
          id = "1";
          user_id = "u";
          key_hash = "ln-1";
          key_prefix = [];
          name = "default";
          is_active = true;
          last_used = none;
        }
        ∷ [];
  };
  tokens = record { cache = []; rows = none };
  connections = [];
  router = new_router 1 (pos 100000);
}

abbrev reply : Fields
reply =
    field "node_info" (str "n") (field "usage" (obj (field "total_tokens" (int (pos 12)) end)) end)

abbrev surroundings : Surroundings
surroundings = record {
  identities = record { identify = λ t. none; sha256 = λ s. s; now = 100 };
  routing = record {
    sha256 = λ s. s;
    render = λ v. "";
    lower = λ s. s;
    text = λ s. "llama-7b";
    nodes = λ slug.
        record {
          node_hash = "a";
          url = "http://a";
          ctx_length = 8192;
          model_name = "llama-7b";
          load = 7;
        }
        ∷ [];
    tokens_consumed = λ h. 0;
    daily_token_budget = 1000;
    node_token = λ h. none;
    post = λ url body token. answer 200 reply;
    draw = 0;
  };
  today = "2025-01-01";
  clock = λ i. 100;
  routing_clock = λ i. 100;
}

abbrev call : Call
call = record {
  request = record {
    x_forwarded_for = "10.0.0.7";
    x_real_ip = "";
    authorization = "Bearer ln-1";
    client_host = none;
  };
  session = "";
  content_length = some (pos 120);
  body = some (
      field "model" (str "llama-7b") (
        field "max_tokens" (int (pos 4000)) (
          field "messages"
            (arr (cons (obj (field "role" (str "user") (field "content" (str "hello") end))) nil))
            end)));
}

abbrev chosen : Response
chosen = json reply (record {
  node_hash = "a";
  url = "http://a";
  ctx_length = 8192;
  model_name = "llama-7b";
  load = 7;
})

answered : (complete surroundings chat call gateway []).0 ≡ routed chosen
unfolding complete authorized served route get_current_user get_user validate_api_key
    get_token_usage find_use execute check_rate_limit consume ◌-ℤ◌ ◌+ℤ◌ ◌*ℤ◌ Dict.get client_ip
    auth_key new_limiter new_router validate_request_body_size validate_chat_request Json.get
    Json.truthy Text.strip gateway Text.drop acquire_key_slot key_hash route_held check_token_budget
    request_cost check_compute_budget request_plan Json.without route_planned select_from
    forward_request
answered = refl

routed-IsPermitted_example : IsPermitted surroundings chat call gateway [] chosen
routed-IsPermitted_example = routed-IsPermitted surroundings chat call gateway [] chosen answered
