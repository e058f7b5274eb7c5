-- ===== src/Validate/Tests.antt =====
-- Requests and URLs that the validator looks at, and its theorems at concrete inputs.
use llama_net.Prelude.{◌*◌, ◌≡◌, refl, none, some, [], str_eq, arith, if◌then◌else◌}
use llama_net.Prelude.Dict
use llama_net.Prelude.Int.{pos, ◌≤ℤ◌, ◌*ℤ◌}
use llama_net.Json
use llama_net.Json.{str, int, arr, obj, nil, cons, Fields, end, field}
use llama_net.Router.State.{World, unreachable, ModelRouter, new_router}
use llama_net.Router.Budget.{estimate_request_cost}
use llama_net.Router.Route.{object, chat, request_cost, route}
use llama_net.Router.Spending.{Solvent}
use llama_net.Validate.Checks.{passed}
use llama_net.Validate.Requests.{validate_chat_request}
use llama_net.Validate.Accepted.{GoodChat, validate_chat_request-GoodChat}
use llama_net.Validate.Costs.{accepted_cost, accepted_keeps_budget}
use llama_net.Validate.Nodes.{v4, Library, private_range, validate_node_url}

abbrev asked : Fields
asked = field "model" (str "llama-7b") (
    field "max_tokens" (int (pos 16384)) (
      field "messages"
        (arr (cons (obj (field "role" (str "user") (field "content" (str "hello") end))) nil)) end))

asked_passes : validate_chat_request asked ≡ passed
unfolding validate_chat_request
asked_passes = refl

validate_chat_request-GoodChat_example : GoodChat asked
validate_chat_request-GoodChat_example = validate_chat_request-GoodChat asked asked_passes

abbrev world : World
world = record {
  sha256 = λ s. s;
  render = λ v. "";
  lower = λ s. s;
  text = λ s. "llama-7b";
  nodes = λ slug. [];
  tokens_consumed = λ h. 0;
  daily_token_budget = 1000;
  node_token = λ h. none;
  post = λ url body token. unreachable;
  draw = 0;
}

cost_of_asked :
    request_cost world asked
    ≡ some (record { model = "llama-7b"; max_tokens = pos 16384; units = pos 32768 })
unfolding request_cost Json.get Json.as_int estimate_request_cost ◌*ℤ◌
cost_of_asked = refl

accepted_cost_example : (pos 1 ≤ℤ pos 32768) × (pos 32768 ≤ℤ pos (16384 * 8))
accepted_cost_example =
    accepted_cost world asked
      (record { model = "llama-7b"; max_tokens = pos 16384; units = pos 32768 }) asked_passes
      cost_of_asked

abbrev started : ModelRouter
unfolding new_router
started = new_router 1 (pos 100000)

nothing_spent : Solvent (pos 100000) 0 started
unfolding Dict.get started
nothing_spent = record { same_budget = refl; entries = λ h e q. absurd (ground (arith, q)) }

accepted_keeps_budget_example :
    Solvent (pos 100000) 4 (route world (λ i. i) chat (some "ln-1") (object asked) started).1
accepted_keeps_budget_example =
    accepted_keeps_budget world (λ i. i) (pos 100000) (some "ln-1") asked started (omega arith)
      asked_passes nothing_spent

-- 8.8.8.8, or else 10.0.0.7
abbrev library : Library
library = record {
  urlparse = λ url. some (record {
    scheme = "https";
    hostname = some (if str_eq url "https://8.8.8.8" then "8.8.8.8" else "10.0.0.7");
  });
  ip_address = λ host. some (v4 (if str_eq host "8.8.8.8" then 134744072 else 167772167));
  lower = λ s. s;
}

private_refused : validate_node_url library "https://10.0.0.7" ≡ private_range
unfolding validate_node_url
private_refused = refl
