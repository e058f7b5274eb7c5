-- ===== src/Database/Tests.antt =====
-- Runs of the database's methods, and the theorems at them.
use llama_net.Prelude.{none, ◌+◌, ◌≡◌, refl, Bool, true, false, some, List, [], ◌∷◌, ltb, All}
use llama_net.Prelude.Text.{codes}
use llama_net.Prelude.Dict
use llama_net.Database.Keys.{validate_api_key, revoke_api_key}
use llama_net.Database.Revoked.{revoked-is_refused}
use llama_net.Database.Usage.{IsCharged, charges, record_all, recorded-usage}
use llama_net.Database.State.{KeyRow, counts, NodeRow, ModelRow, Manager, empty_manager}
use llama_net.Database.Calls.{execute, returned}
use llama_net.Database.Tokens.{add_cumulative_tokens, accumulate_departing}
use llama_net.Database.Models.{Reported, no_gauges, model_row}
use llama_net.Database.Nodes.{no_metrics, retire_node, deregister_node}
use llama_net.Database.Register.{Registration, register_node}
use llama_net.Database.Routing.{Routed, IsOther, get_nodes_for_model, deregistered-IsOther}
use llama_net.Database.Ledger.{
  Event, report, depart, account, account_all, enter_all, accounted, counter,
}
use llama_net.Database.Totals.{running_of, account_all-generated}

abbrev two_nodes : List Event
two_nodes = report "a" 1 5 ∷ report "b" 0 4 ∷ report "a" 2 7 ∷ report "a" 1 2 ∷ depart "a" ∷ []

-- A node that generates 5 tokens and 7, restarts and generates 2, and departs; another that reports 4.
account_all-generated_example :
    accounted (account_all two_nodes empty_manager []).1
    ≡ accounted empty_manager
      + (enter_all two_nodes (record { running = []; generated = 0 })).generated
unfolding running_of
account_all-generated_example =
    account_all-generated two_nodes empty_manager (record { distinct = tt; counted = tt })

thirteen : accounted (account_all two_nodes empty_manager []).1 ≡ 13
unfolding account_all account Dict.get Dict.put Dict.pop
thirteen = refl

-- A failed reading of a counter makes it start again from 0.
abbrev counted : Manager
counted = record empty_manager { statistics = ("cumulative_completion_tokens", 100) ∷ [] }

counter_lost :
    counter "cumulative_completion_tokens" (add_cumulative_tokens 0 3 counted (false ∷ true ∷ [])).1
    ≡ 3
unfolding add_cumulative_tokens Dict.get Dict.put
counter_lost = refl

abbrev node_row : NodeRow
node_row = record {
  user_id = "u";
  url = "http://a";
  ip = "";
  port = 8000;
  gpu_info = "";
  gauges = no_gauges;
  total_tokens = 12;
  prompt_tokens = 2;
  completion_tokens = 10;
  ctx_length = 4096;
  is_active = true;
  last_heartbeat = 0;
}

abbrev llama_row : ModelRow
llama_row = record {
  node_hash = "a";
  model_name = codes "Llama";
  model_slug = codes "llama";
  ctx_length = 4096;
  is_active = true;
  is_evicted = false;
  gauges = no_gauges;
  total_tokens = 12;
  prompt_tokens = 2;
  completion_tokens = 10;
}

abbrev one_node : Manager
one_node = record empty_manager {
  token_cache = ("a", counts 2 10) ∷ [];
  nodes = ("a", node_row) ∷ [];
  node_models = llama_row ∷ [];
}

abbrev restarted : Registration
unfolding codes
restarted = record {
  user_id = "u";
  node_hash = "a";
  model_name = codes "Llama";
  model_slug = codes "llama";
  url = "http://a";
  ip = "";
  port = 8000;
  gpu_info = "";
  metrics = no_metrics;
  ctx_length = 4096;
  models_list = [];
}

-- A node with 10 completion tokens restarts and registers with none: 10 are taken over as completion
-- tokens of the old process, and then the 12 of its row once more.
counted_twice :
    counter "cumulative_completion_tokens" (register_node (λ s. s) 9 restarted one_node []).1 ≡ 22
unfolding register_node Dict.get Dict.put Dict.pop codes restarted
counted_twice = refl

-- A model whose row stands at 12 tokens is written with what the node reports now, not the larger.
abbrev fresh : Reported
fresh = record {
  name = codes "Llama";
  ctx_length = 4096;
  gauges = no_gauges;
  total_tokens = some 3;
  prompt_tokens = some 1;
  completion_tokens = some 2;
}

total_overwritten : (model_row (λ s. s) "a" [] true (llama_row ∷ []) fresh).total_tokens ≡ 3
unfolding model_row codes
total_overwritten = refl

abbrev first_less : Routed → Routed → Bool
first_less a b = ltb a.ctx_length b.ctx_length

deregistered : (deregister_node "a" one_node (false ∷ true ∷ [])).0 ≡ returned true
unfolding deregister_node accumulate_departing retire_node Dict.get Dict.put Dict.pop
deregistered = refl

deregistered-IsOther_example :
    (found : List Routed) × ((get_nodes_for_model first_less
        (codes "llama")
        (deregister_node "a" one_node (false ∷ true ∷ [])).1
        []).0
      ≡ returned found)
    × All (IsOther "a") found
deregistered-IsOther_example =
    deregistered-IsOther first_less "a" (codes "llama") one_node (false ∷ true ∷ []) [] deregistered

abbrev own_row : KeyRow
unfolding codes
own_row = record {
  id = "7";
  user_id = "u";
  key_hash = "h";
  key_prefix = codes "ln-0...";
  name = "default";
  is_active = true;
  last_used = none;
}

abbrev one_key : Manager
one_key = record empty_manager { api_keys = own_row ∷ [] }

revoked : (revoke_api_key "u" "7" one_key []).0 ≡ returned true
unfolding revoke_api_key execute own_row
revoked = refl

revoked-is_refused_example :
    (validate_api_key 5 "h" (revoke_api_key "u" "7" one_key []).1 (false ∷ [])).0 ≡ returned none
unfolding own_row
revoked-is_refused_example =
    revoked-is_refused 5 "u" "7" "h" one_key [] (false ∷ []) (record { own = λ e. refl }, tt)
      revoked

-- A charge whose reading raises is lost.
recorded-usage_example :
    IsCharged "h" "2025-01-01" 12 empty_manager
      (false ∷ false ∷ true ∷ [])
      (record_all "2025-01-01" (("h", 5) ∷ ("h", 7) ∷ []) empty_manager (false ∷ false ∷ true ∷ []))
unfolding charges
recorded-usage_example =
    recorded-usage "h" "2025-01-01" (("h", 5) ∷ ("h", 7) ∷ []) empty_manager
      (false ∷ false ∷ true ∷ [])
