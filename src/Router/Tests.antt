-- ===== src/Router/Tests.antt =====
-- Runs of gateway/router.py, and its theorems at concrete inputs.
use llama_net.Prelude.{
  some_inj, ℕ, ◌≡◌, ◌≢◌, refl, sym, ◌∙◌, subst, eq_iff, if◌then◌else◌, Option, none, some, All,
  List, [], ◌∷◌, String, str_eq, arith,
}
use llama_net.Prelude.Dict
use llama_net.Prelude.Dict.{Distinct}
use llama_net.Prelude.Int.{pos, ◌≤ℤ◌, ◌+ℤ◌, ◌*ℤ◌}
use llama_net.Json
use llama_net.Json.{str, int, arr, obj, nil, cons, Fields, end, field}
use llama_net.Router.State.{Node, ModelRouter, new_router, record_tokens, World, answer}
use llama_net.Router.Select.{expired_keys, select_from, context_filter, affinity_node}
use llama_net.Router.Selection.{Suits, select-Suits}
use llama_net.Router.Sticky.{Selection, selected, after_selections, Elsewhere, sticky_reuse}
use llama_net.Router.Budget.{
  check_token_budget, estimate_input_tokens, check_compute_budget, record_compute_usage,
  acquire_key_slot, release_key_slot, key_hash, estimate_request_cost,
}
use llama_net.Router.Route.{
  object, track_response_tokens, chat, Cost, request_cost, request_plan, forward_request,
  route_planned, route_held, route,
}
use llama_net.Router.Slots.{inflight, route_returns_slot}
use llama_net.Router.Interleaving.{Gateway, take_slot, here, next, Accounted, slots_bounded}
use llama_net.Router.Spending.{Solvent, route_keeps_budget}

abbrev small_node : Node
small_node = record {
  node_hash = "a";
  url = "http://a/";
  ctx_length = 2048;
  model_name = "llama-7b";
  load = 7;
}

abbrev large_node : Node
large_node = record {
  node_hash = "b";
  url = "http://b";
  ctx_length = 8192;
  model_name = "llama-7b";
  load = 9;
}

-- One slot for a key, and 1000.00 compute units an hour.
abbrev started : ModelRouter
unfolding new_router
started = new_router 1 (pos 100000)

abbrev reply : Fields
reply = field "usage" (obj (field "total_tokens" (int (pos 12)) end)) end

abbrev world : World
world = record {
  sha256 = λ s. s;
  render = λ v. "";
  lower = λ s. s;
  text = λ s. "llama-7b";
  nodes = λ slug. small_node ∷ large_node ∷ [];
  tokens_consumed = λ h. 0;
  daily_token_budget = 1000;
  node_token = λ h. none;
  post = λ url body token. answer 200 reply;
  draw = 0;
}

-- A chat of one message, which may take 4000 tokens of a 7b model: 80.00 units.
abbrev asked : Fields
asked = field "model" (str "llama-7b") (
    field "max_tokens" (int (pos 4000)) (
      field "messages"
        (arr (cons (obj (field "role" (str "user") (field "content" (str "hello") end))) nil)) end))

cost_of_asked :
    request_cost world asked
    ≡ some (record { model = "llama-7b"; max_tokens = pos 4000; units = pos 8000 })
unfolding request_cost Json.get Json.as_int estimate_request_cost ◌*ℤ◌
cost_of_asked = refl

cost_not_negative : (c : Cost) → request_cost world asked ≡ some c → pos 0 ≤ℤ c.units
cost_not_negative c q =
    let e = some_inj (sym cost_of_asked ∙ q) in
    subst (λ (x : Cost). pos 0 ≤ℤ x.units) e (omega arith)

clock : ℕ → ℕ
clock i = i

-- Of two nodes for a request of 4257 tokens, the one with the longer context.
fitting :
    (select_from "llama-7b" "load_balanced" none
      (pos 4257)
      0
      0
      0
      0
      (small_node ∷ large_node ∷ [])
      started).0
    ≡ some large_node
unfolding select_from
fitting = refl

select-Suits_example :
    ((select_from "llama-7b" "load_balanced" none (pos 4257) 0 0 0 0 [] started).0 ≡ none)
    × ((n : Node) (ns : List Node)
        → (m : Node) × ((select_from "llama-7b" "load_balanced" none
              (pos 4257)
              0
              0
              0
              0
              (n ∷ ns)
              started).0
            ≡ some m)
          × Suits (pos 4257) (n ∷ ns) m)
select-Suits_example = select-Suits "llama-7b" "load_balanced" none (pos 4257) 0 0 0 0 started

abbrev first_selection : Selection
first_selection = record {
  slug = "llama-7b";
  strategy = "load_balanced";
  prefix = some "p";
  min_ctx = pos 300;
  draw = 0;
  swept = 0;
  used = 0;
  tied = 0;
  rows = small_node ∷ large_node ∷ [];
}

-- Another conversation, and a request without one.
abbrev others : List Selection
others =
    record first_selection { prefix = some "q"; swept = 500; used = 500; tied = 500 }
    ∷ record first_selection { prefix = none; swept = 600; used = 600; tied = 600 }
    ∷ []

tied_before : (selected first_selection started).0 ≡ some small_node
unfolding selected select_from Dict.get Dict.pop_all expired_keys started
tied_before = refl

-- Its load has become the higher one.
abbrev busy_node : Node
busy_node = record small_node { load = 20 }

still_among :
    affinity_node (pos 300) "a" (context_filter (pos 300) (large_node ∷ busy_node ∷ []))
    ≡ some busy_node
unfolding affinity_node context_filter
still_among = refl

p_not_empty : ◌≢◌ {A = String} "p" ""
p_not_empty e = absurd (ground (arith, eq_iff "p" "", e))

other_prefix : ◌≢◌ {A = Option String} (some "q") (some "p")
other_prefix e = absurd (ground (arith, eq_iff "q" "p", some_inj e))

no_prefix : ◌≢◌ {A = Option String} none (some "p")
no_prefix e = absurd (ground (arith, e))

others-Elsewhere : All (Elsewhere "p" 0 0) others
others-Elsewhere = (
  record { other = other_prefix; soon_used = omega arith; soon_tied = omega arith },
  (record { other = no_prefix; soon_used = omega arith; soon_tied = omega arith }, tt),
)

sticky_reuse_example :
    (◌≡◌ {A = String} "a" "a")
    × ((select_from "llama-7b" "random"
          (some "p")
          (pos 300)
          0
          1000
          1000
          1000
          (large_node ∷ busy_node ∷ [])
          (after_selections others (selected first_selection started).1)).0
        ≡ some busy_node)
unfolding started
sticky_reuse_example =
    sticky_reuse first_selection "p" started small_node others "llama-7b" "random" (pos 300) 0 1000
      1000 1000 large_node (busy_node ∷ []) busy_node tt p_not_empty refl tied_before
      others-Elsewhere (omega arith) (omega arith) still_among

route_returns_slot_example :
    inflight (route world clock chat (some "ln-1") (object asked) started).1 "ln-1"
    ≡ inflight started "ln-1"
route_returns_slot_example =
    route_returns_slot world clock chat (some "ln-1") (object asked) started "ln-1"

nothing_spent : Solvent (pos 100000) 0 started
unfolding Dict.get started
nothing_spent = record { same_budget = refl; entries = λ h e q. absurd (cc) }

route_keeps_budget_example :
    Solvent (pos 100000) 4 (route world clock chat (some "ln-1") (object asked) started).1
unfolding clock
route_keeps_budget_example =
    route_keeps_budget world clock chat (pos 100000) (omega arith) (some "ln-1") asked started
      cost_not_negative nothing_spent

abbrev idle_gateway : Gateway
idle_gateway = record { router = started; holding = λ k. 0 }

abbrev one_held : ModelRouter
one_held = record started { key_inflight = ("ln-1", 1) ∷ [] }

slots_bounded_example :
    Accounted 1 (record { router = one_held; holding = λ k. if str_eq "ln-1" k then 1 else 0 })
unfolding acquire_key_slot Dict.get Dict.put started
slots_bounded_example =
    slots_bounded {g = idle_gateway} refl (λ k. refl)
      (next here (take_slot idle_gateway "ln-1" one_held refl))

-- The whole handler: the answer of the longer node, the tokens written, and the cost on record.
asked_long :
    let (r, s, writes) = route world clock chat (some "ln-1") (object asked) started in
    (s.key_hourly_compute ≡ ("ln-1", record { hour = 0; used = pos 8000 }) ∷ [])
    × (writes ≡ record_tokens "ln-1" (int (pos 12)) ∷ [])
unfolding Json.get Json.without Json.as_int Json.as_number Json.truthy estimate_request_cost
    request_cost request_plan forward_request route_planned route_held route acquire_key_slot
    release_key_slot check_compute_budget record_compute_usage key_hash select_from clock started
    check_token_budget estimate_input_tokens track_response_tokens ◌*ℤ◌ ◌+ℤ◌ Dict.get Dict.put
asked_long = (refl, refl)
