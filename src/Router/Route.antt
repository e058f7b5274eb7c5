-- ===== src/Router/Route.antt =====
-- `route_chat_completion`, `route_completion` and `_forward_request` of gateway/router.py. The two
-- handlers differ in the path that they forward to. `clock` is read four times: for the compute
-- check, in the selection and for the record of the cost.
use Prim.Native.String.{◌++◌}
use mathlib.Core.List.{◌++◌ as append}
use llama_net.Prelude.{
  ℕ, Bool, false, ◌||◌, Option, none, some, List, [], ◌∷◌, String, str_eq, ◌==◌, if◌then◌else◌,
}
use llama_net.Prelude.Text
use llama_net.Prelude.Text.{codes}
use llama_net.Prelude.Int.{ℤ, pos, ◌+ℤ◌}
use llama_net.Json
use llama_net.Json.{Value, null, int, str, arr, obj, bool, Items, nil, cons, Fields, end, field}
use llama_net.Slug.{model_name_to_slug}
use llama_net.Router.State.{
  Node, ModelRouter, World, answer, not_json, timed_out, unreachable, failed, Write, record_tokens,
  deregister, Response, error, json, stream, raised,
}
use llama_net.Router.Select.{select_from}
use llama_net.Router.Budget.{
  estimate_request_cost, estimate_input_tokens, key_hash, check_token_budget, check_compute_budget,
  record_compute_usage, acquire_key_slot, release_key_slot,
}

pub data Endpoint : Type 0 where
  chat completion : Endpoint

abbrev path_of : Endpoint → String
path_of chat = "/v1/chat/completions"
path_of completion = "/v1/completions"

-- `_compute_prefix_hash`, over the list of messages.
unfoldable pub prefix_part : World → Value → List String
unfolding Json.get Json.truthy
prefix_part w (obj f) =
    let role = Json.get_or f "role" (str "") in
    let content = Json.get_or f "content" (str "") in
    if Json.truthy content
    then (elim role [
      | str r ↦
          if str_eq r "system" || str_eq r "user" then (r ++ ":" ++ w.render content) ∷ [] else []
      | _ ↦ []
    ])
    else []
prefix_part w _ = []

unfoldable pub prefix_parts : World → Items → List String
unfolding prefix_part
prefix_parts w nil = []
prefix_parts w (cons v xs) = append (prefix_part w v) (prefix_parts w xs)

unfoldable pub joined : List String → String
joined [] = ""
joined (p ∷ []) = p
joined (p ∷ q ∷ ps) = p ++ "|" ++ joined (q ∷ ps)

-- An outer none is a TypeError: a number or an object has no first three messages.
unfoldable pub compute_prefix_hash : World → Fields → Option (Option String)
unfolding prefix_parts joined Json.get Json.take Json.truthy
compute_prefix_hash w body =
    let messages = Json.get_or body "messages" (arr nil) in
    if Json.truthy messages
    then (elim messages [
      | arr xs ↦ elim (prefix_parts w (Json.take 3 xs)) [
        | [] ↦ some none
        | p ∷ ps ↦ some (some (Text.take 16 (w.sha256 (joined (p ∷ ps)))))
      ]
      | str t ↦ some none
      | _ ↦ none
    ])
    else some none

-- `_track_response_tokens`: a usage that cannot be read is passed over.
unfoldable pub track_response_tokens : Option String → Fields → List Write
unfolding Json.get Json.as_number Json.above
track_response_tokens none sent = []
track_response_tokens (some h) sent = elim (Json.get_or sent "usage" (obj end)) [
  | obj usage ↦
      let total = Json.get_or usage "total_tokens" (int (pos 0)) in
      elim (Json.as_number total) [
        | none ↦ []
        | some x ↦ if Json.above x 0 then record_tokens h total ∷ [] else []
      ]
  | _ ↦ []
]

-- `model_name or node.get("model_name", "unknown")`; a row without a name has "unknown".
abbrev effective_model : Node → String → String
effective_model n model = if str_eq model "" then n.model_name else model

-- `data["node_info"] = …` where the node has sent none.
unfoldable pub with_node_info : Node → String → Fields → Fields
unfolding Json.get
with_node_info n model sent = elim (Json.get sent "node_info") [
  | some v ↦ sent
  | none ↦
      field "node_info"
        (obj (
          field "node_id" (str n.node_hash) (
            field "model" (str (effective_model n model))
              (field "processing_node" (str "routed") end))))
        sent
]

-- `_forward_request`. A node that cannot be reached is taken out of the database.
unfoldable pub forward_request :
    World → String → Fields → Bool → Node → Option String → String → Response × List Write
unfolding track_response_tokens with_node_info
forward_request w url body streamed n key model =
    elim (w.post url body (w.node_token n.node_hash)) [
      | answer status data_sent ↦
          if status == 200
          then (if streamed
              then (stream data_sent n, [])
              else (json (with_node_info n model data_sent) n, track_response_tokens key data_sent))
          else (error status "upstream_error", [])
      | not_json status ↦
          if status == 200
          then (if streamed then (stream end n, []) else (error 502 "bad_gateway", []))
          else (error status "upstream_error", [])
      | timed_out ↦ (error 504 "gateway_timeout", [])
      | unreachable ↦ (error 503 "service_unavailable", deregister n.node_hash ∷ [])
      | failed ↦ (error 502 "bad_gateway", [])
    ]

-- What the handler takes from the body: first what the compute budget needs, then the rest.
pub record Cost : Type 0 where
  pub model : String
  pub max_tokens : ℤ
  pub units : ℤ

pub record Plan : Type 0 where
  pub prefix : Option String
  pub min_ctx : ℤ

abbrev pub model_of : Value → Option String
model_of (str s) = some s
model_of _ = none

-- A strategy that is no text is none of those that the router knows.
abbrev text_or_empty : Value → String
text_or_empty (str s) = s
text_or_empty _ = ""

-- None is an exception: a model that is no text, or a `max_tokens` that is no number. (A float is
-- refused before, by the request validator.)
unfoldable pub request_cost : World → Fields → Option Cost
unfolding Json.get Json.as_int estimate_request_cost
request_cost w body = elim (model_of (Json.get_or body "model" (str ""))) [
  | none ↦ none
  | some model ↦ elim (Json.as_int (Json.get_or body "max_tokens" (int (pos 100)))) [
    | none ↦ none
    | some n ↦ some (record {
      model = model;
      max_tokens = n;
      units = estimate_request_cost w.lower n (codes model);
    })
  ]
]

-- None is an exception: messages or a prompt that cannot be gone through.
unfoldable pub request_plan : World → Fields → ℤ → Option Plan
unfolding Json.get Json.truthy estimate_input_tokens compute_prefix_hash
request_plan w body max_tokens =
    let prefix =
      (if Json.truthy (Json.get_or body "conversation_id" null)
        then compute_prefix_hash w body
        else some none) in
    elim prefix [
      | none ↦ none
      | some p ↦ elim (estimate_input_tokens body) [
        | none ↦ none
        | some input ↦ some (record { prefix = p; min_ctx = pos input +ℤ max_tokens +ℤ pos 256 })
      ]
    ]

-- The end of the `try`: no node, or the forwarded request and the record of its cost.
abbrev pub dispatched :
    World
    → Endpoint
    → Option String
    → Fields
    → Cost
    → ℕ
    → Option Node × ModelRouter
    → Response × ModelRouter × List Write
dispatched w e key body c now (none, s) = (error 503 "no_nodes_available", s, [])
dispatched w e key body c now (some n, s) =
    let streamed = Json.truthy (Json.get_or body "stream" (bool false)) in
    let (r, writes) =
      forward_request w (Text.rstrip_slash n.url ++ path_of e) (Json.without "strategy" body)
        streamed n key c.model in
    (r, record_compute_usage key c.units now s, writes)

unfoldable pub route_planned :
    World
    → (ℕ → ℕ)
    → Endpoint
    → Option String
    → Fields
    → Cost
    → Plan
    → ModelRouter
    → Response × ModelRouter × List Write
route_planned w clock e key body c p s =
    let slug = w.text (model_name_to_slug w.lower (codes c.model)) in
    let strategy = text_or_empty (Json.get_or body "strategy" (str "load_balanced")) in
    dispatched w e key body c (clock 4) (
      select_from slug strategy p.prefix p.min_ctx w.draw (clock 1) (clock 2) (clock 3)
        (w.nodes slug) s)

-- The body of the `try`, with the slot held. `key` is the hash of the API key.
unfoldable pub route_held :
    World
    → (ℕ → ℕ)
    → Endpoint
    → Option String
    → Fields
    → ModelRouter
    → Response × ModelRouter × List Write
route_held w clock e key body s = elim (check_token_budget w key) [
  | some refused ↦ (refused, s, [])
  | none ↦ elim (request_cost w body) [
    | none ↦ (raised, s, [])
    | some c ↦ elim (check_compute_budget key c.units (clock 0) s) [
      | some refused ↦ (refused, s, [])
      | none ↦ elim (request_plan w (Json.without "strategy" body) c.max_tokens) [
        | none ↦ (raised, s, [])
        | some p ↦ route_planned w clock e key body c p s
      ]
    ]
  ]
]

-- The body of a request: no JSON, another value than an object, on which `body.get` raises, or an object.
pub data Body : Type 0 where
  no_json no_object : Body
  object : Fields → Body

-- The handler. The `finally` releases the slot on each way
-- out of the `try`.
unfoldable pub route :
    World
    → (ℕ → ℕ)
    → Endpoint
    → Option String
    → Body
    → ModelRouter
    → Response × ModelRouter × List Write
route w clock e auth no_json s = (error 400 "invalid_json", s, [])
route w clock e auth no_object s = (raised, s, [])
route w clock e auth (object body) s =
    let key = key_hash w auth in
    let (busy, s1) = acquire_key_slot key s in
    elim busy [
      | some refused ↦ (refused, s1, [])
      | none ↦
          let (r, s2, writes) = route_held w clock e key body s1 in
          (r, release_key_slot key s2, writes)
    ]
