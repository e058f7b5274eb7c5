-- ===== src/Router/Budget.antt =====
-- The budgets of gateway/router.py: what a request is reckoned to cost, the slots of a key, the
-- daily tokens and the hourly compute units.
use llama_net.Prelude.{
  ℕ, ◌*◌, ◌+◌, ◌-◌, ◌/◌, max, Option, none, some, List, [], ◌∷◌, String, count, str_eq, leb, ◌==◌,
  if◌then◌else◌,
}
use llama_net.Prelude.Codes.{contains}
use llama_net.Prelude.Dict
use llama_net.Prelude.Dict.{Dict}
use llama_net.Prelude.Text.{codes}
use llama_net.Prelude.Int.{ℤ, pos, ◌+ℤ◌, ◌*ℤ◌, ltb_ℤ}
use llama_net.Json
use llama_net.Json.{Value, str, arr, obj, Items, nil, cons, Fields}
use llama_net.Router.State.{second, Hour, ModelRouter, World, Response, error}

-- `_MODEL_SIZE_TIERS`
abbrev pub model_size_tiers : List (String × ℕ)
model_size_tiers =
    ("35b", 8)
    ∷ ("32b", 8)
    ∷ ("30b", 8)
    ∷ ("27b", 8)
    ∷ ("24b", 8)
    ∷ ("20b", 6)
    ∷ ("14b", 4)
    ∷ ("13b", 4)
    ∷ ("12b", 4)
    ∷ ("11b", 4)
    ∷ ("8b", 2)
    ∷ ("7b", 2)
    ∷ ("6b", 2)
    ∷ ("3b", 1)
    ∷ ("2b", 1)
    ∷ ("1b", 1)
    ∷ ("0.5b", 1)
    ∷ []

unfoldable pub multiplier_in : List (String × ℕ) → List ℕ → ℕ
unfolding contains codes
multiplier_in [] name = 2
multiplier_in ((pattern_text, m) ∷ tiers) name =
    if contains (codes pattern_text) name then m else multiplier_in tiers name

-- In hundredths of a compute unit, where the source divides by 100.0.
unfoldable pub estimate_request_cost : (List ℕ → List ℕ) → ℤ → List ℕ → ℤ
unfolding multiplier_in
estimate_request_cost lower max_tokens name =
    max_tokens *ℤ pos (multiplier_in model_size_tiers (lower name))

-- `len(" ".join(prompt))`; none is a TypeError.
unfoldable pub joined_length : Items → Option ℕ
joined_length nil = some 0
joined_length (cons (str s) nil) = some (count s)
joined_length (cons (str s) (cons w xs)) = elim (joined_length (cons w xs)) [
  | none ↦ none
  | some n ↦ some (count s + 1 + n)
]
joined_length (cons _ xs) = none

-- The characters of the contents that are texts.
unfoldable pub content_chars : Items → ℕ
content_chars nil = 0
content_chars (cons (obj f) xs) = elim (Json.get_or f "content" (str "")) [
  | str s ↦ count s + content_chars xs
  | _ ↦ content_chars xs
]
content_chars (cons _ xs) = content_chars xs

unfoldable pub length_of : Value → Option ℕ
unfolding joined_length Json.size
length_of (str s) = some (count s)
length_of (arr xs) = joined_length xs
length_of (obj f) = some (Json.size f)
length_of _ = none

-- `_estimate_input_tokens`. A text or an object in place of the messages holds no message.
unfoldable pub estimate_input_tokens : Fields → Option ℕ
unfolding length_of content_chars Json.get Json.truthy
estimate_input_tokens body =
    let messages = Json.get_or body "messages" (arr nil) in
    if Json.truthy messages
    then (elim messages [
      | arr xs ↦ some (max 1 (content_chars xs / 4))
      | str s ↦ some 1
      | obj f ↦ some 1
      | _ ↦ none
    ])
    else (elim (length_of (Json.get_or body "prompt" (str ""))) [
      | none ↦ none
      | some n ↦ some (max 1 (n / 4))
    ])

-- `if not auth_key`, then the hash under which the tables keep the key.
unfoldable pub key_hash : World → Option String → Option String
key_hash w none = none
key_hash w (some k) = if str_eq k "" then none else some (w.sha256 k)

unfoldable pub check_token_budget : World → Option String → Option Response
check_token_budget w none = none
check_token_budget w (some h) =
    if leb w.daily_token_budget (w.tokens_consumed h)
    then some (error 429 "token_budget_exceeded")
    else none

-- The entry of the current hour, started anew if the stored one is of another hour.
unfoldable pub current_entry : String → ℕ → ModelRouter → Hour
current_entry h now s =
    let hour = now / (3600 * second) in
    let entry = Dict.get_or s.key_hourly_compute h (record { hour = 0; used = pos 0 }) in
    if entry.hour == hour then entry else record { hour = hour; used = pos 0 }

unfoldable pub check_compute_budget : Option String → ℤ → ℕ → ModelRouter → Option Response
unfolding current_entry
check_compute_budget none cost now s = none
check_compute_budget (some h) cost now s =
    if ltb_ℤ s.hourly_compute_budget ((current_entry h now s).used +ℤ cost)
    then some (error 429 "compute_budget_exceeded")
    else none

unfoldable pub record_compute_usage : Option String → ℤ → ℕ → ModelRouter → ModelRouter
unfolding current_entry
record_compute_usage none cost now s = s
record_compute_usage (some h) cost now s =
    let entry = current_entry h now s in
    record s {
      key_hourly_compute =
          Dict.put s.key_hourly_compute h (record entry { used = entry.used +ℤ cost });
    }

unfoldable pub acquire_key_slot : Option String → ModelRouter → Option Response × ModelRouter
acquire_key_slot none s = (none, s)
acquire_key_slot (some h) s =
    let current = Dict.get_or s.key_inflight h 0 in
    if leb s.max_per_key_concurrent current
    then (some (error 429 "concurrent_limit"), s)
    else (none, record s { key_inflight = Dict.put s.key_inflight h (current + 1) })

-- Subtraction stops at 0, as `max(0, current - 1)` does.
unfoldable pub release_key_slot : Option String → ModelRouter → ModelRouter
release_key_slot none s = s
release_key_slot (some h) s = record s {
  key_inflight = Dict.put s.key_inflight h (Dict.get_or s.key_inflight h 0 - 1);
}
