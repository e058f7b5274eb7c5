-- ===== src/Validate/Checks.antt =====
-- What a check of common/request_validator.py ends in, and the checks that its functions share.
use llama_net.Prelude.{ℕ, Bool, true, false, ◌||◌, Option, none, some, String, if◌then◌else◌}
use llama_net.Prelude.Int.{pos, ltb_ℤ}
use llama_net.Json
use llama_net.Json.{Real, Value, null, int, Fields}

-- The function returns; it raises a ValidationError with its status, for the reason named; or it ends in
-- an exception of Python's own.
pub data Checked : Type 0 where
  passed : Checked
  invalid : ℕ → String → Checked
  type_error : Checked

-- A check that follows another.
abbrev pub and_then : Checked → Checked → Checked
and_then passed c = c
and_then (invalid status reason) c = invalid status reason
and_then type_error c = type_error

abbrev pub require : Bool → String → Checked
require true reason = passed
require false reason = invalid 400 reason

abbrev pub max_message_count : ℕ
max_message_count = 50

abbrev pub max_message_chars : ℕ
max_message_chars = 100000

abbrev pub max_total_context_chars : ℕ
max_total_context_chars = 200000

abbrev pub max_prompt_chars : ℕ
max_prompt_chars = 200000

abbrev pub max_max_tokens : ℕ
max_max_tokens = 16384

abbrev pub max_request_body_bytes : ℕ
max_request_body_bytes = 1048576

-- `body.get(k)`, where null counts as absent
abbrev pub not_null : Value → Option Value
not_null null = none
not_null v = some v

abbrev pub given : Fields → String → Option Value
given body k = elim (Json.get body k) [ none ↦ none | some v ↦ not_null v ]

-- "max_tokens", in both kinds of request.
unfoldable pub check_max_tokens : Option Value → Checked
unfolding Json.as_int
check_max_tokens none = passed
check_max_tokens (some v) = elim (Json.as_int v) [
  | none ↦ invalid 400 "max_tokens must be an integer"
  | some n ↦
      if ltb_ℤ n (pos 1)
      then invalid 400 "max_tokens must be an integer"
      else if ltb_ℤ (pos max_max_tokens) n
      then invalid 400 "max_tokens exceeds maximum"
      else passed
]

-- "temperature" and "top_p": a number from 0 to the limit.
unfoldable pub check_range : ℕ → Option Value → Checked
unfolding Json.as_number Json.below Json.above
check_range limit none = passed
check_range limit (some v) = elim (Json.as_number v) [
  | none ↦ invalid 400 "must be a number"
  | some x ↦ if Json.below x 0 || Json.above x limit then invalid 400 "out of range" else passed
]
