-- ===== src/Validate/Requests.antt =====
-- `validate_chat_request`, `validate_completion_request` and `validate_request_body_size` of
-- common/request_validator.py.
use llama_net.Prelude.{
  ℕ, ◌+◌, Bool, true, false, not, ◌||◌, Option, none, some, String, count, str_eq, ltb,
  if◌then◌else◌,
}
use llama_net.Prelude.Int.{ℤ, pos, ltb_ℤ}
use llama_net.Json
use llama_net.Json.{Value, null, bool, int, real, str, arr, obj, Items, nil, cons, Fields}
use llama_net.Validate.Checks.{
  Checked, passed, invalid, type_error, and_then, max_message_count, max_message_chars,
  max_total_context_chars, max_prompt_chars, max_request_body_bytes, given, check_max_tokens,
  check_range,
}

-- The characters of what has been gone through, or the error that ends it.
pub data Tally : Type 0 where
  chars : ℕ → Tally
  refused : String → Tally

abbrev pub is_role : Value → Bool
is_role (str r) =
    str_eq r "system"
    || str_eq r "user"
    || str_eq r "assistant"
    || str_eq r "function"
    || str_eq r "tool"
is_role _ = false

abbrev pub is_assistant : Value → Bool
is_assistant (str r) = str_eq r "assistant"
is_assistant _ = false

-- The length of a content: only an assistant's may be null.
abbrev pub content_length : Bool → Value → Option ℕ
content_length assistant (str c) = some (count c)
content_length true null = some 0
content_length assistant _ = none

-- One turn of the loop over the messages.
unfoldable pub check_message : Value → Tally
unfolding Json.get
check_message (obj f) =
    let role = Json.get_or f "role" (str "") in
    if not (is_role role)
    then refused "invalid role"
    else (elim (content_length (is_assistant role) (Json.get_or f "content" (str ""))) [
      | none ↦ refused "content must be a string"
      | some n ↦ if ltb max_message_chars n then refused "message too long" else chars n
    ])
check_message _ = refused "message must be an object"

abbrev pub add_tally : Tally → Tally → Tally
add_tally (refused e) t = refused e
add_tally (chars n) (refused e) = refused e
add_tally (chars n) (chars m) = chars (n + m)

unfoldable pub check_messages : Items → Tally
unfolding check_message
check_messages nil = chars 0
check_messages (cons v xs) = add_tally (check_message v) (check_messages xs)

abbrev pub check_total : Tally → Checked
check_total (refused e) = invalid 400 e
check_total (chars n) =
    if ltb max_total_context_chars n then invalid 400 "total content too long" else passed

-- What `messages` may be: a text or an object has parts that are no objects, and what has no length is
-- a TypeError.
unfoldable pub check_message_list : Value → Checked
unfolding check_messages Json.truthy Json.length Json.size
check_message_list v =
    if not (Json.truthy v) then invalid 400 "messages cannot be empty" else (elim v [
      | arr xs ↦
          if ltb max_message_count (Json.length xs)
          then invalid 400 "too many messages"
          else check_total (check_messages xs)
      | str s ↦
          if ltb max_message_count (count s)
          then invalid 400 "too many messages"
          else invalid 400 "message must be an object"
      | obj f ↦
          if ltb max_message_count (Json.size f)
          then invalid 400 "too many messages"
          else invalid 400 "message must be an object"
      | _ ↦ type_error
    ])

unfoldable pub validate_chat_request : Fields → Checked
unfolding check_message_list check_max_tokens check_range Json.get
validate_chat_request body = and_then (check_message_list (Json.get_or body "messages" (arr nil))) (
    and_then (check_max_tokens (given body "max_tokens"))
      (and_then (check_range 2 (given body "temperature")) (check_range 1 (given body "top_p"))))

abbrev pub check_prompt_text : Value → Checked
check_prompt_text (str s) =
    if ltb max_prompt_chars (count s) then invalid 400 "prompt too long" else passed
check_prompt_text _ = invalid 400 "prompt must be a string"

abbrev pub check_prompt : Value → Checked
check_prompt (arr nil) = invalid 400 "prompt array cannot be empty"
check_prompt (arr (cons v nil)) = check_prompt_text v
check_prompt (arr (cons v (cons w xs))) = invalid 400 "only a single prompt"
check_prompt v = check_prompt_text v

unfoldable pub validate_completion_request : Fields → Checked
unfolding check_max_tokens Json.get
validate_completion_request body =
    and_then (check_prompt (Json.get_or body "prompt" (str "")))
      (check_max_tokens (given body "max_tokens"))

unfoldable pub validate_request_body_size : Option ℤ → Checked
validate_request_body_size none = passed
validate_request_body_size (some n) =
    if ltb_ℤ (pos max_request_body_bytes) n then invalid 413 "request body too large" else passed
