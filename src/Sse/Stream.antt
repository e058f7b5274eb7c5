-- ===== src/Sse/Stream.antt =====
-- `OpenAISSETransformer` and `SSEStreamHandler` of common/sse_handler.py. How bytes are decoded and
-- what `json.loads` reads are parameters.
use llama_net.Prelude.{
  ℕ, Bool, true, false, not, Option, none, some, List, [], ◌∷◌, ◌++◌, ◌==◌, if◌then◌else◌,
}
use llama_net.Json
use llama_net.Json.{Value, null, str, bool, arr, obj, Items, nil, cons, Fields, end, field}
use llama_net.Sse.Parser.{SseChunk, SseParser, parse_chunk}

-- What a transformation returns: a value, None, or an exception.
pub data Transformed : Type 0 where
  gives : Value → Transformed
  nothing : Transformed
  raises : Transformed

abbrev is_null : Value → Bool
is_null null = true
is_null _ = false

-- `{"text": …, "finished": …}`
abbrev pub piece : Value → Bool → Value
piece text finished = obj (field "text" text (field "finished" (bool finished) end))

-- `choice.get('finish_reason')`, in the two places where it is read.
abbrev finish_reason : Fields → Value
finish_reason choice = Json.get_or choice "finish_reason" null

abbrev closing : Fields → Transformed
closing choice = if Json.truthy (finish_reason choice) then gives (piece (str "") true) else nothing

-- A text that is not empty, or else the end of the choice.
unfoldable pub text_or_end : Value → Fields → Transformed
unfolding Json.truthy Json.get
text_or_end text choice =
    if Json.truthy text
    then gives (piece text (not (is_null (finish_reason choice))))
    else closing choice

-- The first choice; `choices[0]` of anything but a list is an exception or has no `get`.
unfoldable pub first_choice : (Fields → Transformed) → Value → Transformed
unfolding Json.truthy Json.get
first_choice read (obj body) =
    let choices = Json.get_or body "choices" null in
    if Json.truthy choices
    then (elim choices [
      | arr xs ↦ elim xs [ nil ↦ nothing | cons v vs ↦ elim v [ obj c ↦ read c | _ ↦ raises ] ]
      | _ ↦ raises
    ])
    else nothing
first_choice read _ = raises

unfoldable pub completion_transform : Value → Transformed
unfolding first_choice text_or_end Json.get
completion_transform v =
    first_choice (λ choice. text_or_end (Json.get_or choice "text" null) choice) v

unfoldable pub chat_transform : Value → Transformed
unfolding first_choice text_or_end Json.get
chat_transform v =
    first_choice
      (λ choice. elim (Json.get_or choice "delta" (obj end)) [
        | obj delta ↦ text_or_end (Json.get_or delta "content" null) choice
        | _ ↦ raises
      ])
      v

-- How the chunks of a response come to an end.
pub data Ending : Type 0 where
  ended cancelled connection_closed broken : Ending

-- What a reader of the stream sees: the values, and whether CancelledError leaves the generator.
pub record Streamed : Type 0 where
  pub values : List Value
  pub raised_cancelled : Bool

module _ (decode : List ℕ → List ℕ) (loads : List ℕ → Option Value)
    (transform_func : Option (Value → Transformed)) where
  abbrev pub transformed : Value → Transformed
  transformed v = elim transform_func [ none ↦ gives v | some f ↦ f v ]

  -- `if data: yield data`, where a text that is no JSON and an exception are passed over.
  unfoldable pub event_values : SseChunk → List Value
  unfolding Json.truthy
  event_values e = elim (loads e.text) [
    | none ↦ []
    | some v ↦ elim (transformed v) [
      | gives d ↦ if Json.truthy d then d ∷ [] else []
      | nothing ↦ []
      | raises ↦ []
    ]
  ]

  unfoldable pub events_values : List SseChunk → List Value
  events_values [] = []
  events_values (e ∷ es) = event_values e ++ events_values es

  abbrev nonempty : List ℕ → Bool
  nonempty [] = false
  nonempty (b ∷ bs) = true

  -- The loop over the chunks of bytes, with the parser's buffer.
  unfoldable pub stream_values : SseParser → List (List ℕ) → List Value
  stream_values p [] = []
  stream_values p (chunk ∷ chunks) =
      let step = parse_chunk p (decode chunk) in
      let fed = events_values step.1 ++ stream_values step.0 chunks in
      let skipped = stream_values p chunks in if nonempty chunk then fed else skipped

  -- `stream_from_response`: only a cancellation leaves the generator as an exception.
  unfoldable pub stream_from_response : SseParser → List (List ℕ) → Ending → Streamed
  stream_from_response p chunks how = record {
    values = stream_values p chunks;
    raised_cancelled = elim how [ cancelled ↦ true | _ ↦ false ];
  }

  -- `forward_completion_stream` and `forward_chat_stream` behind their request: none is no answer at
  -- all, and a status other than 200 ends the stream at once. A cancellation goes through
  -- `except Exception`, which does not catch it.
  unfoldable pub forward_stream : SseParser → Option (ℕ × (List (List ℕ) × Ending)) → Streamed
  forward_stream p none = record { values = []; raised_cancelled = false }
  forward_stream p (some (status, (chunks, how))) =
      if status == 200
      then stream_from_response p chunks how
      else record { values = []; raised_cancelled = false }
