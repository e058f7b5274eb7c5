-- ===== src/Sse/Tests.antt =====
-- Runs of the parser and the stream, and the theorems at them.
use llama_net.Prelude.{
  ℕ, ◌≡◌, refl, Option, false, none, some, List, [], ◌∷◌, ◌++◌, map, arith, All,
}
use llama_net.Prelude.Text.{codes, is_space}
use llama_net.Prelude.Codes.{drop_end}
use llama_net.Json.{Value, str, arr, obj, nil, cons, Fields, end, field}
use llama_net.Sse.Parser.{new_parser, chunk_of, parse_chunk, parse_chunks, parse_line}
use llama_net.Sse.Chunks.{join, parse_chunks-join}
use llama_net.Sse.Framing.{create_sse_data, create_sse_done, IsPayload, frames}
use llama_net.Sse.Stream.{
  piece, chat_transform, gives, nothing, raises, broken, events_values, stream_from_response,
}
use llama_net.Sse.Delivery.{IsAscii, stream_from_response-frames}

abbrev halves : List (List ℕ)
halves = codes "data: {\"a\"" ∷ codes ":1}\n\nda" ∷ codes "ta: 2\n" ∷ []

parse_chunks-join_example : parse_chunks new_parser halves ≡ parse_chunk new_parser (join halves)
parse_chunks-join_example = parse_chunks-join halves

halves_parsed :
    (parse_chunks new_parser halves).1 ≡ chunk_of (codes "{\"a\":1}") ∷ chunk_of (codes "2") ∷ []
unfolding parse_chunks parse_chunk codes
halves_parsed = refl

comment_skipped : parse_line (codes " : ping ") ≡ none
unfolding parse_line codes
comment_skipped = refl

-- A text that starts with a space keeps it.
space_kept : parse_line (codes "data:  x ") ≡ some (chunk_of (codes " x"))
unfolding parse_line codes
space_kept = refl

abbrev texts : List (List ℕ)
texts = codes "{}" ∷ codes "[1]" ∷ []

abbrev sent : List (List ℕ)
sent = codes "data: {}\n\ndat" ∷ [] ∷ codes "a: [1]\n\ndata: [DONE]\n\n" ∷ []

texts-IsPayload : All IsPayload texts
unfolding drop_end is_space codes
texts-IsPayload = (
  record { one_line = ground arith; trimmed = refl; ne_nil = cc; ne_done = cc },
  (record { one_line = ground arith; trimmed = refl; ne_nil = cc; ne_done = cc }, tt),
)

texts-IsAscii : All IsAscii texts
unfolding codes
texts-IsAscii = omega arith

sent-frames : join sent ≡ frames texts ++ create_sse_done
unfolding codes create_sse_data create_sse_done
sent-frames = refl

abbrev reads : List ℕ → Option Value
reads s = some (str "read")

stream_from_response-frames_example :
    (stream_from_response (λ s. s) reads none new_parser sent broken).values
    ≡ events_values (λ s. s) reads none (map chunk_of texts)
stream_from_response-frames_example =
    stream_from_response-frames (λ s. s) reads none (λ s a. refl) texts sent broken texts-IsPayload
      texts-IsAscii sent-frames

abbrev delta : Fields → Value
delta f = obj (field "choices" (arr (cons (obj (field "delta" (obj f) end)) nil)) end)

chat_piece :
    chat_transform (delta (field "content" (str "hi") end)) ≡ gives (piece (str "hi") false)
unfolding chat_transform
chat_piece = refl

-- A delta without content, in a choice that has not ended, gives nothing; a value that is no object
-- raises.
chat_nothing : chat_transform (delta end) ≡ nothing
unfolding chat_transform
chat_nothing = refl

chat_raises : chat_transform (str "x") ≡ raises
unfolding chat_transform
chat_raises = refl
