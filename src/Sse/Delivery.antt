-- ===== src/Sse/Delivery.antt =====
-- From the frames that a node sends to the values that a client's stream yields.
use mathlib.Core.List.{append_assoc, append-nil}
use llama_net.Prelude.{
  ℕ, ◌<◌, ◌≡◌, refl, sym, subst, ap, ◌∙◌, Option, List, [], ◌∷◌, ◌++◌, map, arith, All, All-append,
  All-append_left, All-append_right,
}
use llama_net.Prelude.Text.{codes}
use llama_net.Json.{Value}
use llama_net.Sse.Parser.{
  newline, SseChunk, chunk_of, new_parser, parse_lines, parse_chunk, parse_chunks,
}
use llama_net.Sse.Chunks.{cut, cut-nil, parse_chunk-cut, parse_chunk-rest, join}
use llama_net.Sse.Framing.{create_sse_data, create_sse_done, IsPayload, frames, parse_chunks-frames}
use llama_net.Sse.Stream.{
  Transformed, Ending, event_values, events_values, stream_values, stream_from_response,
}

abbrev pub IsAscii : List ℕ → Type 0
IsAscii s = All (λ c. c < 128) s

frame-IsAscii : (json : List ℕ) → IsAscii json → IsAscii (create_sse_data json)
unfolding create_sse_data codes
frame-IsAscii json h =
    let end : IsAscii (json ++ newline ∷ newline ∷ []) =
      All-append (λ c. c < 128) json (newline ∷ newline ∷ []) h (omega arith) in
    (omega arith, (omega arith, (omega arith, (omega arith, (omega arith, (omega arith, end))))))

done-IsAscii : IsAscii create_sse_done
unfolding create_sse_done codes
done-IsAscii = omega arith

frames-IsAscii : (js : List (List ℕ)) → All IsAscii js → IsAscii (frames js ++ create_sse_done)
frames-IsAscii [] h = done-IsAscii
frames-IsAscii (j ∷ js) h = rw (append_assoc (create_sse_data j) (frames js) create_sse_done) (
    All-append (λ c. c < 128) (create_sse_data j) (frames js ++ create_sse_done)
      (frame-IsAscii j h.0) (frames-IsAscii js h.1))

join-All : (chunks : List (List ℕ)) → IsAscii (join chunks) → All IsAscii chunks
join-All [] h = tt
join-All (c ∷ cs) h = (
  All-append_left (λ b. b < 128) c (join cs) h,
  join-All cs (All-append_right (λ b. b < 128) c (join cs) h),
)

module _ (decode : List ℕ → List ℕ) (loads : List ℕ → Option Value)
    (transform_func : Option (Value → Transformed)) where
  events_values-append :
      (es fs : List SseChunk)
      → events_values decode loads transform_func (es ++ fs)
        ≡ events_values decode loads transform_func es
          ++ events_values decode loads transform_func fs
  unfolding events_values
  events_values-append [] fs = refl
  events_values-append (e ∷ es) fs = rw (events_values-append es fs) (
      sym (
        append_assoc (event_values decode loads transform_func e)
          (events_values decode loads transform_func es)
          (events_values decode loads transform_func fs)))

  stream_values-parsed :
      (ascii : (s : List ℕ) → IsAscii s → decode s ≡ s) (buffer : List ℕ) (chunks : List (List ℕ))
      → cut buffer ≡ ([], buffer)
      → All IsAscii chunks
      → stream_values decode loads transform_func (record { buffer = buffer }) chunks
        ≡ events_values decode loads transform_func
            (parse_chunks (record { buffer = buffer }) chunks).1
  unfolding stream_values parse_chunks events_values parse_lines
  stream_values-parsed ascii buffer [] h k = refl
  stream_values-parsed ascii buffer ([] ∷ chunks) h k =
      stream_values-parsed ascii buffer chunks h k.1
      ∙ rw (parse_chunk-cut buffer [], append-nil buffer, h) refl
  stream_values-parsed ascii buffer ((b ∷ bs) ∷ chunks) h k = rw (ascii (b ∷ bs) k.0) (
      rw
        (events_values-append (parse_chunk (record { buffer = buffer }) (b ∷ bs)).1
          (parse_chunks (parse_chunk (record { buffer = buffer }) (b ∷ bs)).0 chunks).1)
        (ap
          (λ vs.
            events_values decode loads transform_func
              (parse_chunk (record { buffer = buffer }) (b ∷ bs)).1
            ++ vs)
          (stream_values-parsed ascii (parse_chunk (record { buffer = buffer }) (b ∷ bs)).0.buffer
            chunks (parse_chunk-rest buffer (b ∷ bs)) k.1)))

  -- A node frames texts of JSON, each of them one line of ASCII that does not end in white space, and
  -- closes the stream. In whatever chunks the bytes arrive, and however the response ends, a reader gets
  -- just what the texts read and transformed give, in the order sent, if decoding leaves ASCII as it is.
  pub stream_from_response-frames :
      (ascii : (s : List ℕ) → IsAscii s → decode s ≡ s) (js chunks : List (List ℕ)) (how : Ending)
      → All IsPayload js
      → All IsAscii js
      → join chunks ≡ frames js ++ create_sse_done
      → (stream_from_response decode loads transform_func new_parser chunks how).values
        ≡ events_values decode loads transform_func (map chunk_of js)
  unfolding stream_from_response
  stream_from_response-frames ascii js chunks how p a e =
      stream_values-parsed ascii [] chunks cut-nil
        (join-All chunks (subst IsAscii (sym e) (frames-IsAscii js a)))
      ∙ ap (events_values decode loads transform_func) (parse_chunks-frames js chunks p e)
