-- ===== src/Sse/Framing.antt =====
-- `create_sse_data` and `create_sse_done` of common/models.py, over the text that `json.dumps` makes.
-- Events that they frame come back whole from the parser.
use mathlib.Core.List.{append_assoc}
use llama_net.Prelude.{
  ℕ, ◌≡◌, ◌≢◌, refl, ap, ◌∙◌, false, some, List, [], ◌∷◌, ◌++◌, map, arith, ◌==◌, Bool-cases, inl,
  inr, All,
}
use llama_net.Prelude.Text.{is_space, codes}
use llama_net.Prelude.Codes.{
  drop_while, drop_end, strip_with, is_prefix, same_text, same_text_lem, drop,
}
use llama_net.Sse.Parser.{
  newline, chunk_of, new_parser, parse_stripped, parse_line, parse_lines, parse_chunks,
}
use llama_net.Sse.Chunks.{cut, cut-nil, cut-line, parse_chunk-cut, join, parse_chunks-join}

unfoldable pub create_sse_data : List ℕ → List ℕ
unfolding codes
create_sse_data json = codes "data: " ++ (json ++ newline ∷ newline ∷ [])

unfoldable pub create_sse_done : List ℕ
unfolding codes
create_sse_done = codes "data: [DONE]" ++ newline ∷ newline ∷ []

-- A text of `json.dumps`: one line that does not end in white space, and that is not empty. It is not
-- the mark that closes a stream, which is no JSON.
pub record IsPayload (json : List ℕ) : Type 0 where
  pub one_line : All (λ c. (c == newline) ≡ false) json
  pub trimmed : drop_end is_space json ≡ json
  pub ne_nil : json ≢ []
  pub ne_done : json ≢ codes "[DONE]"

data_line :
    (json : List ℕ)
    → All (λ c. (c == newline) ≡ false) json
    → All (λ c. (c == newline) ≡ false) (codes "data: " ++ json)
unfolding codes
data_line json h = (refl, (refl, (refl, (refl, (refl, (refl, h))))))

-- The line of a frame, and the empty line behind it.
cut-frame :
    (json s : List ℕ)
    → All (λ c. (c == newline) ≡ false) json
    → cut (create_sse_data json ++ s) ≡ ((codes "data: " ++ json) ∷ [] ∷ (cut s).0, (cut s).1)
unfolding create_sse_data codes
cut-frame json s h = rw (append_assoc json (newline ∷ newline ∷ []) s) (
    rw (← append_assoc (codes "data: ") json (newline ∷ newline ∷ s)) (
      cut-line (codes "data: " ++ json) (newline ∷ s) (data_line json h)
      ∙ ap (λ q. ((codes "data: " ++ json) ∷ q.0, q.1)) (cut-line [] s tt)))

drop_end-cons :
    (c d : ℕ) (s : List ℕ)
    → drop_end is_space (d ∷ s) ≡ d ∷ s
    → drop_end is_space (c ∷ d ∷ s) ≡ c ∷ d ∷ s
unfolding drop_end
drop_end-cons c d s h = ground (arith, h)

parse_stripped-payload :
    (d : ℕ) (s : List ℕ)
    → d ∷ s ≢ codes "[DONE]"
    → parse_stripped (codes "data: " ++ d ∷ s) ≡ some (chunk_of (d ∷ s))
unfolding parse_stripped is_prefix drop codes
parse_stripped-payload d s h = elim (Bool-cases (same_text (d ∷ s) (codes "[DONE]"))) [
  | inl e ↦ absurd (h (same_text_lem (d ∷ s) (codes "[DONE]") e))
  | inr e ↦ rw e refl
]

strip-frame :
    (d : ℕ) (s : List ℕ)
    → drop_end is_space (d ∷ s) ≡ d ∷ s
    → strip_with is_space (codes "data: " ++ d ∷ s) ≡ codes "data: " ++ d ∷ s
unfolding strip_with drop_while is_space codes
strip-frame d s h = drop_end-cons 100 97 (116 ∷ 97 ∷ 58 ∷ 32 ∷ d ∷ s) (
    drop_end-cons 97 116 (97 ∷ 58 ∷ 32 ∷ d ∷ s) (
      drop_end-cons 116 97 (58 ∷ 32 ∷ d ∷ s)
        (drop_end-cons 97 58 (32 ∷ d ∷ s) (drop_end-cons 58 32 (d ∷ s) (drop_end-cons 32 d s h)))))

parse_line-payload :
    (json : List ℕ) → IsPayload json → parse_line (codes "data: " ++ json) ≡ some (chunk_of json)
unfolding parse_line
parse_line-payload [] p = absurd (p.ne_nil refl)
parse_line-payload (d ∷ s) p = rw (strip-frame d s p.trimmed) (parse_stripped-payload d s p.ne_done)

-- The frames of the texts, one behind the other.
abbrev pub frames : List (List ℕ) → List ℕ
frames [] = []
frames (j ∷ js) = create_sse_data j ++ frames js

parse_lines-frames :
    (js : List (List ℕ))
    → All IsPayload js
    → parse_lines (cut (frames js ++ create_sse_done)).0 ≡ map chunk_of js
unfolding parse_lines create_sse_done codes
parse_lines-frames [] h =
    rw (cut-line (codes "data: [DONE]") (newline ∷ []) (data_line (codes "[DONE]") (ground arith)))
      (rw (cut-line [] [] tt, cut-nil) refl)
parse_lines-frames (j ∷ js) h = rw (append_assoc (create_sse_data j) (frames js) create_sse_done) (
    rw (cut-frame j (frames js ++ create_sse_done) h.0.one_line)
      (rw (parse_line-payload j h.0, parse_lines-frames js h.1) refl))

-- If a stream of the frames of JSON texts, closed by the frame that ends it, arrives in any chunks, the
-- parser gives an event for each text, with the text whole and in the order sent, and no other event.
pub parse_chunks-frames :
    (js cs : List (List ℕ))
    → All IsPayload js
    → join cs ≡ frames js ++ create_sse_done
    → (parse_chunks new_parser cs).1 ≡ map chunk_of js
parse_chunks-frames js cs h e =
    rw (parse_chunks-join cs, e, parse_chunk-cut [] (frames js ++ create_sse_done))
      (parse_lines-frames js h)
