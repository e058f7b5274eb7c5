-- ===== src/Sse/Parser.antt =====
-- `SSEParser` of common/sse_handler.py, over code points.
use llama_net.Prelude.{ℕ, ◌||◌, Option, none, some, List, [], ◌∷◌, ◌++◌, if◌then◌else◌}
use llama_net.Prelude.Text.{is_space, codes}
use llama_net.Prelude.Codes.{strip_with, is_prefix, is_empty, same_text, drop, split}

abbrev pub newline : ℕ
newline = 10

-- `SSEChunk`: the parser fills in the data and leaves the other fields at None.
pub record SseChunk : Type 0 where
  pub text : List ℕ
  pub event : Option (List ℕ)
  pub id : Option (List ℕ)
  pub retry : Option ℕ

abbrev pub chunk_of : List ℕ → SseChunk
chunk_of text = record { text = text; event = none; id = none; retry = none }

pub record SseParser : Type 0 where
  pub buffer : List ℕ

abbrev pub new_parser : SseParser
new_parser = record { buffer = [] }

-- The body of `parse_line` behind `line.strip()`.
unfoldable pub parse_stripped : List ℕ → Option SseChunk
unfolding is_prefix drop same_text codes
parse_stripped line =
    if is_empty line || is_prefix (codes ":") line
    then none
    else if is_prefix (codes "data: ") line
    then (if is_empty (drop 6 line) || same_text (drop 6 line) (codes "[DONE]")
        then none
        else some (chunk_of (drop 6 line)))
    else none

unfoldable pub parse_line : List ℕ → Option SseChunk
unfolding strip_with is_space parse_stripped
parse_line line = parse_stripped (strip_with is_space line)

-- The loop over the complete lines.
unfoldable pub parse_lines : List (List ℕ) → List SseChunk
unfolding parse_line
parse_lines [] = []
parse_lines (line ∷ lines) =
    let rest = parse_lines lines in elim (parse_line line) [ none ↦ rest | some e ↦ e ∷ rest ]

-- `lines.pop()`: what is left, and the last line.
unfoldable pub pop_last : List (List ℕ) → List (List ℕ) × List ℕ
pop_last [] = ([], [])
pop_last (l ∷ []) = ([], l)
pop_last (l ∷ m ∷ ls) = (l ∷ (pop_last (m ∷ ls)).0, (pop_last (m ∷ ls)).1)

unfoldable pub parse_chunk : SseParser → List ℕ → SseParser × List SseChunk
unfolding split pop_last parse_lines
parse_chunk p chunk =
    let lines = pop_last (split newline (p.buffer ++ chunk)) in
    (record { buffer = lines.1 }, parse_lines lines.0)

-- The parser over the chunks of a stream, in turn.
unfoldable pub parse_chunks : SseParser → List (List ℕ) → SseParser × List SseChunk
parse_chunks p [] = (p, [])
parse_chunks p (c ∷ cs) =
    let step = parse_chunk p c in let rest = parse_chunks step.0 cs in (rest.0, step.1 ++ rest.1)
