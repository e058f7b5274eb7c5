-- ===== src/Sse/Chunks.antt =====
-- What the parser makes of a stream does not depend on where the network cuts it.
use mathlib.Core.List.{append_assoc, append-nil}
use llama_net.Prelude.{
  ℕ, ◌≡◌, ◌≢◌, refl, sym, ap, ◌∙◌, false, List, [], ◌∷◌, ◌++◌, arith, ◌==◌, if◌then◌else◌,
  Bool-cases, inl, inr, All,
}
use llama_net.Prelude.Codes.{split, extend}
use llama_net.Sse.Parser.{newline, new_parser, parse_lines, pop_last, parse_chunk, parse_chunks}

-- The complete lines of a text and what stands behind the last of them, in one pass.
attach : ℕ → List (List ℕ) → List ℕ → List (List ℕ) × List ℕ
attach c [] last = ([], c ∷ last)
attach c (l ∷ ls) last = ((c ∷ l) ∷ ls, last)

pub cut : List ℕ → List (List ℕ) × List ℕ
unfolding attach
cut [] = ([], [])
cut (c ∷ s) = if c == newline then ([] ∷ (cut s).0, (cut s).1) else attach c (cut s).0 (cut s).1

pop_last-extend :
    (c : ℕ) (ls : List (List ℕ))
    → ls ≢ []
    → pop_last (extend c ls) ≡ attach c (pop_last ls).0 (pop_last ls).1
unfolding pop_last attach
pop_last-extend c [] h = absurd (h refl)
pop_last-extend c (l ∷ []) h = refl
pop_last-extend c (l ∷ m ∷ ls) h = refl

split-ne : (s : List ℕ) → split newline s ≢ []
unfolding split
split-ne [] = λ h. cc h
split-ne (c ∷ s) = elim (Bool-cases (c == newline)) [
  | inl e ↦ rw e (λ h. cc h)
  | inr e ↦ rw e (extend-ne (split newline s))
]
  where
    extend-ne : (ls : List (List ℕ)) → extend c ls ≢ []
    extend-ne [] h = cc h
    extend-ne (l ∷ ls) h = cc h

pop_last-cons :
    (l : List ℕ) (ls : List (List ℕ))
    → ls ≢ []
    → pop_last (l ∷ ls) ≡ (l ∷ (pop_last ls).0, (pop_last ls).1)
unfolding pop_last
pop_last-cons l [] h = absurd (h refl)
pop_last-cons l (m ∷ ls) h = refl

pop_last-split : (s : List ℕ) → pop_last (split newline s) ≡ cut s
unfolding split cut pop_last
pop_last-split [] = refl
pop_last-split (c ∷ s) = elim (Bool-cases (c == newline)) [
  | inl e ↦ rw e (
      pop_last-cons [] (split newline s) (split-ne s)
      ∙ ap (λ q. ([] ∷ q.0, q.1)) (pop_last-split s))
  | inr e ↦ rw e (
      pop_last-extend c (split newline s) (split-ne s)
      ∙ ap (λ q. attach c q.0 q.1) (pop_last-split s))
]

attach-append :
    (c : ℕ) (ls : List (List ℕ)) (last b : List ℕ)
    → (c == newline) ≡ false
    → attach c (ls ++ (cut (last ++ b)).0) (cut (last ++ b)).1 ≡ (
      (attach c ls last).0 ++ (cut ((attach c ls last).1 ++ b)).0,
      (cut ((attach c ls last).1 ++ b)).1,
    )
unfolding attach cut
attach-append c [] last b e = rw e refl
attach-append c (l ∷ ls) last b e = refl

-- A text in two parts: the lines of the first, and those of what it leaves together with the second.
cut-append :
    (a b : List ℕ)
    → cut (a ++ b) ≡ ((cut a).0 ++ (cut ((cut a).1 ++ b)).0, (cut ((cut a).1 ++ b)).1)
unfolding cut
cut-append [] b = refl
cut-append (c ∷ a) b = elim (Bool-cases (c == newline)) [
  | inl e ↦ rw e (ap (λ q. ([] ∷ q.0, q.1)) (cut-append a b))
  | inr e ↦
      rw e (ap (λ q. attach c q.0 q.1) (cut-append a b) ∙ attach-append c (cut a).0 (cut a).1 b e)
]

attach-rest :
    (c : ℕ) (ls : List (List ℕ)) (last : List ℕ)
    → (c == newline) ≡ false
    → cut last ≡ ([], last)
    → cut (attach c ls last).1 ≡ ([], (attach c ls last).1)
unfolding attach cut
attach-rest c [] last e h = rw e (rw h refl)
attach-rest c (l ∷ ls) last e h = h

-- What follows the last line holds no line.
pub cut-rest : (s : List ℕ) → cut (cut s).1 ≡ ([], (cut s).1)
unfolding cut
cut-rest [] = refl
cut-rest (c ∷ s) = elim (Bool-cases (c == newline)) [
  | inl e ↦ rw e (cut-rest s)
  | inr e ↦ rw e (attach-rest c (cut s).0 (cut s).1 e (cut-rest s))
]

parse_lines-append :
    (ls ms : List (List ℕ)) → parse_lines (ls ++ ms) ≡ parse_lines ls ++ parse_lines ms
unfolding parse_lines
parse_lines-append [] ms = refl
parse_lines-append (l ∷ ls) ms = ground (arith, parse_lines-append ls ms)

pub parse_chunk-cut :
    (buffer chunk : List ℕ)
    → parse_chunk (record { buffer = buffer }) chunk
      ≡ (record { buffer = (cut (buffer ++ chunk)).1 }, parse_lines (cut (buffer ++ chunk)).0)
unfolding parse_chunk
parse_chunk-cut buffer chunk = rw (pop_last-split (buffer ++ chunk)) refl

-- A parser's buffer holds no complete line, whatever it has read.
pub parse_chunk-rest :
    (buffer chunk : List ℕ)
    → cut (parse_chunk (record { buffer = buffer }) chunk).0.buffer
      ≡ ([], (parse_chunk (record { buffer = buffer }) chunk).0.buffer)
parse_chunk-rest buffer chunk = rw (parse_chunk-cut buffer chunk) (cut-rest (buffer ++ chunk))

abbrev pub join : List (List ℕ) → List ℕ
join [] = []
join (c ∷ cs) = c ++ join cs

parse_chunks-buffer :
    (buffer : List ℕ) (cs : List (List ℕ))
    → cut buffer ≡ ([], buffer)
    → parse_chunks (record { buffer = buffer }) cs
      ≡ parse_chunk (record { buffer = buffer }) (join cs)
unfolding parse_chunks parse_lines
parse_chunks-buffer buffer [] h = sym (parse_chunk-cut buffer [] ∙ rw (append-nil buffer, h) refl)
parse_chunks-buffer buffer (c ∷ cs) h = rw (parse_chunk-cut buffer c) (
    rw (parse_chunks-buffer (cut (buffer ++ c)).1 cs (cut-rest (buffer ++ c))) (
      rw (parse_chunk-cut (cut (buffer ++ c)).1 (join cs), parse_chunk-cut buffer (c ++ join cs))
        (rw (← append_assoc buffer c (join cs), cut-append (buffer ++ c) (join cs))
          (rw (parse_lines-append (cut (buffer ++ c)).0 (cut ((cut (buffer ++ c)).1 ++ join cs)).0)
            refl))))

-- Whatever the chunks in which a stream arrives, the parser ends with the same events and the same
-- rest as if the whole stream came in one chunk.
pub parse_chunks-join :
    (cs : List (List ℕ)) → parse_chunks new_parser cs ≡ parse_chunk new_parser (join cs)
unfolding cut
parse_chunks-join cs = parse_chunks-buffer [] cs refl

-- A line and its end, before the rest of a text.
pub cut-line :
    (line s : List ℕ)
    → All (λ c. (c == newline) ≡ false) line
    → cut (line ++ newline ∷ s) ≡ (line ∷ (cut s).0, (cut s).1)
unfolding cut attach
cut-line [] s h = refl
cut-line (c ∷ line) s h = rw (h.0) (rw (cut-line line s h.1) refl)

pub cut-nil : cut [] ≡ ([], [])
unfolding cut
cut-nil = refl
