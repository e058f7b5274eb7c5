-- ===== src/Prelude/Codes.antt =====
-- Python's `str` as a list of code points, with the methods that walk it.
use Prim.Native.Nat.{ℕ, zero, suc}
use mathlib.Core.Path.{◌≡◌, refl}
use mathlib.Core.Bool.{Bool, true, false, ◌&&◌, ◌||◌}
use mathlib.Core.List.{List, [], ◌∷◌}
use native.Mathlib.Omega.{arith}
use llama_net.Prelude.Tests.{◌==◌, if◌then◌else◌}

-- `s.lstrip()`, `s.rstrip()` and `s.strip()` of the characters that satisfy `p`
unfoldable pub drop_while : (ℕ → Bool) → List ℕ → List ℕ
drop_while p [] = []
drop_while p (c ∷ s) = let rest = drop_while p s in if p c then rest else c ∷ s

unfoldable pub drop_end : (ℕ → Bool) → List ℕ → List ℕ
drop_end p [] = []
drop_end p (c ∷ s) =
    let rest = drop_end p s in elim rest [ [] ↦ if p c then [] else c ∷ [] | d ∷ r ↦ c ∷ d ∷ r ]

unfoldable pub strip_with : (ℕ → Bool) → List ℕ → List ℕ
unfolding drop_while drop_end
strip_with p s = drop_end p (drop_while p s)

-- `s.startswith(p)`
unfoldable pub is_prefix : List ℕ → List ℕ → Bool
is_prefix [] s = true
is_prefix (c ∷ p) [] = false
is_prefix (c ∷ p) (d ∷ s) = c == d && is_prefix p s

-- `p in s`
unfoldable pub contains : List ℕ → List ℕ → Bool
unfolding is_prefix
contains p [] = is_prefix p []
contains p (d ∷ s) = is_prefix p (d ∷ s) || contains p s

-- `s == t`
unfoldable pub same_text : List ℕ → List ℕ → Bool
same_text [] [] = true
same_text [] (d ∷ t) = false
same_text (c ∷ s) [] = false
same_text (c ∷ s) (d ∷ t) = (c == d) && same_text s t

abbrev pub is_empty : List ℕ → Bool
is_empty [] = true
is_empty (c ∷ s) = false

-- `s[n:]`
unfoldable pub drop : ℕ → List ℕ → List ℕ
drop zero s = s
drop (suc n) [] = []
drop (suc n) (c ∷ s) = drop n s

-- `s.split(sep)` at a single character: there is always a part.
abbrev pub extend : ℕ → List (List ℕ) → List (List ℕ)
extend c [] = (c ∷ []) ∷ []
extend c (p ∷ ps) = (c ∷ p) ∷ ps

unfoldable pub split : ℕ → List ℕ → List (List ℕ)
split sep [] = [] ∷ []
split sep (c ∷ s) = let rest = split sep s in if c == sep then [] ∷ rest else extend c rest

pub same_text_refl : (s : List ℕ) → same_text s s ≡ true
unfolding same_text
same_text_refl [] = refl
same_text_refl (c ∷ s) = ground (arith, same_text_refl s)

pub same_text_lem : (s t : List ℕ) → same_text s t ≡ true → s ≡ t
unfolding same_text
same_text_lem [] [] h = refl
same_text_lem [] (d ∷ t) h = absurd (ground (arith, h))
same_text_lem (c ∷ s) [] h = absurd (ground (arith, h))
same_text_lem (c ∷ s) (d ∷ t) h = ground (arith, h, same_text_lem s t)
