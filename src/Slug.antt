-- ===== src/Slug.antt =====
-- `model_name_to_slug` of gateway/node_registry.py, over code points. `str.lower` is Python's, over
-- all of Unicode, and is a parameter.
pub mod Shape
mod Tests
use llama_net.Prelude.{
  ℕ, ◌≡◌, refl, Bool, true, false, not, ◌&&◌, ◌||◌, List, [], ◌∷◌, ◌++◌, arith, leb, ◌==◌,
  Bool-cases, inl, inr, if◌then◌else◌,
}
use llama_net.Prelude.Codes.{drop_while, drop_end, strip_with}
use llama_net.Prelude.Text.{is_space}

abbrev pub dash : ℕ
dash = 45

-- `[a-z0-9]`
unfoldable pub is_word : ℕ → Bool
is_word c = leb b'a' c && leb c b'z' || leb b'0' c && leb c b'9'

-- `re.sub(r'[^a-z0-9]+', '-', s)`; the flag says that the last character read was replaced.
unfoldable pub sub_runs : Bool → List ℕ → List ℕ
unfolding is_word
sub_runs inside [] = []
sub_runs inside (c ∷ s) =
    let word = c ∷ sub_runs false s in
    let other = sub_runs true s in
    if is_word c then word else if inside then other else dash ∷ other

module _ (lower : List ℕ → List ℕ) where
  unfoldable pub model_name_to_slug : List ℕ → List ℕ
  unfolding sub_runs strip_with is_space
  model_name_to_slug name =
      strip_with (λ c. c == dash) (sub_runs false (strip_with is_space (lower name)))
