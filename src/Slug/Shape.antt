-- ===== src/Slug/Shape.antt =====
-- The form of a slug: words of [a-z0-9] with single dashes between them.
use llama_net.Prelude.{
  ℕ, ◌≡◌, refl, Bool, true, false, not, ◌&&◌, List, [], ◌∷◌, arith, ◌==◌, ◌⊎◌, inl, inr,
  if◌then◌else◌, Bool-cases,
}
use llama_net.Prelude.Codes.{drop_while, drop_end, strip_with}
use llama_net.Prelude.Text.{is_space}
use llama_net.Slug.{dash, is_word, sub_runs, model_name_to_slug}

-- The flag says that the character before is a dash, or that the text starts here.
abbrev tidy : Bool → List ℕ → Bool
tidy d [] = not d
tidy d (c ∷ s) = if is_word c then tidy false s else ((c == dash) && not d && tidy true s)

abbrev pub IsSlug : List ℕ → Type 0
IsSlug s = (s ≡ []) ⊎ (tidy true s ≡ true)

-- The same, where a dash may stand at the end.
abbrev loose : Bool → List ℕ → Bool
loose d [] = true
loose d (c ∷ s) = if is_word c then loose false s else ((c == dash) && not d && loose true s)

loose-sub_runs : (d : Bool) (s : List ℕ) → loose d (sub_runs d s) ≡ true
unfolding sub_runs
loose-sub_runs d [] = refl
loose-sub_runs d (c ∷ s) = ground (arith, loose-sub_runs false s, loose-sub_runs true s)

loose-drop_while :
    (d : Bool) (s : List ℕ) → loose d s ≡ true → loose true (drop_while (λ c. c == dash) s) ≡ true
unfolding drop_while is_word
loose-drop_while d [] h = refl
loose-drop_while d (c ∷ s) h = ground (arith, loose-drop_while true s)

tidy-drop_end :
    (d : Bool) (s : List ℕ)
    → loose d s ≡ true
    → (drop_end (λ c. c == dash) s ≡ []) ⊎ (tidy d (drop_end (λ c. c == dash) s) ≡ true)
unfolding drop_end is_word
tidy-drop_end d [] h = inl refl
tidy-drop_end d (c ∷ s) h = ground (arith, tidy-drop_end false s, tidy-drop_end true s)

-- Whatever the name, and whatever `str.lower` does, the slug is empty or a row of words of [a-z0-9]
-- with single dashes between them and none at its ends.
pub model_name_to_slug-IsSlug :
    (lower : List ℕ → List ℕ) (name : List ℕ) → IsSlug (model_name_to_slug lower name)
unfolding model_name_to_slug
model_name_to_slug-IsSlug lower name =
    let raw = sub_runs false (strip_with is_space (lower name)) in
    tidy-drop_end true (drop_while (λ c. c == dash) raw)
      (loose-drop_while false raw (loose-sub_runs false (strip_with is_space (lower name))))

-- No character of a slug is a space, and the others stay where they are.
drop_space-tidy : (d : Bool) (s : List ℕ) → tidy d s ≡ true → drop_while is_space s ≡ s
unfolding drop_while is_word is_space
drop_space-tidy d [] h = refl
drop_space-tidy d (c ∷ s) h = ground arith

tidy_tail : (d : Bool) (c : ℕ) (s : List ℕ) → tidy d (c ∷ s) ≡ true → (e : Bool) × (tidy e s ≡ true)
unfolding is_word
tidy_tail d c s h = elim (Bool-cases (is_word c)) [
  | inl w ↦ (false, ground arith)
  | inr w ↦ (true, ground arith)
]

drop_end_space-tidy : (d : Bool) (s : List ℕ) → tidy d s ≡ true → drop_end is_space s ≡ s
unfolding drop_end is_word is_space
drop_end_space-tidy d [] h = refl
drop_end_space-tidy d (c ∷ []) h = ground arith
drop_end_space-tidy d (c ∷ e ∷ s) h =
    let (f, t) = tidy_tail d c (e ∷ s) h in ground (arith, drop_end_space-tidy f (e ∷ s) t)

sub_runs-tidy : (d : Bool) (s : List ℕ) → tidy d s ≡ true → sub_runs d s ≡ s
unfolding sub_runs is_word
sub_runs-tidy d [] h = refl
sub_runs-tidy d (c ∷ s) h = ground (arith, sub_runs-tidy false s, sub_runs-tidy true s)

sub_runs-tidy_start : (s : List ℕ) → tidy true s ≡ true → sub_runs false s ≡ s
unfolding sub_runs is_word
sub_runs-tidy_start [] h = refl
sub_runs-tidy_start (c ∷ s) h = ground (arith, sub_runs-tidy false s)

drop_dash-tidy : (s : List ℕ) → tidy true s ≡ true → drop_while (λ c. c == dash) s ≡ s
unfolding drop_while is_word
drop_dash-tidy [] h = refl
drop_dash-tidy (c ∷ s) h = ground arith

drop_end-dash-tidy : (d : Bool) (s : List ℕ) → tidy d s ≡ true → drop_end (λ c. c == dash) s ≡ s
unfolding drop_end is_word
drop_end-dash-tidy d [] h = refl
drop_end-dash-tidy d (c ∷ []) h = ground arith
drop_end-dash-tidy d (c ∷ e ∷ s) h =
    let (f, t) = tidy_tail d c (e ∷ s) h in ground (arith, drop_end-dash-tidy f (e ∷ s) t)

slug_of_slug :
    (s : List ℕ)
    → IsSlug s
    → strip_with (λ c. c == dash) (sub_runs false (strip_with is_space s)) ≡ s
unfolding strip_with
slug_of_slug s (inl e) = rw e (unfold sub_runs strip_with in refl)
slug_of_slug s (inr t) = rw (drop_space-tidy true s t) (
    rw (drop_end_space-tidy true s t)
      (rw (sub_runs-tidy_start s t) (rw (drop_dash-tidy s t) (drop_end-dash-tidy true s t))))

-- Where `str.lower` leaves slugs alone, as Python's does, a slug is its own slug: a node registered
-- under the slug of a name is found under the slug of that slug.
pub model_name_to_slug_idem :
    (lower : List ℕ → List ℕ) (name : List ℕ)
    → ((s : List ℕ) → IsSlug s → lower s ≡ s)
    → model_name_to_slug lower (model_name_to_slug lower name) ≡ model_name_to_slug lower name
unfolding model_name_to_slug
model_name_to_slug_idem lower name fixed =
    let g = model_name_to_slug-IsSlug lower name in
    rw (fixed (model_name_to_slug lower name) g) (slug_of_slug (model_name_to_slug lower name) g)
