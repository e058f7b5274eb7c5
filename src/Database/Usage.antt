-- ===== src/Database/Usage.antt =====
-- The daily use of tokens, against the sum of what is recorded.
use llama_net.Prelude.{
  ℕ, ◌≡◌, ◌≤◌, ◌+◌, refl, sym, ap, subst, ◌∙◌, Bool, true, false, Option, none, some, List, [], ◌∷◌,
  String, str_eq, eq_iff, Bool-cases, inl, inr, if◌then◌else◌, arith,
}
use text.Mathlib.TextPositions.{eq_refl}
use llama_net.Database.State.{UsageRow, Manager}
use llama_net.Database.Calls.{
  Outcome, returned, raised, Schedule, Method, pure, ◌>>◌, bind_with, handle_with, execute,
}
use llama_net.Database.Keys.{
  is_use, find_use, counted, update_uses, consumed_in, write_use, record_token_usage,
}

-- What is charged to a key by one record, and by a list of records.
abbrev pub charge : String → String × ℕ → ℕ
charge h (k, t) = if str_eq k h then t else 0

unfoldable pub charges : String → List (String × ℕ) → ℕ
charges h [] = 0
charges h (u ∷ us) = charge h u + charges h us

unfoldable pub record_all : String → List (String × ℕ) → Method (Unit {0})
record_all today [] = pure tt
record_all today ((k, t) ∷ us) = record_token_usage k today t >> record_all today us

abbrev pub usage : String → String → Manager → ℕ
usage h today m = consumed_in (find_use h today m.token_usage)

update-same :
    (h today : String) (t : ℕ) (c : UsageRow) (rows : List UsageRow)
    → find_use h today rows ≡ some c
    → consumed_in (find_use h today (update_uses (counted t c) h today rows))
      ≡ c.tokens_consumed + t
unfolding find_use update_uses
update-same h today t c [] e = absurd (ground (arith, e))
update-same h today t c (r ∷ rows) e = elim (Bool-cases (is_use h today r)) [
  | inl q ↦ ground (arith, q)
  | inr q ↦ ground (arith, q, e, update-same h today t c rows)
]

update-other :
    (h k today : String) (t : ℕ) (c : UsageRow) (rows : List UsageRow)
    → str_eq k h ≡ false
    → find_use h today (update_uses (counted t c) k today rows) ≡ find_use h today rows
unfolding find_use update_uses
update-other h k today t c [] e = refl
update-other h k today t c (r ∷ rows) e = elim (Bool-cases (is_use k today r)) [
  | inl q ↦ ground (
    arith,
    q,
    e,
    update-other h k today t c rows e,
    eq_iff r.key_hash k,
    eq_iff r.key_hash h,
    eq_iff k h,
  )
  | inr q ↦ ground (arith, q, update-other h k today t c rows e)
]

-- A method's end, which charges at most what was to be charged, and exactly that where no call raises.
pub record IsCharged (h today : String) (n : ℕ) (m : Manager) (s : Schedule)
    (after : Outcome (Unit {0}) × Manager × Schedule) : Type 0 where
  pub at_most : usage h today after.1 ≤ usage h today m + n
  pub exactly : s ≡ [] → (usage h today after.1 ≡ usage h today m + n) × (after.2 ≡ [])

charged-own :
    (h k today : String) (t : ℕ) (c : UsageRow) (rows : List UsageRow)
    → k ≡ h
    → find_use k today rows ≡ some c
    → consumed_in (find_use h today (update_uses (counted t c) k today rows))
      ≡ consumed_in (find_use h today rows) + t
charged-own h k today t c rows p e =
    subst
      (λ x.
        consumed_in (find_use x today (update_uses (counted t c) k today rows))
        ≡ consumed_in (find_use x today rows) + t)
      p (update-same k today t c rows e ∙ ap (λ o. consumed_in o + t) (sym e))

written-usage :
    (h k today : String) (t : ℕ) (m : Manager) (o : Option UsageRow)
    → find_use k today m.token_usage ≡ o
    → usage h today (write_use k today t o m []).1 ≡ usage h today m + charge h (k, t)
unfolding execute find_use
written-usage h k today t m none e = elim (Bool-cases (str_eq k h)) [
  | inl q ↦ ground (arith, q, e, eq_iff k h, eq_refl today)
  | inr q ↦ ground (arith, q)
]
written-usage h k today t m (some c) e = elim (Bool-cases (str_eq k h)) [
  | inl q ↦
      ground (arith, q, charged-own h k today t c m.token_usage (ground (arith, q, eq_iff k h)) e)
  | inr q ↦ ground (arith, q, update-other h k today t c m.token_usage q)
]

write-calls :
    (k today : String) (t : ℕ) (m : Manager) (o : Option UsageRow)
    → (write_use k today t o m []).2 ≡ []
unfolding execute
write-calls k today t m none = refl
write-calls k today t m (some c) = refl

write-again :
    (k today : String) (t : ℕ) (m : Manager) (o : Option UsageRow) (f : Bool) (s : Schedule)
    → (write_use k today t o m (f ∷ s)).1 ≡ (if f then m else (write_use k today t o m []).1)
unfolding execute
write-again k today t m none true s = refl
write-again k today t m none false s = refl
write-again k today t m (some c) true s = refl
write-again k today t m (some c) false s = refl

write-IsCharged :
    (h k today : String) (t : ℕ) (m : Manager) (o : Option UsageRow) (s : Schedule)
    → find_use k today m.token_usage ≡ o
    → IsCharged h today (charge h (k, t)) m s (write_use k today t o m s)
write-IsCharged h k today t m o [] e = record {
  at_most = ground (arith, written-usage h k today t m o e);
  exactly = λ q. (written-usage h k today t m o e, write-calls k today t m o);
}
write-IsCharged h k today t m o (true ∷ s) e = record {
  at_most = rw (write-again k today t m o true s) (omega arith);
  exactly = λ q. absurd (ground (arith, q));
}
write-IsCharged h k today t m o (false ∷ s) e = record {
  at_most =
      rw (write-again k today t m o false s) (ground (arith, written-usage h k today t m o e));
  exactly = λ q. absurd (ground (arith, q));
}

handled-IsCharged :
    (h today : String) (n : ℕ) (m : Manager) (s : Schedule)
    (r : Outcome (Unit {0}) × Manager × Schedule)
    → IsCharged h today n m s r
    → IsCharged h today n m s (handle_with (pure tt) r)
      × ((handle_with (pure tt) r).0 ≡ returned tt)
handled-IsCharged h today n m s (returned x, m', s') c = (c, refl)
handled-IsCharged h today n m s (raised, m', s') c =
    (record { at_most = c.at_most; exactly = c.exactly }, refl)

record-IsCharged :
    (h k today : String) (t : ℕ) (m : Manager) (s : Schedule)
    → IsCharged h today (charge h (k, t)) m s (record_token_usage k today t m s)
      × ((record_token_usage k today t m s).0 ≡ returned tt)
unfolding record_token_usage execute
record-IsCharged h k today t m [] =
    handled-IsCharged h today _ m [] _ (write-IsCharged h k today t m _ [] refl)
record-IsCharged h k today t m (true ∷ s) =
    (record { at_most = omega arith; exactly = λ e. absurd (ground (arith, e)) }, refl)
record-IsCharged h k today t m (false ∷ s) = handled-IsCharged h today _ m _ _ (record {
  at_most = (write-IsCharged h k today t m _ s refl).at_most;
  exactly = λ e. absurd (ground (arith, e));
})

bind-returned :
    (f : Method (Unit {0})) (r : Outcome (Unit {0}) × Manager × Schedule)
    → r.0 ≡ returned tt
    → bind_with (λ x. f) r ≡ f r.1 r.2
bind-returned f (returned x, m, s) e = refl
bind-returned f (raised, m, s) e = absurd (ground (arith, e))

-- The tokens of a day that are found for a key after a list of records are at most those before it and
-- those recorded for the key, whichever calls of the database raise; and they are exactly these if none
-- raises.
pub recorded-usage :
    (h today : String) (uses : List (String × ℕ)) (m : Manager) (s : Schedule)
    → IsCharged h today (charges h uses) m s (record_all today uses m s)
unfolding record_all charges
recorded-usage h today [] m s = record { at_most = omega arith; exactly = λ e. (omega arith, e) }
recorded-usage h today ((k, t) ∷ us) m s =
    let r = record_token_usage k today t m s in
    let (c, e) = record-IsCharged h k today t m s in
    let rest = recorded-usage h today us r.1 r.2 in
    subst (IsCharged h today (charges h ((k, t) ∷ us)) m s)
      (sym (bind-returned (record_all today us) r e))
      (record {
        at_most = ground (arith, c.at_most, rest.at_most);
        exactly = λ q. (
          ground (arith, (c.exactly q).0, (rest.exactly (c.exactly q).1).0),
          (rest.exactly (c.exactly q).1).1,
        );
      })
