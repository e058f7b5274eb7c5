-- ===== src/Database/Calls.antt =====
-- Calls of the database, each of which may raise. Which of them do is given by a schedule, one flag
-- for each call in the order in which they are made; a call behind its end does not raise.
use llama_net.Prelude.{Bool, true, false, List, [], ◌∷◌}
use llama_net.Database.State.{Manager}

pub data Outcome {ℓ} (A : Type ℓ) : Type ℓ where
  returned : A → Outcome A
  raised : Outcome A

abbrev pub Schedule : Type 0
Schedule = List Bool

-- A method: from the manager and the schedule to an outcome, with what is left of both.
abbrev pub Method : Type 0 → Type 0
Method A = Manager → Schedule → Outcome A × Manager × Schedule

abbrev pub pure : {A : Type 0} → A → Method A
pure a m s = (returned a, m, s)

infixl 5 ◌>>=◌ ◌>>◌
abbrev pub bind_with :
    {A B : Type 0}
    → (A → Method B)
    → Outcome A × Manager × Schedule
    → Outcome B × Manager × Schedule
bind_with f (returned a, m, s) = f a m s
bind_with f (raised, m, s) = (raised, m, s)

abbrev pub ◌>>=◌ : {A B : Type 0} → Method A → (A → Method B) → Method B
◌>>=◌ x f m s = bind_with f (x m s)

abbrev pub ◌>>◌ : {A B : Type 0} → Method A → Method B → Method B
x >> y = x >>= λ _. y

-- `except Exception:` with the handler's method, from the state that the failed call leaves.
abbrev pub handle_with :
    {A : Type 0} → Method A → Outcome A × Manager × Schedule → Outcome A × Manager × Schedule
handle_with h (returned a, m, s) = (returned a, m, s)
handle_with h (raised, m, s) = h m s

abbrev pub catch : {A : Type 0} → Method A → Method A → Method A
catch x h m s = handle_with h (x m s)

-- `execute()`: a call that raises changes nothing.
unfoldable pub execute : {A : Type 0} → (Manager → A × Manager) → Method A
execute call m [] = (returned (call m).0, (call m).1, [])
execute call m (true ∷ s) = (raised, m, s)
execute call m (false ∷ s) = (returned (call m).0, (call m).1, s)

-- A reading of the database, a write to it, a reading of the manager, and a change of it.
abbrev pub select : {A : Type 0} → (Manager → A) → Method A
select f = execute (λ m. (f m, m))

abbrev pub write : (Manager → Manager) → Method (Unit {0})
write f = execute (λ m. (tt, f m))

abbrev pub get : {A : Type 0} → (Manager → A) → Method A
get f m s = (returned (f m), m, s)

abbrev pub modify : (Manager → Manager) → Method (Unit {0})
modify f m s = (returned tt, f m, s)
