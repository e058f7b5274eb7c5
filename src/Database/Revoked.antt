-- ===== src/Database/Revoked.antt =====
-- What an API key opens, from its creation to its revocation.
use llama_net.Prelude.{
  ℕ, ◌≡◌, refl, ap, ◌∙◌, true, false, none, some, List, [], ◌∷◌, String, str_eq, keep, map, All,
  Bool-cases, take, ◌++◌, inl, inr, arith,
}
use llama_net.Prelude.Text.{codes}
use text.Mathlib.TextPositions.{eq_refl}
use llama_net.Database.State.{KeyRow, Manager}
use llama_net.Database.Calls.{returned, Schedule, execute}
use llama_net.Database.Keys.{
  raw_key, create_api_key, is_valid_row, validate_api_key, is_own, deactivated, revoke_api_key,
}

-- A row with the hash is the user's row with the id: ids and hashes are unique in the table.
pub record IsOwnKey (user id hash : String) (r : KeyRow) : Type 0 where
  pub own : str_eq r.key_hash hash ≡ true → is_own user id r ≡ true

deactivated_invalid :
    (user id hash : String) (r : KeyRow)
    → IsOwnKey user id hash r
    → is_valid_row hash (deactivated user id r) ≡ false
deactivated_invalid user id hash r h = elim (Bool-cases (is_own user id r)) [
  | inl e ↦ ground (arith, e)
  | inr e ↦ ground (arith, e, h.own)
]

none_valid :
    (user id hash : String) (rows : List KeyRow)
    → All (IsOwnKey user id hash) rows
    → keep (is_valid_row hash) (map (deactivated user id) rows) ≡ []
none_valid user id hash [] h = refl
none_valid user id hash (r ∷ rows) h =
    rw (deactivated_invalid user id hash r h.0) (none_valid user id hash rows h.1)

validate-none :
    (now : ℕ) (hash : String) (m : Manager) (s : Schedule)
    → keep (is_valid_row hash) m.api_keys ≡ []
    → (validate_api_key now hash m s).0 ≡ returned none
unfolding validate_api_key execute
validate-none now hash m [] h = rw h refl
validate-none now hash m (true ∷ s) h = refl
validate-none now hash m (false ∷ s) h = rw h refl

revoke-rows :
    (user id : String) (m : Manager) (s : Schedule)
    → (revoke_api_key user id m s).0 ≡ returned true
    → (revoke_api_key user id m s).1.api_keys ≡ map (deactivated user id) m.api_keys
unfolding revoke_api_key execute
revoke-rows user id m [] h = refl
revoke-rows user id m (true ∷ s) h = absurd (ground (arith, h))
revoke-rows user id m (false ∷ s) h = refl

-- A key that has been revoked, with the answer that it was found, opens nothing: whichever calls of the
-- database raise then, it is not accepted.
pub revoked-is_refused :
    (now : ℕ) (user id hash : String) (m : Manager) (s later : Schedule)
    → All (IsOwnKey user id hash) m.api_keys
    → (revoke_api_key user id m s).0 ≡ returned true
    → (validate_api_key now hash (revoke_api_key user id m s).1 later).0 ≡ returned none
revoked-is_refused now user id hash m s later own h =
    validate-none now hash (revoke_api_key user id m s).1 later (
      ap (keep (is_valid_row hash)) (revoke-rows user id m s h)
      ∙ none_valid user id hash m.api_keys own)

-- A key that is created is returned with its text, and its hash is then accepted as the user's, whichever
-- keys there were before.
pub created-validates :
    (sha256 : List ℕ → String) (hex : List ℕ) (now : ℕ) (id user name : String) (m : Manager)
    → let made = create_api_key sha256 hex id user name m [] in
      (made.0 ≡ returned (raw_key hex, take 12 (raw_key hex) ++ codes "..."))
      × ((validate_api_key now (sha256 (raw_key hex)) made.1 []).0 ≡ returned (some user))
unfolding create_api_key validate_api_key execute codes
created-validates sha256 hex now id user name m = (refl, rw (eq_refl (sha256 (raw_key hex))) refl)
