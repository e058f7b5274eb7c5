-- ===== src/Gateway/Auth.antt =====
-- `AuthManager` of gateway/auth.py. What the identity service answers to a token, and the hash of the
-- Python library, are in the Identities.
use llama_net.Prelude.{ℕ, Option, none, some, String, str_eq, if◌then◌else◌}
use text.Mathlib.Text.{starts_with}
use llama_net.Prelude.Text
use llama_net.Database.State.{User}
use llama_net.Database.Calls.{Method, pure, ◌>>=◌, catch}
use llama_net.Database.Keys.{get_user, get_or_create_user, validate_api_key}

-- The id and the data of the user to whom a token belongs, if the service answers 200 with an id.
pub record Identities : Type 0 where
  pub identify : String → Option (String × User)
  pub sha256 : String → String
  pub now : ℕ

-- The headers and the cookie of a request; a header that is missing is empty.
pub record Credentials : Type 0 where
  pub authorization : String
  pub llamanet_session : String

unfoldable pub validate_supabase_token : Identities → String → Method (Option String)
unfolding get_or_create_user
validate_supabase_token w token =
    catch
      (elim (w.identify token) [
        | none ↦ pure none
        | some (id, u) ↦ get_or_create_user id u >>= λ found. pure (some found)
      ])
      (pure none)

abbrev pub user_of_key : Option String → Method (Option String)
user_of_key none = pure none
user_of_key (some id) = if str_eq id "" then pure none else get_user id

unfoldable pub by_cookie : Identities → Credentials → Method (Option String)
unfolding validate_supabase_token
by_cookie w c =
    if str_eq c.llamanet_session "" then pure none else validate_supabase_token w c.llamanet_session

abbrev pub or_cookie : Identities → Credentials → Option String → Method (Option String)
or_cookie w c none = by_cookie w c
or_cookie w c (some id) = pure (some id)

-- The id of the user, if there is one.
unfoldable pub get_current_user : Identities → Credentials → Method (Option String)
unfolding by_cookie validate_supabase_token
get_current_user w c =
    catch
      (if starts_with c.authorization "Bearer "
        then (let token = Text.drop 7 c.authorization in
            if starts_with token "ln-"
            then validate_api_key w.now (w.sha256 token) >>= user_of_key
            else validate_supabase_token w token >>= or_cookie w c)
        else by_cookie w c)
      (pure none)
