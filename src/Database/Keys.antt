-- ===== src/Database/Keys.antt =====
-- Users, API keys and the use of tokens of `SupabaseManager`, gateway/supabase_client.py. What the
-- database or the Python library makes up, an id, random digits, the time, the date and a hash, is an
-- argument.
use llama_net.Prelude.{
  ℕ, ◌+◌, Bool, true, false, ◌&&◌, Option, none, some, List, [], ◌∷◌, ◌++◌, String, str_eq, any,
  keep, map, take, if◌then◌else◌,
}
use llama_net.Prelude.Dict
use llama_net.Prelude.Text.{codes}
use llama_net.Database.State.{User, KeyRow, UsageRow}
use llama_net.Database.Calls.{Method, pure, ◌>>=◌, ◌>>◌, catch, execute, select, write}

-- `get_user`, of which the handlers use the id.
unfoldable pub get_user : String → Method (Option String)
unfolding execute
get_user id = catch (select (λ m. if Dict.has m.users id then some id else none)) (pure none)

-- Without the time of the last login, which nothing reads.
unfoldable pub get_or_create_user : String → User → Method String
unfolding execute
get_or_create_user id u = do
  found ← select (λ m. Dict.has m.users id)
  (if found then write (λ m. m) else write (λ m. record m { users = Dict.put m.users id u }))
  pure id

-- The raw key, and its first twelve characters with dots.
abbrev pub raw_key : List ℕ → List ℕ
raw_key hex = codes "ln-" ++ hex

unfoldable pub create_api_key :
    (List ℕ → String) → List ℕ → String → String → String → Method (List ℕ × List ℕ)
unfolding execute codes
create_api_key sha256 hex id user name =
    let key = raw_key hex in
    let prefix = take 12 key ++ codes "..." in
    write (λ m. record m {
      api_keys =
          record {
            id = id;
            user_id = user;
            key_hash = sha256 key;
            key_prefix = prefix;
            name = name;
            is_active = true;
            last_used = none;
          }
          ∷ m.api_keys;
    })
    >> pure (key, prefix)

abbrev pub is_valid_row : String → KeyRow → Bool
is_valid_row hash r = str_eq r.key_hash hash && r.is_active

abbrev used_at : ℕ → String → KeyRow → KeyRow
used_at now hash r = if str_eq r.key_hash hash then record r { last_used = some now } else r

abbrev accept_row : ℕ → String → List KeyRow → Method (Option String)
accept_row now hash [] = pure none
accept_row now hash (r ∷ rows) =
    write (λ m. record m { api_keys = map (used_at now hash) m.api_keys }) >> pure (some r.user_id)

unfoldable pub validate_api_key : ℕ → String → Method (Option String)
unfolding execute
validate_api_key now hash =
    catch (select (λ m. keep (is_valid_row hash) m.api_keys) >>= accept_row now hash) (pure none)

unfoldable pub list_api_keys : String → Method (List KeyRow)
unfolding execute
list_api_keys user = catch (select (λ m. keep (λ r. str_eq r.user_id user) m.api_keys)) (pure [])

abbrev pub is_own : String → String → KeyRow → Bool
is_own user id r = str_eq r.id id && str_eq r.user_id user

abbrev pub deactivated : String → String → KeyRow → KeyRow
deactivated user id r = if is_own user id r then record r { is_active = false } else r

unfoldable pub revoke_api_key : String → String → Method Bool
unfolding execute
revoke_api_key user id =
    catch
      (execute (λ m. (
        any (is_own user id) m.api_keys,
        record m { api_keys = map (deactivated user id) m.api_keys },
      )))
      (pure false)

abbrev pub is_use : String → String → UsageRow → Bool
is_use hash today r = str_eq r.key_hash hash && str_eq r.usage_date today

-- The first row of a key and a day, if there is one.
unfoldable pub find_use : String → String → List UsageRow → Option UsageRow
find_use hash today [] = none
find_use hash today (r ∷ rows) =
    let rest = find_use hash today rows in if is_use hash today r then some r else rest

abbrev pub counted : ℕ → UsageRow → UsageRow → UsageRow
counted tokens current r = record r {
  tokens_consumed = current.tokens_consumed + tokens;
  requests_count = current.requests_count + 1;
}

-- The update writes what was read, with the tokens added, to each row that matches.
unfoldable pub update_uses : (UsageRow → UsageRow) → String → String → List UsageRow → List UsageRow
update_uses f hash today [] = []
update_uses f hash today (r ∷ rows) =
    let rest = update_uses f hash today rows in (if is_use hash today r then f r else r) ∷ rest

abbrev pub write_use : String → String → ℕ → Option UsageRow → Method (Unit {0})
write_use hash today tokens (some current) =
    write (λ m. record m {
      token_usage = update_uses (counted tokens current) hash today m.token_usage;
    })
write_use hash today tokens none = write (λ m. record m {
  token_usage =
      record { key_hash = hash; usage_date = today; tokens_consumed = tokens; requests_count = 1 }
      ∷ m.token_usage;
})

unfoldable pub record_token_usage : String → String → ℕ → Method (Unit {0})
unfolding execute
record_token_usage hash today tokens =
    catch (select (λ m. find_use hash today m.token_usage) >>= write_use hash today tokens)
      (pure tt)

abbrev pub consumed_in : Option UsageRow → ℕ
consumed_in none = 0
consumed_in (some r) = r.tokens_consumed

-- The consumed tokens of `get_token_usage`.
unfoldable pub get_token_usage : String → String → Method ℕ
unfolding execute
get_token_usage hash today =
    catch (select (λ m. consumed_in (find_use hash today m.token_usage))) (pure 0)
