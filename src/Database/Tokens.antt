-- ===== src/Database/Tokens.antt =====
-- The accounting of tokens in gateway/supabase_client.py: the cumulative counters, the cache of the
-- counts last reported, and the detection of a restart.
use llama_net.Prelude.{ℕ, ◌+◌, ◌&&◌, ◌||◌, Option, none, some, [], ◌∷◌, String, ltb, if◌then◌else◌}
use llama_net.Prelude.Dict
use llama_net.Prelude.Dict.{Dict}
use llama_net.Database.State.{Cached, counts, legacy, NodeRow, Manager}
use llama_net.Database.Calls.{Method, pure, ◌>>=◌, ◌>>◌, catch, execute, select, write, get, modify}

-- `_get_cumulative_stat`: a counter that cannot be read counts as 0.
unfoldable pub get_cumulative_stat : String → Method ℕ
unfolding execute
get_cumulative_stat key = catch (select (λ m. Dict.get_or m.statistics key 0)) (pure 0)

unfoldable pub set_cumulative_stat : String → ℕ → Method (Unit {0})
unfolding execute
set_cumulative_stat key value =
    catch (write (λ m. record m { statistics = Dict.put m.statistics key value })) (pure tt)

-- `_add_cumulative_tokens`
unfoldable pub add_cumulative_tokens : ℕ → ℕ → Method (Unit {0})
unfolding get_cumulative_stat set_cumulative_stat
add_cumulative_tokens prompt completion = do
  current_in ← get_cumulative_stat "cumulative_prompt_tokens"
  current_gen ← get_cumulative_stat "cumulative_completion_tokens"
  set_cumulative_stat "cumulative_prompt_tokens" (current_in + prompt)
  set_cumulative_stat "cumulative_completion_tokens" (current_gen + completion)
  set_cumulative_stat "cumulative_total_tokens" (current_in + prompt + current_gen + completion)

-- The counts that a cache holds for a node: an old snapshot's number is not looked at here.
abbrev pub cached_prompt : Option Cached → ℕ
cached_prompt (some (counts p c)) = p
cached_prompt _ = 0

abbrev pub cached_completion : Option Cached → ℕ
cached_completion (some (counts p c)) = c
cached_completion _ = 0

-- `_node_token_cache[node_hash] = {…}`
abbrev pub remember : String → ℕ → ℕ → Manager → Manager
remember hash prompt completion m = record m {
  token_cache = Dict.put m.token_cache hash (counts prompt completion);
}

-- `_detect_restart_and_accumulate`
unfoldable pub detect_restart_and_accumulate : String → ℕ → ℕ → Method (Unit {0})
unfolding add_cumulative_tokens Dict.get
detect_restart_and_accumulate hash new_prompt new_completion = do
  cached ← get (λ m. Dict.get m.token_cache hash)
  (if ltb new_completion (cached_completion cached) && ltb 0 (cached_completion cached)
      then add_cumulative_tokens (cached_prompt cached) (cached_completion cached)
      else pure tt)
  modify (remember hash new_prompt new_completion)

-- `_persist_token_cache`
unfoldable pub persist_token_cache : Method (Unit {0})
unfolding execute
persist_token_cache = catch (write (λ m. record m { saved_cache = some m.token_cache })) (pure tt)

-- `_hydrate_token_cache`: the snapshot, and over it the rows of the active nodes. The first call that
-- raises ends it.
unfoldable pub update_cache : Dict Cached → Option (Dict Cached) → Dict Cached
update_cache cache none = cache
update_cache cache (some []) = cache
update_cache cache (some ((hash, c) ∷ saved)) = update_cache (Dict.put cache hash c) (some saved)

unfoldable pub with_rows : Dict NodeRow → Dict Cached → Dict Cached
with_rows [] cache = cache
with_rows ((hash, row) ∷ rows) cache = with_rows rows (
    if row.is_active
    then Dict.put cache hash (counts row.prompt_tokens row.completion_tokens)
    else cache)

unfoldable pub hydrate_token_cache : Method (Unit {0})
unfolding execute with_rows update_cache
hydrate_token_cache =
    catch
      (do
        saved ← select (λ m. m.saved_cache)
        modify (λ m. record m { token_cache = update_cache m.token_cache saved })
        rows ← select (λ m. m.nodes)
        modify (λ m. record m { token_cache = with_rows rows m.token_cache }))
      (pure tt)

-- What a departing node leaves to the counters; an old snapshot's number counts as completion.
abbrev pub departing_prompt : Option Cached → ℕ
departing_prompt (some (counts p c)) = p
departing_prompt _ = 0

abbrev pub departing_completion : Option Cached → ℕ
departing_completion (some (counts p c)) = c
departing_completion (some (legacy n)) = n
departing_completion none = 0

-- The first half of `deregister_node`.
unfoldable pub accumulate_departing : String → Method (Unit {0})
unfolding add_cumulative_tokens persist_token_cache Dict.get Dict.pop
accumulate_departing hash = do
  cached ← get (λ m. Dict.get m.token_cache hash)
  if ltb 0 (departing_prompt cached) || ltb 0 (departing_completion cached)
      then (do
        add_cumulative_tokens (departing_prompt cached) (departing_completion cached)
        modify (λ m. record m { token_cache = Dict.pop m.token_cache hash })
        persist_token_cache)
      else pure tt
