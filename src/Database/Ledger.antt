-- ===== src/Database/Ledger.antt =====
-- A ledger of the tokens generated, which knows nothing of caches and restarts, and the sum that the
-- gateway's own accounting holds.
use llama_net.Prelude.{
  ℕ, ◌+◌, ◌-◌, ◌≡◌, refl, ◌∙◌, none, some, List, [], ◌∷◌, String, arith, eq_iff, ltb, if◌then◌else◌,
}
use llama_net.Prelude.Dict
use llama_net.Prelude.Dict.{Dict, Distinct, Each}
use llama_net.Database.State.{Cached, counts, legacy, Manager}
use llama_net.Database.Calls.{Method, pure, ◌>>◌}
use llama_net.Database.Tokens.{
  cached_completion, detect_restart_and_accumulate, accumulate_departing,
}

-- What reaches the accounting: a node reports its counts, or it departs.
pub data Event : Type 0 where
  report : String → ℕ → ℕ → Event
  depart : String → Event

unfoldable pub account : Event → Method (Unit {0})
unfolding detect_restart_and_accumulate accumulate_departing
account (report hash prompt completion) = detect_restart_and_accumulate hash prompt completion
account (depart hash) = accumulate_departing hash

unfoldable pub account_all : List Event → Method (Unit {0})
account_all [] = pure tt
account_all (e ∷ es) = account e >> account_all es

-- The ledger: the count at which each node that is running stands, and the completion tokens generated
-- by all nodes so far. A count below the last one is that of a new process.
pub record Ledger : Type 0 where
  pub running : Dict ℕ
  pub generated : ℕ

abbrev pub newly : ℕ → ℕ → ℕ
newly old new = if ltb new old then new else new - old

abbrev pub enter : Event → Ledger → Ledger
enter (report hash prompt completion) l = record {
  running = Dict.put l.running hash completion;
  generated = l.generated + newly (Dict.get_or l.running hash 0) completion;
}
enter (depart hash) l = record l { running = Dict.pop l.running hash }

abbrev pub enter_all : List Event → Ledger → Ledger
enter_all [] l = l
enter_all (e ∷ es) l = enter_all es (enter e l)

-- The completion tokens in the accounting: the counter, and the counts of the nodes in the cache.
abbrev pub completions : Dict Cached → ℕ
completions [] = 0
completions ((hash, c) ∷ d) = cached_completion (some c) + completions d

abbrev pub counter : String → Manager → ℕ
counter key m = Dict.get_or m.statistics key 0

abbrev pub accounted : Manager → ℕ
accounted m = counter "cumulative_completion_tokens" m + completions m.token_cache

pub completions-put :
    (d : Dict Cached) (k : String) (p c : ℕ)
    → completions (Dict.put d k (counts p c)) + cached_completion (Dict.get d k) ≡ completions d + c
unfolding Dict.put Dict.get
completions-put [] k p c = omega arith
completions-put ((j, w) ∷ d) k p c = ground (arith, completions-put d k p c)

pub completions-absent :
    (d : Dict Cached) (k : String)
    → Dict.get d k ≡ none
    → completions (Dict.pop d k) ≡ completions d
unfolding Dict.pop Dict.get
completions-absent [] k h = refl
completions-absent ((j, w) ∷ d) k h = ground (arith, completions-absent d k)

pub completions-pop :
    (d : Dict Cached) (k : String)
    → Distinct d
    → completions (Dict.pop d k) + cached_completion (Dict.get d k) ≡ completions d
unfolding Dict.pop Dict.get
completions-pop [] k h = refl
completions-pop ((j, w) ∷ d) k h =
    ground (arith, completions-pop d k h.1, completions-absent d k, eq_iff j k)

abbrev pub added : ℕ → ℕ → Manager → Manager
added p c m =
    let i = counter "cumulative_prompt_tokens" m in
    let g = counter "cumulative_completion_tokens" m in
    record m {
      statistics =
          Dict.put
            (Dict.put (Dict.put m.statistics "cumulative_prompt_tokens" (i + p))
              "cumulative_completion_tokens" (g + c))
            "cumulative_total_tokens" (i + p + g + c);
    }

pub counter-added :
    (p c : ℕ) (m : Manager)
    → counter "cumulative_completion_tokens" (added p c m)
      ≡ counter "cumulative_completion_tokens" m + c
counter-added p c m =
    let i = counter "cumulative_prompt_tokens" m in
    let g = counter "cumulative_completion_tokens" m in
    let prompts = Dict.put m.statistics "cumulative_prompt_tokens" (i + p) in
    Dict.get_or-put (Dict.put prompts "cumulative_completion_tokens" (g + c))
      "cumulative_total_tokens" "cumulative_completion_tokens" (i + p + g + c) 0
    ∙ Dict.get_or-put prompts "cumulative_completion_tokens" "cumulative_completion_tokens" (g + c)
        0

abbrev pub IsCounts : Cached → Type 0
IsCounts (counts p c) = Unit
IsCounts (legacy n) = ⊥

-- The cache holds each node once, and no number of an old snapshot.
pub record IsTracked (m : Manager) : Type 0 where
  pub distinct : Distinct m.token_cache
  pub counted : Each IsCounts m.token_cache
