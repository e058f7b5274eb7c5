-- ===== src/Database/Effects.antt =====
-- What a report and a departure do to the accounting, where all calls of the database succeed.
use llama_net.Prelude.{
  ℕ, ◌+◌, ◌≡◌, refl, sym, subst, ◌⊎◌, ◌&&◌, some, [], ◌∷◌, String, str_eq, ◌||◌, arith, eq_iff, ltb,
  if◌then◌else◌, Bool-cases, inl, inr,
}
use llama_net.Prelude.Dict
use llama_net.Prelude.Dict.{Dict, Distinct, Each}
use llama_net.Database.State.{Cached, counts, legacy, Manager}
use llama_net.Database.Calls.{returned}
use llama_net.Database.Tokens.{
  cached_prompt, cached_completion, remember, departing_prompt, departing_completion,
}
use llama_net.Database.Ledger.{
  report, depart, account, newly, accounted, completions-put, completions-pop, added, counter-added,
  IsCounts, IsTracked,
}

pub reported : (hash : String) (p c : ℕ) (m : Manager) → Manager
reported hash p c m =
    let old = Dict.get m.token_cache hash in
    if ltb c (cached_completion old) && ltb 0 (cached_completion old)
    then remember hash p c (added (cached_prompt old) (cached_completion old) m)
    else remember hash p c m

pub account-report :
    (hash : String) (p c : ℕ) (m : Manager)
    → account (report hash p c) m [] ≡ (returned tt, reported hash p c m, [])
unfolding account reported
account-report hash p c m =
    elim (Bool-cases (
      ltb c (cached_completion (Dict.get m.token_cache hash))
      && ltb 0 (cached_completion (Dict.get m.token_cache hash)))) [
        | inl e ↦ rw e refl
        | inr e ↦ rw e refl
      ]

-- One report: the counter takes what is left behind, and the cache the new counts.
pub accounted-reported :
    (hash : String) (p c : ℕ) (m : Manager)
    → accounted (reported hash p c m)
      ≡ accounted m + newly (cached_completion (Dict.get m.token_cache hash)) c
unfolding reported
accounted-reported hash p c m =
    let old = Dict.get m.token_cache hash in
    ground (
      arith,
      completions-put m.token_cache hash p c,
      counter-added (cached_prompt old) (cached_completion old) m,
    )

pub cached-reported :
    (hash : String) (p c : ℕ) (m : Manager) (h : String)
    → cached_completion (Dict.get (reported hash p c m).token_cache h)
      ≡ (if str_eq hash h then c else cached_completion (Dict.get m.token_cache h))
unfolding reported
cached-reported hash p c m h = ground (arith, Dict.get-put m.token_cache hash h (counts p c))

cache-reported :
    (hash : String) (p c : ℕ) (m : Manager)
    → (reported hash p c m).token_cache ≡ Dict.put m.token_cache hash (counts p c)
unfolding reported
cache-reported hash p c m = ground arith

pub departed : (hash : String) (m : Manager) → Manager
departed hash m =
    let old = Dict.get m.token_cache hash in
    if ltb 0 (departing_prompt old) || ltb 0 (departing_completion old)
    then (let a = added (departing_prompt old) (departing_completion old) m in
        record a {
          token_cache = Dict.pop m.token_cache hash;
          saved_cache = some (Dict.pop m.token_cache hash);
        })
    else m

pub account-depart :
    (hash : String) (m : Manager) → account (depart hash) m [] ≡ (returned tt, departed hash m, [])
unfolding account departed
account-depart hash m =
    elim (Bool-cases (
      ltb 0 (departing_prompt (Dict.get m.token_cache hash))
      || ltb 0 (departing_completion (Dict.get m.token_cache hash)))) [
        | inl e ↦ rw e refl
        | inr e ↦ rw e refl
      ]

departing-cached :
    (d : Dict Cached) (k : String)
    → Each IsCounts d
    → departing_completion (Dict.get d k) ≡ cached_completion (Dict.get d k)
unfolding Dict.get
departing-cached [] k h = refl
departing-cached ((j, counts p c) ∷ d) k h = ground (arith, departing-cached d k h.1)
departing-cached ((j, legacy n) ∷ d) k h = absurd h.0

pub accounted-departed :
    (hash : String) (m : Manager) → IsTracked m → accounted (departed hash m) ≡ accounted m
unfolding departed
accounted-departed hash m t =
    let old = Dict.get m.token_cache hash in
    ground (
      arith,
      completions-pop m.token_cache hash t.distinct,
      departing-cached m.token_cache hash t.counted,
      counter-added (departing_prompt old) (departing_completion old) m,
    )

pub cached-departed :
    (hash : String) (m : Manager) (h : String)
    → IsTracked m
    → cached_completion (Dict.get (departed hash m).token_cache h)
      ≡ (if str_eq hash h then 0 else cached_completion (Dict.get m.token_cache h))
unfolding departed
cached-departed hash m h t = ground (
  arith,
  Dict.get-pop m.token_cache hash h,
  departing-cached m.token_cache hash t.counted,
  eq_iff hash h,
)

pub reported-IsTracked :
    (hash : String) (p c : ℕ) (m : Manager) → IsTracked m → IsTracked (reported hash p c m)
reported-IsTracked hash p c m t = record {
  distinct =
      subst Distinct (sym (cache-reported hash p c m))
        (Dict.Distinct-put m.token_cache hash (counts p c) t.distinct);
  counted =
      subst (Each IsCounts) (sym (cache-reported hash p c m))
        (Dict.Each-put IsCounts m.token_cache hash (counts p c) t.counted tt);
}

cache-departed :
    (hash : String) (m : Manager)
    → ((departed hash m).token_cache ≡ m.token_cache)
      ⊎ ((departed hash m).token_cache ≡ Dict.pop m.token_cache hash)
unfolding departed
cache-departed hash m = ground arith

pub departed-IsTracked : (hash : String) (m : Manager) → IsTracked m → IsTracked (departed hash m)
departed-IsTracked hash m t = elim (cache-departed hash m) [
  | inl e ↦ record {
    distinct = subst Distinct (sym e) t.distinct;
    counted = subst (Each IsCounts) (sym e) t.counted;
  }
  | inr e ↦ record {
    distinct = subst Distinct (sym e) (Dict.Distinct-pop m.token_cache hash t.distinct);
    counted = subst (Each IsCounts) (sym e) (Dict.Each-pop IsCounts m.token_cache hash t.counted);
  }
]
