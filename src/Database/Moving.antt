-- ===== src/Database/Moving.antt =====
-- Which URLs the methods of the manager write: only a registration writes one.
use llama_net.Prelude.{
  ℕ, Bool, Option, none, some, List, [], ◌∷◌, String, str_eq, map, ltb, ◌&&◌, ◌||◌, if◌then◌else◌,
  Bool-cases, inl, inr,
}
use llama_net.Prelude.Dict
use llama_net.Prelude.Dict.{Dict, Each, Each-put}
use llama_net.Database.State.{Cached, Gauges, NodeRow, ModelRow}
use llama_net.Database.Calls.{pure, ◌>>◌, catch, write, modify}
use llama_net.Database.Tokens.{
  get_cumulative_stat, set_cumulative_stat, add_cumulative_tokens, detect_restart_and_accumulate,
  persist_token_cache, accumulate_departing, cached_prompt, cached_completion, remember,
  departing_prompt, departing_completion,
}
use llama_net.Database.Models.{
  Listed, named, described, unknown, evict_where, upsert_models, upsert_node_models, evict_rows,
  evict_stale_node_models,
}
use llama_net.Database.Nodes.{
  Metrics, with_defaults, set_probe, change_rows, update_nodes, updated_row, retired, update_pool,
  update_probe, update_node_metrics, retire_node, deregister_node,
}
use llama_net.Database.Register.{
  Registration, with_node_metrics, listed_models, registered_row, seed, existing_tokens,
  accumulate_rejoining, register_node,
}
use llama_net.Database.Urls.{
  Keeps, Keeps-bind, Keeps-then, Keeps-catch, Keeps-pure, Keeps-execute, Keeps-select, Keeps-write,
  Keeps-modify, Keeps-if,
}

module _ (U : String → Type 0) where
  get_cumulative_stat-Keeps : (key : String) → Keeps U (get_cumulative_stat key)
  unfolding get_cumulative_stat
  get_cumulative_stat-Keeps key = Keeps-catch U _ _ (Keeps-select U _) (Keeps-pure U _)

  set_cumulative_stat-Keeps : (key : String) (v : ℕ) → Keeps U (set_cumulative_stat key v)
  unfolding set_cumulative_stat
  set_cumulative_stat-Keeps key v = Keeps-catch U _ _ (Keeps-write U _ (λ m h. h)) (Keeps-pure U _)

  add_cumulative_tokens-Keeps : (p c : ℕ) → Keeps U (add_cumulative_tokens p c)
  unfolding add_cumulative_tokens
  add_cumulative_tokens-Keeps p c = Keeps-bind U _ _ (get_cumulative_stat-Keeps _) (λ i.
      Keeps-bind U _ _ (get_cumulative_stat-Keeps _) (λ g.
        Keeps-then U _ _ (set_cumulative_stat-Keeps _ _)
          (Keeps-then U _ _ (set_cumulative_stat-Keeps _ _) (set_cumulative_stat-Keeps _ _))))

  restart-Keeps :
      (hash : String) (p c : ℕ) (cached : Option Cached)
      → Keeps U (
          (if ltb c (cached_completion cached) && ltb 0 (cached_completion cached)
            then add_cumulative_tokens (cached_prompt cached) (cached_completion cached)
            else pure tt)
          >> modify (remember hash p c))
  restart-Keeps hash p c cached =
      Keeps-then U _ _ (Keeps-if U _ _ _ (add_cumulative_tokens-Keeps _ _) (Keeps-pure U _))
        (Keeps-modify U _ (λ m h. h))

  detect_restart-Keeps :
      (hash : String) (p c : ℕ) → Keeps U (detect_restart_and_accumulate hash p c)
  unfolding detect_restart_and_accumulate
  detect_restart-Keeps hash p c = record {
    at = λ m s h. (restart-Keeps hash p c (Dict.get m.token_cache hash)).at m s h;
  }

  persist_token_cache-Keeps : Keeps U persist_token_cache
  unfolding persist_token_cache
  persist_token_cache-Keeps = Keeps-catch U _ _ (Keeps-write U _ (λ m h. h)) (Keeps-pure U _)

  departing-Keeps :
      (hash : String) (cached : Option Cached)
      → Keeps U (
          if ltb 0 (departing_prompt cached) || ltb 0 (departing_completion cached)
          then (add_cumulative_tokens (departing_prompt cached) (departing_completion cached)
              >> (modify (λ m. record m { token_cache = Dict.pop m.token_cache hash })
                  >> persist_token_cache))
          else pure tt)
  departing-Keeps hash cached =
      Keeps-if U _ _ _
        (Keeps-then U _ _ (add_cumulative_tokens-Keeps _ _)
          (Keeps-then U _ _ (Keeps-modify U _ (λ m h. h)) persist_token_cache-Keeps))
        (Keeps-pure U _)

  accumulate_departing-Keeps : (hash : String) → Keeps U (accumulate_departing hash)
  unfolding accumulate_departing
  accumulate_departing-Keeps hash = record {
    at = λ m s h. (departing-Keeps hash (Dict.get m.token_cache hash)).at m s h;
  }

  evict_where-Keeps : (p : ModelRow → Bool) → Keeps U (catch (write (evict_where p)) (pure tt))
  evict_where-Keeps p = Keeps-catch U _ _ (Keeps-write U _ (λ m h. h)) (Keeps-pure U _)

  evict_rows-Keeps :
      (hash : String) (valid : List (List ℕ)) (rows : List ModelRow)
      → Keeps U (evict_rows hash valid rows)
  unfolding evict_rows
  evict_rows-Keeps hash valid [] = Keeps-pure U _
  evict_rows-Keeps hash valid (r ∷ rows) =
      Keeps-then U _ _ (Keeps-if U _ _ _ (Keeps-pure U _) (Keeps-write U _ (λ m h. h)))
        (evict_rows-Keeps hash valid rows)

  pub evict_stale-Keeps :
      (hash : String) (valid : List (List ℕ)) → Keeps U (evict_stale_node_models hash valid)
  unfolding evict_stale_node_models
  evict_stale-Keeps hash [] = Keeps-pure U _
  evict_stale-Keeps hash (slug ∷ valid) =
      Keeps-catch U _ _
        (Keeps-bind U _ _ (Keeps-select U _) (λ rows. evict_rows-Keeps hash (slug ∷ valid) rows))
        (Keeps-pure U _)

  module _ (lower : List ℕ → List ℕ) where
    upsert_models-Keeps :
        (hash : String) (active : List ℕ) (only : Bool) (rows : List ModelRow) (ls : List Listed)
        → Keeps U (upsert_models lower hash active only rows ls)
    unfolding upsert_models
    upsert_models-Keeps hash active only rows [] = Keeps-pure U _
    upsert_models-Keeps hash active only rows (named name ∷ ls) =
        Keeps-if U _ _ _ (upsert_models-Keeps hash active only rows ls) (
          Keeps-then U _ _ (Keeps-write U _ (λ m h. h))
            (upsert_models-Keeps hash active only rows ls))
    upsert_models-Keeps hash active only rows (described r ∷ ls) =
        Keeps-if U _ _ _ (upsert_models-Keeps hash active only rows ls) (
          Keeps-then U _ _ (Keeps-write U _ (λ m h. h))
            (upsert_models-Keeps hash active only rows ls))
    upsert_models-Keeps hash active only rows (unknown ∷ ls) =
        upsert_models-Keeps hash active only rows ls

    pub upsert_node_models-Keeps :
        (hash : String) (ls : List Listed) (active : List ℕ)
        → Keeps U (upsert_node_models lower hash ls active)
    unfolding upsert_node_models
    upsert_node_models-Keeps hash ls active =
        Keeps-catch U _ _
          (Keeps-bind U _ _ (Keeps-catch U _ _ (Keeps-select U _) (Keeps-pure U _))
            (λ rows. upsert_models-Keeps hash active _ rows ls))
          (Keeps-pure U _)

  -- Changing the rows of a node, by a function that leaves the URL or writes such a one.
  pub changed-AllUrls :
      (hash : String) (f : NodeRow → NodeRow) (rows : Dict NodeRow)
      → ((r : NodeRow) → U r.url → U (f r).url)
      → Each (λ r. U r.url) rows
      → Each (λ r. U r.url) (change_rows hash f rows)
  changed-AllUrls hash f [] k h = tt
  changed-AllUrls hash f ((id, r) ∷ rows) k h = elim (Bool-cases (str_eq id hash)) [
    | inl e ↦ rw e (k r h.0, changed-AllUrls hash f rows k h.1)
    | inr e ↦ rw e (h.0, changed-AllUrls hash f rows k h.1)
  ]

  pub update_nodes-Keeps :
      (hash : String) (f : NodeRow → NodeRow)
      → ((r : NodeRow) → U r.url → U (f r).url)
      → Keeps U (update_nodes hash f)
  update_nodes-Keeps hash f k = Keeps-execute U _ (λ m h. changed-AllUrls hash f m.nodes k h)

  found_probe-Keeps :
      (hash : String) (g : Gauges) (found : Option (List ℕ))
      → Keeps U (elim found [ none ↦ pure tt | some slug ↦ write (set_probe hash slug g) ])
  found_probe-Keeps hash g none = Keeps-pure U _
  found_probe-Keeps hash g (some slug) = Keeps-write U _ (λ m h. h)

  update_probe-Keeps : (hash : String) (g : Gauges) → Keeps U (update_probe hash g)
  unfolding update_probe
  update_probe-Keeps hash g =
      Keeps-catch U _ _ (Keeps-bind U _ _ (Keeps-select U _) (found_probe-Keeps hash g))
        (Keeps-pure U _)

  update_pool-Keeps :
      (lower : List ℕ → List ℕ) (hash : String) (ls : Option (List Listed))
      → Keeps U (update_pool lower hash ls)
  unfolding update_pool
  update_pool-Keeps lower hash none = Keeps-pure U _
  update_pool-Keeps lower hash (some []) = evict_where-Keeps _
  update_pool-Keeps lower hash (some (l ∷ ls)) =
      Keeps-bind U _ _ (Keeps-catch U _ _ (Keeps-select U _) (Keeps-pure U _))
        (λ slug. upsert_node_models-Keeps lower hash (l ∷ ls) slug)

  probed-Keeps :
      (hash : String) (g : Gauges) (pool : Option (List Listed))
      → Keeps U (elim pool [ none ↦ update_probe hash g | some models ↦ pure tt ])
  probed-Keeps hash g none = update_probe-Keeps hash g
  probed-Keeps hash g (some ls) = Keeps-pure U _

  pub update_node_metrics-Keeps :
      (lower : List ℕ → List ℕ) (now : ℕ) (hash : String) (metrics : Metrics)
      → Keeps U (update_node_metrics lower now hash metrics)
  unfolding update_node_metrics updated_row
  update_node_metrics-Keeps lower now hash metrics =
      Keeps-catch U _ _
        (Keeps-then U _ _ (detect_restart-Keeps hash _ _) (
          Keeps-then U _ _ (update_pool-Keeps lower hash metrics.pool_models) (
            Keeps-bind U _ _ (update_nodes-Keeps hash _ (λ r h. h)) (λ found.
              Keeps-then U _ _
                (probed-Keeps hash (with_defaults metrics.gauges) metrics.pool_models)
                (Keeps-then U _ _ persist_token_cache-Keeps (Keeps-pure U _))))))
        (Keeps-pure U _)

  pub deregister_node-Keeps : (hash : String) → Keeps U (deregister_node hash)
  unfolding deregister_node retire_node
  deregister_node-Keeps hash =
      Keeps-catch U _ _
        (Keeps-then U _ _ (accumulate_departing-Keeps hash) (
          Keeps-bind U _ _ (update_nodes-Keeps hash retired (λ r h. h))
            (λ found. Keeps-then U _ _ (evict_where-Keeps _) (Keeps-pure U _))))
        (Keeps-pure U _)

  existing-Keeps :
      (hash : String) (found : Option NodeRow)
      → Keeps U {A = ℕ} (elim found [
        | none ↦ pure 0
        | some row ↦ modify (seed hash row) >> pure row.total_tokens
      ])
  existing-Keeps hash none = Keeps-pure U _
  existing-Keeps hash (some row) =
      Keeps-then U _ _
        (Keeps-modify U _ (λ m h. elim (Bool-cases (Dict.has m.token_cache hash)) [
          | inl e ↦ rw e h
          | inr e ↦ rw e h
        ]))
        (Keeps-pure U _)

  existing_tokens-Keeps : (hash : String) → Keeps U (existing_tokens hash)
  unfolding existing_tokens
  existing_tokens-Keeps hash =
      Keeps-catch U _ _ (Keeps-bind U _ _ (Keeps-select U _) (existing-Keeps hash)) (Keeps-pure U _)

  accumulate_rejoining-Keeps :
      (hash : String) (n : ℕ) (metrics : Metrics) → Keeps U (accumulate_rejoining hash n metrics)
  unfolding accumulate_rejoining
  accumulate_rejoining-Keeps hash n metrics =
      Keeps-if U _ _ _
        (Keeps-then U _ _ (add_cumulative_tokens-Keeps _ _) (Keeps-modify U _ (λ m h. h)))
        (Keeps-pure U _)

  -- A registration writes the URL that it is given.
  pub register_node-Keeps :
      (lower : List ℕ → List ℕ) (now : ℕ) (r : Registration)
      → U r.url
      → Keeps U (register_node lower now r)
  unfolding register_node registered_row
  register_node-Keeps lower now r u =
      Keeps-bind U _ _ (existing_tokens-Keeps r.node_hash) (λ existing.
        Keeps-then U _ _ (detect_restart-Keeps r.node_hash _ _) (
          Keeps-then U _ _ (accumulate_rejoining-Keeps r.node_hash existing r.metrics) (
            Keeps-then U _ _
              (Keeps-write U _
                (λ m h. Each-put (λ (n : NodeRow). U n.url) m.nodes r.node_hash _ h u))
              (upsert_node_models-Keeps lower r.node_hash
                (map (with_node_metrics r.metrics) (listed_models r)) r.model_slug))))
