-- ===== src/Database/Models.antt =====
-- The rows of `node_models` in gateway/supabase_client.py: `_merge_model_metrics`,
-- `upsert_node_models`, `get_node_models` and `evict_stale_node_models`. `str.lower`, for the slugs, is
-- a parameter.
use llama_net.Prelude.{
  ℕ, ◌+◌, max, Bool, true, false, not, ◌&&◌, Option, none, some, List, [], ◌∷◌, String, str_eq,
  ◌==◌, if◌then◌else◌, length, keep, any, map,
}
use llama_net.Prelude.Codes.{same_text, is_empty}
use llama_net.Prelude.Int.{pos}
use llama_net.Json.{Value, null, int}
use llama_net.Slug.{model_name_to_slug}
use llama_net.Database.State.{Gauges, ModelRow, Manager}
use llama_net.Database.Calls.{Method, pure, ◌>>=◌, ◌>>◌, catch, execute, select, write}

-- A model as a node reports it: a name alone, an object, or anything else.
pub record Reported : Type 0 where
  pub name : List ℕ
  pub ctx_length : ℕ
  pub gauges : Gauges
  pub total_tokens : Option ℕ
  pub prompt_tokens : Option ℕ
  pub completion_tokens : Option ℕ

pub data Listed : Type 0 where
  named : List ℕ → Listed
  described : Reported → Listed
  unknown : Listed

abbrev pub no_gauges : Gauges
no_gauges = record { load = none; tps = none; ttft = none; latency = none; uptime = none }

abbrev pub plain_model : List ℕ → Reported
plain_model name = record {
  name = name;
  ctx_length = 0;
  gauges = no_gauges;
  total_tokens = none;
  prompt_tokens = none;
  completion_tokens = none;
}

abbrev pub as_reported : Listed → Option Reported
as_reported (named name) = some (plain_model name)
as_reported (described r) = some r
as_reported unknown = none

-- `incoming.get(k) if incoming.get(k) is not None else existing`
abbrev pub given_or : Option Value → Option Value → Option Value
given_or (some null) old = old
given_or (some v) old = some v
given_or none old = old

abbrev pub or_zero : Option Value → Option Value
or_zero none = some (int (pos 0))
or_zero (some v) = some v

abbrev pub count_or_zero : Option ℕ → ℕ
count_or_zero none = 0
count_or_zero (some n) = n

unfoldable pub merge_gauges : Gauges → Gauges → Gauges
merge_gauges existing incoming = record {
  load = given_or incoming.load (or_zero existing.load);
  tps = given_or incoming.tps (or_zero existing.tps);
  ttft = given_or incoming.ttft existing.ttft;
  latency = given_or incoming.latency existing.latency;
  uptime = given_or incoming.uptime (or_zero existing.uptime);
}

-- What `_merge_model_metrics` gives.
pub record Merged : Type 0 where
  pub gauges : Gauges
  pub total_tokens : ℕ
  pub prompt_tokens : ℕ
  pub completion_tokens : ℕ

-- An existing row as it was selected, with the columns that were not selected left out: their `get`
-- gives the default, 0.
pub record Existing : Type 0 where
  pub gauges : Gauges
  pub total_tokens : ℕ
  pub prompt_tokens : Option ℕ
  pub completion_tokens : Option ℕ

unfoldable pub merge_model_metrics : Existing → Reported → Merged
unfolding merge_gauges
merge_model_metrics existing incoming = record {
  gauges = merge_gauges existing.gauges incoming.gauges;
  total_tokens = max (count_or_zero incoming.total_tokens) existing.total_tokens;
  prompt_tokens = max (count_or_zero incoming.prompt_tokens) (count_or_zero existing.prompt_tokens);
  completion_tokens =
      max (count_or_zero incoming.completion_tokens) (count_or_zero existing.completion_tokens);
}

abbrev pub no_existing : Existing
no_existing = record {
  gauges = no_gauges;
  total_tokens = 0;
  prompt_tokens = none;
  completion_tokens = none;
}

-- `select("model_slug, total_tokens, load, tps, ttft, latency, uptime")`
abbrev pub selected : ModelRow → Existing
selected r = record {
  gauges = r.gauges;
  total_tokens = r.total_tokens;
  prompt_tokens = none;
  completion_tokens = none;
}

-- `.eq("node_hash", …).eq("status", "active")`
abbrev pub of_node : String → ModelRow → Bool
of_node hash r = str_eq r.node_hash hash && not r.is_evicted

-- `.eq("node_hash", …).eq("model_slug", …)`
abbrev pub is_row : String → List ℕ → ModelRow → Bool
is_row hash slug r = str_eq r.node_hash hash && same_text r.model_slug slug

-- `existing_map.get(model_slug, {})`: of rows with one slug the last counts.
unfoldable pub find_existing : List ModelRow → List ℕ → Existing
unfolding same_text
find_existing [] slug = no_existing
find_existing (r ∷ rows) slug =
    let here = if same_text r.model_slug slug then selected r else no_existing in
    let rest = find_existing rows slug in
    if any (λ q. same_text q.model_slug slug) rows then rest else here

-- `upsert(…, on_conflict="node_hash,model_slug")`
unfoldable pub upsert_row : ModelRow → List ModelRow → List ModelRow
unfolding same_text
upsert_row new [] = new ∷ []
upsert_row new (r ∷ rows) =
    let rest = upsert_row new rows in
    if is_row new.node_hash new.model_slug r then new ∷ rows else r ∷ rest

module _ (lower : List ℕ → List ℕ) where
  -- The row that is written for one model; the flag says that it is the only one.
  unfoldable pub model_row : String → List ℕ → Bool → List ModelRow → Reported → ModelRow
  unfolding model_name_to_slug merge_model_metrics find_existing same_text
  model_row hash active_slug only rows m =
      let slug = model_name_to_slug lower m.name in
      let merged = merge_model_metrics (find_existing rows slug) m in
      record {
        node_hash = hash;
        model_name = m.name;
        model_slug = slug;
        ctx_length = m.ctx_length;
        is_active = if is_empty active_slug then only else same_text slug active_slug;
        is_evicted = false;
        gauges = merged.gauges;
        total_tokens = merged.prompt_tokens + merged.completion_tokens;
        prompt_tokens = merged.prompt_tokens;
        completion_tokens = merged.completion_tokens;
      }

  abbrev put_row : ModelRow → Manager → Manager
  put_row r m = record m { node_models = upsert_row r m.node_models }

  -- The loop over the models: what is no name and no object, and what has no name, is skipped.
  unfoldable pub upsert_models :
      String → List ℕ → Bool → List ModelRow → List Listed → Method (Unit {0})
  upsert_models hash active_slug only rows [] = pure tt
  upsert_models hash active_slug only rows (l ∷ models) =
      let rest = upsert_models hash active_slug only rows models in
      elim (as_reported l) [
        | none ↦ rest
        | some m ↦
            if is_empty m.name
            then rest
            else (write (put_row (model_row hash active_slug only rows m)) >> rest)
      ]

  unfoldable pub upsert_node_models : String → List Listed → List ℕ → Method (Unit {0})
  unfolding upsert_models execute
  upsert_node_models hash models active_slug =
      catch
        (do
          rows ← catch (select (λ m. keep (of_node hash) m.node_models)) (pure [])
          upsert_models hash active_slug (length models == 1) rows models)
        (pure tt)

-- `get_node_models`: the rows with a status, or all rows of the node.
unfoldable pub get_node_models : String → Option Bool → Method (List ModelRow)
unfolding execute
get_node_models hash evicted =
    catch
      (select (λ m.
        keep
          (λ r. str_eq r.node_hash hash && (elim evicted [
            | none ↦ true
            | some e ↦ if e then r.is_evicted else not r.is_evicted
          ]))
          m.node_models))
      (pure [])

-- `update({"status": "evicted", "is_active": False, …})` of the rows that the test selects.
abbrev pub evict_where : (ModelRow → Bool) → Manager → Manager
evict_where p m = record m {
  node_models =
      map (λ r. if p r then record r { is_evicted = true; is_active = false } else r) m.node_models;
}

unfoldable pub evict_rows : String → List (List ℕ) → List ModelRow → Method (Unit {0})
unfolding execute same_text
evict_rows hash valid [] = pure tt
evict_rows hash valid (r ∷ rows) =
    (if any (same_text r.model_slug) valid
      then pure tt
      else write (evict_where (is_row hash r.model_slug)))
    >> evict_rows hash valid rows

unfoldable pub evict_stale_node_models : String → List (List ℕ) → Method (Unit {0})
unfolding evict_rows execute
evict_stale_node_models hash [] = pure tt
evict_stale_node_models hash (slug ∷ valid) =
    catch
      (do
        rows ← select (λ m. keep (of_node hash) m.node_models)
        evict_rows hash (slug ∷ valid) rows)
      (pure tt)
