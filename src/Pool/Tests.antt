-- ===== src/Pool/Tests.antt =====
-- Runs of the pool, and its theorems at concrete inputs.
use llama_net.Prelude.{ℕ, ◌≡◌, ◌≢◌, ◌≤◌, ◌⊎◌, refl, none, some, [], ◌∷◌, String, arith, eq_iff}
use llama_net.Prelude.Dict
use llama_net.Pool.State.{ModelSlot, ModelPool, System, new_pool, model_loaded}
use llama_net.Pool.Operations.{
  name_or_basename, load_model, get_eviction_target, register, make_room, load_named,
}
use llama_net.Pool.Eviction.{IsLeastRecent, eviction_target}
use llama_net.Pool.Sound.{load, here, next, Sound, pool-Sound}
use llama_net.Pool.Loads.{Loaded, load_model_lem}

abbrev disk : System
disk = record {
  basename = λ path. path;
  file_size = λ path. 4;
  load = λ path name. some (record { instance_id = 1; n_ctx = 4096 });
}

abbrev one : ModelPool
unfolding new_pool
one = new_pool 1 none

abbrev first : ModelPool
unfolding load_model
first = (load_model disk 10 "a" "" one).1

abbrev second_one : ModelPool
unfolding load_model
second_one = (load_model disk 20 "b" "" first).1

abbrev slot_of : String → ℕ → ModelSlot
slot_of name t = record {
  model_name = name;
  model_path = name;
  llm = record { instance_id = 1; n_ctx = 4096 };
  last_accessed = t;
  loaded_at = t;
  size_bytes = 4;
  access_count = 0;
  n_ctx = 4096;
}

-- A pool for one model: its one model is active, so it is not given up for the second.
two_in_one : second_one ≡ record {
  slots = ("a", slot_of "a" 10) ∷ ("b", slot_of "b" 20) ∷ [];
  active_model = some "b";
  max_models = 1;
  changes = model_loaded "b" ∷ model_loaded "a" ∷ [];
}
unfolding second_one first one Dict.get Dict.put load_named name_or_basename make_room
    get_eviction_target register
two_in_one = refl

a_named : name_or_basename disk "a" "" ≢ ""
unfolding name_or_basename
a_named e = absurd (ground (arith, eq_iff "a" "", e))

pool-Sound_example : Sound 1 first
unfolding first one
pool-Sound_example = pool-Sound 1 none (next here (load disk 10 "a" "" (new_pool 1 none) a_named))

-- "a" was used less recently, and "b" is active.
abbrev both : ModelPool
both = record {
  slots = ("a", slot_of "a" 10) ∷ ("c", slot_of "c" 5) ∷ ("b", slot_of "b" 20) ∷ [];
  active_model = some "b";
  max_models = 3;
  changes = [];
}

given_up : get_eviction_target both ≡ some "c"
unfolding get_eviction_target
given_up = refl

eviction_target_example :
    ((get_eviction_target both ≡ none) × (Dict.size both.slots ≤ 1))
    ⊎ ((name : String) × (get_eviction_target both ≡ some name) × IsLeastRecent both name)
unfolding Dict.get
eviction_target_example = eviction_target both (refl, (refl, (refl, tt)))

load_model_lem_example : Loaded (name_or_basename disk "d" "") both (load_model disk 30 "d" "" both)
load_model_lem_example = load_model_lem disk 30 "d" "" both
