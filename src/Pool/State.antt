-- ===== src/Pool/State.antt =====
-- `ModelSlot` and `ModelPool` of inference_node/model_pool.py, and what the pool reads from outside.
use llama_net.Prelude.{ℕ, zero, suc, max, min, Option, none, some, List, [], String}
use llama_net.Prelude.Dict.{Dict}

-- A loaded `LlamaWrapper`: which one it is, and the context length that it reports.
pub record Wrapper : Type 0 where
  pub instance_id : ℕ
  pub n_ctx : ℕ

pub record ModelSlot : Type 0 where
  pub model_name : String
  pub model_path : String
  pub llm : Wrapper
  pub last_accessed : ℕ
  pub loaded_at : ℕ
  pub size_bytes : ℕ
  pub access_count : ℕ
  pub n_ctx : ℕ

-- What `_notify_change` sends.
pub data Change : Type 0 where
  model_loaded model_evicted : String → Change

-- `changes` holds what was sent, the latest first.
pub record ModelPool : Type 0 where
  pub slots : Dict ModelSlot
  pub active_model : Option String
  pub max_models : ℕ
  pub changes : List Change

-- The system: the last part of a path, the size of a file (0 where there is none), and the load of
-- a model, which fails with an exception.
pub record System : Type 0 where
  pub basename : String → String
  pub file_size : String → ℕ
  pub load : String → String → Option Wrapper

-- `_detect_max_models`, from the whole number of models that fit into the memory; `none` is an
-- exception.
unfoldable pub detect_max_models : Option ℕ → ℕ
detect_max_models none = 1
detect_max_models (some fitting) = max 1 (min 5 fitting)

-- `__init__`; a number of 0 asks for the detection.
unfoldable pub new_pool : ℕ → Option ℕ → ModelPool
unfolding detect_max_models
new_pool zero fitting = record {
  slots = [];
  active_model = none;
  max_models = detect_max_models fitting;
  changes = [];
}
new_pool (suc n) fitting = record {
  slots = [];
  active_model = none;
  max_models = suc n;
  changes = [];
}
