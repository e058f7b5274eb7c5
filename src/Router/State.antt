-- ===== src/Router/State.antt =====
-- `ModelRouter` of gateway/router.py: its tables, what it reads from outside, and its answers.
use llama_net.Prelude.{ℕ, ◌*◌, Option, List, [], String}
use llama_net.Prelude.Dict.{Dict}
use llama_net.Prelude.Int.{ℤ}
use llama_net.Json.{Value, Fields}

-- A row of `get_nodes_for_model`: a missing context length is 0, and the load is in any fixed unit.
pub record Node : Type 0 where
  pub node_hash : String
  pub url : String
  pub ctx_length : ℕ
  pub model_name : String
  pub load : ℕ

-- One entry of `_key_hourly_compute`. Compute units are counted in hundredths.
pub record Hour : Type 0 where
  pub hour : ℕ
  pub used : ℤ

pub record ModelRouter : Type 0 where
  pub rr_index : Dict ℕ
  pub prefix_affinity : Dict String
  pub affinity_ttl : Dict ℕ
  pub key_inflight : Dict ℕ
  pub max_per_key_concurrent : ℕ
  pub hourly_compute_budget : ℤ
  pub key_hourly_compute : Dict Hour

-- `__init__`, with the numbers that it reads from the environment.
unfoldable pub new_router : ℕ → ℤ → ModelRouter
new_router per_key budget = record {
  rr_index = [];
  prefix_affinity = [];
  affinity_ttl = [];
  key_inflight = [];
  max_per_key_concurrent = per_key;
  hourly_compute_budget = budget;
  key_hourly_compute = [];
}

-- Ticks of the clock: microseconds.
abbrev pub second : ℕ
second = 1000000

abbrev pub affinity_max_age : ℕ
affinity_max_age = 1800 * second

-- What a node answers to a forwarded request: a status with a JSON object or with something else,
-- or no answer. (`failed` is any other exception of the client.)
pub data Upstream : Type 0 where
  answer : ℕ → Fields → Upstream
  not_json : ℕ → Upstream
  timed_out : Upstream
  unreachable : Upstream
  failed : Upstream

-- What one request reads from outside: the hash and the rendering of values of the Python library,
-- the database, the node's answer and a random draw.
pub record World : Type 0 where
  pub sha256 : String → String
  pub render : Value → String
  pub lower : List ℕ → List ℕ
  pub text : List ℕ → String
  pub nodes : String → List Node
  pub tokens_consumed : String → ℕ
  pub daily_token_budget : ℕ
  pub node_token : String → Option String
  pub post : String → Fields → Option String → Upstream
  pub draw : ℕ

-- What a request writes to the database.
pub data Write : Type 0 where
  record_tokens : String → Value → Write
  deregister : String → Write

-- An error with its status and the "type" of its body; the node's answer, whole or as a stream; or
-- an exception that leaves the handler.
pub data Response : Type 0 where
  error : ℕ → String → Response
  json : Fields → Node → Response
  stream : Fields → Node → Response
  raised : Response
