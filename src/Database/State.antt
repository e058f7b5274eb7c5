-- ===== src/Database/State.antt =====
-- The tables of the database that `SupabaseManager` of gateway/supabase_client.py reads and writes, and
-- its token cache. Names and slugs are lists of code points; the gauges are JSON values that the code
-- only passes on.
use llama_net.Prelude.{ℕ, Bool, Option, none, List, [], String}
use llama_net.Prelude.Dict.{Dict}
use llama_net.Json.{Value}

-- An entry of `_node_token_cache`: the counts last reported, or the one number of an old snapshot.
pub data Cached : Type 0 where
  counts : ℕ → ℕ → Cached
  legacy : ℕ → Cached

-- Load, speed and the like: None where the source has None or no key.
pub record Gauges : Type 0 where
  pub load : Option Value
  pub tps : Option Value
  pub ttft : Option Value
  pub latency : Option Value
  pub uptime : Option Value

-- A row of `nodes`, under its node_hash.
pub record NodeRow : Type 0 where
  pub user_id : String
  pub url : String
  pub ip : String
  pub port : ℕ
  pub gpu_info : String
  pub gauges : Gauges
  pub total_tokens : ℕ
  pub prompt_tokens : ℕ
  pub completion_tokens : ℕ
  pub ctx_length : ℕ
  pub is_active : Bool
  pub last_heartbeat : ℕ

-- A row of `node_models`; the table holds a pair of node_hash and model_slug once.
pub record ModelRow : Type 0 where
  pub node_hash : String
  pub model_name : List ℕ
  pub model_slug : List ℕ
  pub ctx_length : ℕ
  pub is_active : Bool
  pub is_evicted : Bool
  pub gauges : Gauges
  pub total_tokens : ℕ
  pub prompt_tokens : ℕ
  pub completion_tokens : ℕ

pub record Tunnel : Type 0 where
  pub tunnel_id : String
  pub tunnel_token : String
  pub hostname : String
  pub dns_record_id : String

-- A row of `users`, under its id.
pub record User : Type 0 where
  pub email : String
  pub full_name : String

-- A row of `api_keys`.
pub record KeyRow : Type 0 where
  pub id : String
  pub user_id : String
  pub key_hash : String
  pub key_prefix : List ℕ
  pub name : String
  pub is_active : Bool
  pub last_used : Option ℕ

-- A row of `token_usage`.
pub record UsageRow : Type 0 where
  pub key_hash : String
  pub usage_date : String
  pub tokens_consumed : ℕ
  pub requests_count : ℕ

-- The manager with its database. The newest row of `api_keys` is the first. `statistics` holds the counters of the table `global_statistics`.
pub record Manager : Type 0 where
  pub token_cache : Dict Cached
  pub nodes : Dict NodeRow
  pub node_models : List ModelRow
  pub statistics : Dict ℕ
  pub saved_cache : Option (Dict Cached)
  pub tunnel_state : Dict Tunnel
  pub users : Dict User
  pub api_keys : List KeyRow
  pub token_usage : List UsageRow

abbrev pub empty_manager : Manager
empty_manager = record {
  token_cache = [];
  nodes = [];
  node_models = [];
  statistics = [];
  saved_cache = none;
  tunnel_state = [];
  users = [];
  api_keys = [];
  token_usage = [];
}
