-- ===== src/RequestQueue/State.antt =====
-- `QueuedRequest` and `RequestQueueManager` of inference_node/request_queue.py. The queue, the table of
-- active requests and the worker share the objects of the requests: the objects are kept in a store
-- under their ids, and the rest of the state names them by id.
use llama_net.Prelude.{ℕ, ◌*◌, Bool, false, Option, none, List, [], String}
use llama_net.Prelude.Dict.{Dict}
use llama_net.Json.{Value}

pub data RequestStatus : Type 0 where
  queued processing completed failed cancelled timed_out : RequestStatus

-- An `asyncio.Future`; an exception that is no time-out is kept as its text.
pub data Future : Type 0 where
  pending : Future
  result : Value → Future
  timeout_error : Future
  exception : String → Future
  cancelled_future : Future

-- What the owner of a request is read from, as the server fills it in.
pub record RequestData : Type 0 where
  pub authorization : String
  pub client_ip : Option String

pub record QueuedRequest : Type 0 where
  pub request_type : String
  pub request_data : RequestData
  pub future : Future
  pub queued_at : ℕ
  pub started_at : Option ℕ
  pub completed_at : Option ℕ
  pub status : RequestStatus
  pub owner_key : String

pub record Stats : Type 0 where
  pub total_requests : ℕ
  pub completed_requests : ℕ
  pub failed_requests : ℕ
  pub cancelled_requests : ℕ
  pub timed_out_requests : ℕ
  pub queue_full_rejections : ℕ
  pub fairness_rejections : ℕ
  pub wait_timeout_rejections : ℕ

-- Where the worker is: at the top of its loop, waiting for the queue, with a request that it has got
-- and not yet looked at, or waiting for a processor.
pub data Worker : Type 0 where
  at_top getting working : Worker
  holding : String → Worker

pub record Manager : Type 0 where
  pub max_queue_size : ℕ
  pub requests : Dict QueuedRequest
  pub request_queue : List String
  pub active_requests : List String
  pub worker : Worker
  pub processing_request : Option String
  pub running : Bool
  pub reloading : Bool
  pub stats : Stats

abbrev pub second : ℕ
second = 1000000

abbrev pub max_queue_wait : ℕ
max_queue_wait = 60 * second

abbrev pub max_per_key_in_queue : ℕ
max_per_key_in_queue = 10

abbrev pub no_stats : Stats
no_stats = record {
  total_requests = 0;
  completed_requests = 0;
  failed_requests = 0;
  cancelled_requests = 0;
  timed_out_requests = 0;
  queue_full_rejections = 0;
  fairness_rejections = 0;
  wait_timeout_rejections = 0;
}

-- `__init__`
unfoldable pub new_manager : ℕ → Manager
new_manager size = record {
  max_queue_size = size;
  requests = [];
  request_queue = [];
  active_requests = [];
  worker = at_top;
  processing_request = none;
  running = false;
  reloading = false;
  stats = no_stats;
}
