-- ===== src/Downloads/State.antt =====
-- `DownloadTask` and `DownloadManager` of inference_node/download_manager.py. The tables share the tasks,
-- which are kept in a store under their ids.
use llama_net.Prelude.{ℕ, Bool, Option, none, List, [], String}
use llama_net.Prelude.Dict.{Dict}

pub data DownloadStatus : Type 0 where
  pending searching downloading completed failed cancelled : DownloadStatus

-- `local_path` is where the file of the task goes, once that is known.
pub record DownloadTask : Type 0 where
  pub repo_id : String
  pub quantization : Option String
  pub status : DownloadStatus
  pub bytes_downloaded : ℕ
  pub total_bytes : ℕ
  pub error_message : Option String
  pub file_path : Option String
  pub local_path : String
  pub completed_at : Option ℕ

-- `download_lock` is the task that holds the lock, and `files` the sizes of the files in the cache.
pub record DownloadManager : Type 0 where
  pub tasks : Dict DownloadTask
  pub active_downloads : List String
  pub download_history : List String
  pub cancel_flags : Dict Bool
  pub download_lock : Option String
  pub files : Dict ℕ

unfoldable pub new_manager : Dict ℕ → DownloadManager
new_manager files = record {
  tasks = [];
  active_downloads = [];
  download_history = [];
  cancel_flags = [];
  download_lock = none;
  files = files;
}
