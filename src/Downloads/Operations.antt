-- ===== src/Downloads/Operations.antt =====
-- The operations of `DownloadManager` in inference_node/download_manager.py, cut where a download waits.
use llama_net.Prelude.{
  ℕ, ◌+◌, Bool, true, false, Option, none, some, List, [], ◌∷◌, ◌++◌, String, str_eq, any,
  if◌then◌else◌,
}
use llama_net.Prelude.Dict
use llama_net.Prelude.Dict.{Dict}
use llama_net.Prelude.Text.{codes}
use llama_net.Prelude.Codes.{contains}
use llama_net.Downloads.State.{
  DownloadStatus, pending, searching, downloading, completed, failed, cancelled, DownloadTask,
  DownloadManager,
}

unfoldable pub start_download : String → String → Option String → DownloadManager → DownloadManager
start_download id repo quantization m = record m {
  tasks = Dict.put m.tasks id (record {
    repo_id = repo;
    quantization = quantization;
    status = pending;
    bytes_downloaded = 0;
    total_bytes = 0;
    error_message = none;
    file_path = none;
    local_path = "";
    completed_at = none;
  });
  active_downloads = m.active_downloads ++ id ∷ [];
  cancel_flags = Dict.put m.cancel_flags id false;
}

abbrev pub set_task : String → DownloadTask → DownloadManager → DownloadManager
set_task id t m = record m { tasks = Dict.put m.tasks id t }

-- The end of the `async with` and the `finally`.
abbrev pub leave : String → DownloadTask → DownloadManager → DownloadManager
leave id t m = record (set_task id t m) {
  download_lock = none;
  download_history = m.download_history ++ id ∷ [];
}

-- The lock, where it is free.
abbrev pub take_lock : Option String → String → DownloadTask → DownloadManager → DownloadManager
take_lock (some holder) id t m = m
take_lock none id t m = record (set_task id (record t { status = searching }) m) {
  download_lock = some id;
}

unfoldable pub begin_search : String → DownloadManager → DownloadManager
begin_search id m = elim (Dict.get m.tasks id) [
  | none ↦ m
  | some t ↦ elim t.status [ pending ↦ take_lock m.download_lock id t m | _ ↦ m ]
]

-- "Find best matching quantization": the first file with a part in its name.
unfoldable pub first_with : (List ℕ → List ℕ) → List ℕ → List String → Option String
unfolding contains codes
first_with upper part [] = none
first_with upper part (f ∷ fs) =
    if contains part (upper (codes f)) then some f else first_with upper part fs

abbrev pub or_else : Option String → Option String → Option String
or_else (some f) o = some f
or_else none o = o

abbrev pub wanted_file : (List ℕ → List ℕ) → Option String → List String → Option String
wanted_file upper none fs = none
wanted_file upper (some q) fs = if str_eq q "" then none else first_with upper (upper (codes q)) fs

unfoldable pub preferred_file : (List ℕ → List ℕ) → List String → List String → Option String
unfolding first_with codes
preferred_file upper [] fs = none
preferred_file upper (p ∷ ps) fs =
    or_else (first_with upper (codes p) fs) (preferred_file upper ps fs)

abbrev pub preferred : List String
preferred = "Q4_K_M" ∷ "Q4_K_S" ∷ "Q5_K_M" ∷ "Q8_0" ∷ []

-- From a list that is not empty.
unfoldable pub select_file : (List ℕ → List ℕ) → Option String → String → List String → String
unfolding first_with preferred_file codes
select_file upper quantization f fs =
    elim (or_else (wanted_file upper quantization (f ∷ fs))
      (preferred_file upper preferred (f ∷ fs))) [ none ↦ f | some g ↦ g ]

-- How a download ends: with a path, or without one.
abbrev pub flagged : String → DownloadManager → Bool
flagged id m = Dict.get_or m.cancel_flags id false

abbrev pub ended : ℕ → Option String → Bool → DownloadTask → DownloadTask
ended now (some path) false t = record t {
  status = completed;
  file_path = some path;
  completed_at = some now;
}
ended now path true t = record t { status = cancelled }
ended now none false t = record t { status = failed; error_message = some "no file produced" }

-- What a search finds: an exception, no file, or the path of the file selected.
pub data Found : Type 0 where
  search_failed : String → Found
  no_files : Found
  found_path : String → Found

unfoldable pub end_search : String → Found → DownloadManager → DownloadManager
end_search id o m = elim (Dict.get m.tasks id) [
  | none ↦ m
  | some t ↦ elim t.status [
    | searching ↦ elim o [
      | search_failed e ↦ leave id (record t { status = failed; error_message = some e }) m
      | no_files ↦ leave id (record t { status = failed; error_message = some "no GGUF files" }) m
      | found_path path ↦ set_task id (record t { status = downloading; local_path = path }) m
    ]
    | _ ↦ m
  ]
]

-- What `_download_with_progress` meets: the file is there already; the server answers; a chunk arrives;
-- an exception; or the end of the stream.
pub data Transfer : Type 0 where
  open_file : ℕ → Transfer
  chunk : ℕ → Transfer
  broken : String → Transfer
  all_read : Transfer

abbrev pub transferred : ℕ → String → DownloadTask → DownloadManager → Transfer → DownloadManager
transferred now id t m (open_file length) = elim (Dict.get m.files t.local_path) [
  | some size ↦
      leave id
        (ended now (some t.local_path) (flagged id m)
          (record t { bytes_downloaded = size; total_bytes = size }))
        m
  | none ↦ record (set_task id (record t { bytes_downloaded = 0; total_bytes = length }) m) {
    files = Dict.put m.files t.local_path 0;
  }
]
transferred now id t m (chunk n) =
    if flagged id m
    then record (leave id (ended now none true t) m) { files = Dict.pop m.files t.local_path }
    else record (set_task id (record t { bytes_downloaded = t.bytes_downloaded + n }) m) {
      files = Dict.put m.files t.local_path (Dict.get_or m.files t.local_path 0 + n);
    }
transferred now id t m (broken e) =
    leave id (ended now none (flagged id m) (record t { error_message = some e })) m
transferred now id t m all_read = leave id (ended now (some t.local_path) (flagged id m) t) m

abbrev pub if_downloading :
    DownloadStatus → ℕ → String → DownloadTask → DownloadManager → Transfer → DownloadManager
if_downloading downloading now id t m x = transferred now id t m x
if_downloading _ now id t m x = m

unfoldable pub transfer : ℕ → String → Transfer → DownloadManager → DownloadManager
transfer now id x m = elim (Dict.get m.tasks id) [
  | none ↦ m
  | some t ↦ if_downloading t.status now id t m x
]

unfoldable pub cancel_download : String → DownloadManager → Bool × DownloadManager
cancel_download id m =
    if any (λ i. str_eq i id) m.active_downloads
    then (true, record m { cancel_flags = Dict.put m.cancel_flags id true })
    else (false, m)
