-- ===== src/Downloads/Tests.antt =====
-- Downloads of one file, and the theorems at them.
use llama_net.Prelude.{◌≡◌, refl, none, some, [], ◌∷◌}
use llama_net.Prelude.Dict
use llama_net.Downloads.State.{DownloadTask, DownloadManager, new_manager, completed}
use llama_net.Downloads.Operations.{
  start_download, begin_search, end_search, found_path, transfer, open_file, chunk, broken,
  cancel_download, select_file,
}
use llama_net.Downloads.Steps.{here, next, start, begin, cancel}
use llama_net.Downloads.Files.{Exclusive, one_at_a_time, finished_stays}

-- A file for the quantization that is asked for, before the first of the list.
picked : select_file (λ s. s) (some "Q8_0") "m-Q4_K_M.gguf" ("m-Q8_0.gguf" ∷ []) ≡ "m-Q8_0.gguf"
unfolding select_file
picked = refl

abbrev begun : DownloadManager
unfolding begin_search
begun = begin_search "dl_1" (start_download "dl_1" "org/m" none (new_manager []))

one_at_a_time_example : Exclusive begun
unfolding begun Dict.get new_manager
one_at_a_time_example = one_at_a_time [] (
    next (next here (start "dl_1" "org/m" none (new_manager []) refl))
      (begin "dl_1" (start_download "dl_1" "org/m" none (new_manager []))))

-- The connection breaks after 5 of 100 bytes.
abbrev broken_off : DownloadManager
unfolding transfer end_search
broken_off = transfer 9 "dl_1" (broken "reset") (
    transfer 8 "dl_1" (chunk 5)
      (transfer 7 "dl_1" (open_file 100) (end_search "dl_1" (found_path "m.gguf") begun)))

-- The part that was written counts as the file when it is asked for again.
abbrev asked_again : DownloadManager
unfolding transfer end_search
asked_again = transfer 20 "dl_2" (open_file 100) (
    end_search "dl_2" (found_path "m.gguf")
      (begin_search "dl_2" (start_download "dl_2" "org/m" none broken_off)))

abbrev truncated : DownloadTask
truncated = record {
  repo_id = "org/m";
  quantization = none;
  status = completed;
  bytes_downloaded = 5;
  total_bytes = 5;
  error_message = none;
  file_path = some "m.gguf";
  local_path = "m.gguf";
  completed_at = some 20;
}

part_counts : Dict.get asked_again.tasks "dl_2" ≡ some truncated
unfolding asked_again broken_off begun start_download begin_search end_search transfer new_manager
    Dict.get Dict.put
part_counts = refl

finished_stays_example :
    Dict.get (cancel_download "dl_2" asked_again).1.tasks "dl_2" ≡ some truncated
finished_stays_example =
    finished_stays "dl_2" truncated (next here (cancel "dl_2" asked_again)) part_counts refl
