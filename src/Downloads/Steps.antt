-- ===== src/Downloads/Steps.antt =====
-- The downloads in whatever order their pieces run.
use llama_net.Prelude.{
  ◌+◌, ℕ, ◌≡◌, ◌⊎◌, refl, Bool, true, false, Option, none, some, String, arith, inl, inr,
  Bool-cases, Option-cases,
}
use llama_net.Prelude.Dict
use llama_net.Prelude.Dict.{Dict}
use llama_net.Downloads.State.{
  DownloadStatus, pending, searching, downloading, completed, failed, cancelled, DownloadTask,
  DownloadManager,
}
use llama_net.Downloads.Operations.{
  if_downloading, start_download, begin_search, flagged, ended, Found, search_failed, no_files,
  found_path, end_search, Transfer, open_file, chunk, broken, all_read, transferred, transfer,
  cancel_download,
}

pub data DownloadStep : DownloadManager → DownloadManager → Type 0 where
  start :
      (id repo : String) (q : Option String) (m : DownloadManager)
      → Dict.get m.tasks id ≡ none
      → DownloadStep m (start_download id repo q m)
  begin : (id : String) (m : DownloadManager) → DownloadStep m (begin_search id m)
  searched : (id : String) (o : Found) (m : DownloadManager) → DownloadStep m (end_search id o m)
  moved :
      (now : ℕ) (id : String) (x : Transfer) (m : DownloadManager)
      → DownloadStep m (transfer now id x m)
  cancel : (id : String) (m : DownloadManager) → DownloadStep m (cancel_download id m).1

pub data DownloadReach (m : DownloadManager) : DownloadManager → Type 0 where
  here : DownloadReach m m
  next : {s t : DownloadManager} → DownloadReach m s → DownloadStep s t → DownloadReach m t

abbrev pub is_busy : DownloadStatus → Bool
is_busy searching = true
is_busy downloading = true
is_busy _ = false

abbrev pub is_final : DownloadStatus → Bool
is_final completed = true
is_final failed = true
is_final cancelled = true
is_final _ = false

-- What a step does to the tasks and the lock: nothing; a new task; or a task that is not final changes,
-- which keeps the lock as it is, takes it where it is free, or gives it back.
pub data TaskWay (m n : DownloadManager) : Type 0 where
  nothing : n.tasks ≡ m.tasks → n.download_lock ≡ m.download_lock → TaskWay m n
  added :
      (id : String) (t : DownloadTask)
      → Dict.get m.tasks id ≡ none
      → is_busy t.status ≡ false
      → n.tasks ≡ Dict.put m.tasks id t
      → n.download_lock ≡ m.download_lock
      → TaskWay m n
  changed :
      (id : String) (t u : DownloadTask)
      → Dict.get m.tasks id ≡ some t
      → is_final t.status ≡ false
      → n.tasks ≡ Dict.put m.tasks id u
      → ((n.download_lock ≡ m.download_lock) × (is_busy t.status ≡ true))
        ⊎ (((m.download_lock ≡ none) × (n.download_lock ≡ some id))
            ⊎ ((n.download_lock ≡ none) × (is_busy t.status ≡ true) × (is_busy u.status ≡ false)))
      → TaskWay m n

begin_status :
    (id : String) (m : DownloadManager) (t : DownloadTask) (st : DownloadStatus)
    (lock : Option String)
    → Dict.get m.tasks id ≡ some t
    → t.status ≡ st
    → m.download_lock ≡ lock
    → TaskWay m (begin_search id m)
unfolding begin_search
begin_status id m t pending (some h) g e l =
    nothing (ground (arith, g, e, l)) (ground (arith, g, e, l))
begin_status id m t pending none g e l =
    changed id t (record t { status = searching }) g (ground (arith, e)) (ground (arith, g, e, l))
      (inr (inl (l, ground (arith, g, e, l))))
begin_status id m t searching lock g e l = nothing (ground (arith, g, e)) (ground (arith, g, e))
begin_status id m t downloading lock g e l = nothing (ground (arith, g, e)) (ground (arith, g, e))
begin_status id m t completed lock g e l = nothing (ground (arith, g, e)) (ground (arith, g, e))
begin_status id m t failed lock g e l = nothing (ground (arith, g, e)) (ground (arith, g, e))
begin_status id m t cancelled lock g e l = nothing (ground (arith, g, e)) (ground (arith, g, e))

begin_way : (id : String) (m : DownloadManager) → TaskWay m (begin_search id m)
begin_way id m = elim (Option-cases (Dict.get m.tasks id)) [
  | inl g ↦ unfold begin_search in nothing (ground (arith, g)) (ground (arith, g))
  | inr (t, g) ↦ begin_status id m t t.status m.download_lock g refl refl
]

search_status :
    (id : String) (o : Found) (m : DownloadManager) (t : DownloadTask) (st : DownloadStatus)
    → Dict.get m.tasks id ≡ some t
    → t.status ≡ st
    → TaskWay m (end_search id o m)
unfolding end_search
search_status id (search_failed x) m t searching g e =
    changed id t (record t { status = failed; error_message = some x }) g (ground (arith, e))
      (ground (arith, g, e)) (inr (inr (ground (arith, g, e), ground (arith, e), refl)))
search_status id no_files m t searching g e =
    changed id t (record t { status = failed; error_message = some "no GGUF files" }) g
      (ground (arith, e)) (ground (arith, g, e))
      (inr (inr (ground (arith, g, e), ground (arith, e), refl)))
search_status id (found_path path) m t searching g e =
    changed id t (record t { status = downloading; local_path = path }) g (ground (arith, e))
      (ground (arith, g, e)) (inl (ground (arith, g, e), ground (arith, e)))
search_status id o m t pending g e = nothing (ground (arith, g, e)) (ground (arith, g, e))
search_status id o m t downloading g e = nothing (ground (arith, g, e)) (ground (arith, g, e))
search_status id o m t completed g e = nothing (ground (arith, g, e)) (ground (arith, g, e))
search_status id o m t failed g e = nothing (ground (arith, g, e)) (ground (arith, g, e))
search_status id o m t cancelled g e = nothing (ground (arith, g, e)) (ground (arith, g, e))

search_way : (id : String) (o : Found) (m : DownloadManager) → TaskWay m (end_search id o m)
search_way id o m = elim (Option-cases (Dict.get m.tasks id)) [
  | inl g ↦ unfold end_search in nothing (ground (arith, g)) (ground (arith, g))
  | inr (t, g) ↦ search_status id o m t t.status g refl
]

ended-idle :
    (now : ℕ) (p : Option String) (b : Bool) (t : DownloadTask)
    → is_busy (ended now p b t).status ≡ false
ended-idle now none false t = refl
ended-idle now none true t = refl
ended-idle now (some p) false t = refl
ended-idle now (some p) true t = refl

-- A piece of a transfer, of a task that downloads.
transferred_way :
    (now : ℕ) (id : String) (t : DownloadTask) (m : DownloadManager) (x : Transfer)
    → Dict.get m.tasks id ≡ some t
    → t.status ≡ downloading
    → TaskWay m (transferred now id t m x)
transferred_way now id t m all_read g e =
    changed id t _ g (ground (arith, e)) refl
      (inr (inr (refl, ground (arith, e), ended-idle now (some t.local_path) (flagged id m) t)))
transferred_way now id t m (broken x) g e = changed id t _ g (ground (arith, e)) refl (
    inr (
      inr (
        refl,
        ground (arith, e),
        ended-idle now none (flagged id m) (record t { error_message = some x }),
      )))
transferred_way now id t m (chunk n) g e = elim (Bool-cases (flagged id m)) [
  | inl f ↦ rw f (
      changed id t (ended now none true t) g (ground (arith, e)) refl
        (inr (inr (refl, ground (arith, e), refl))))
  | inr f ↦ rw f (
      changed id t (record t { bytes_downloaded = t.bytes_downloaded + n }) g (ground (arith, e))
        refl (inl (refl, ground (arith, e))))
]
transferred_way now id t m (open_file length) g e =
    elim (Option-cases (Dict.get m.files t.local_path)) [
      | inl q ↦
          rw (q, transferred)
            (changed id t (record t { bytes_downloaded = 0; total_bytes = length }) g
              (ground (arith, e)) refl (inl (refl, ground (arith, e))))
      | inr (size, q) ↦
          rw (q, transferred)
            (changed id t _ g (ground (arith, e)) refl (
              inr (
                inr (
                  refl,
                  ground (arith, e),
                  ended-idle now (some t.local_path) (flagged id m)
                      (record t { bytes_downloaded = size; total_bytes = size }),
                ))))
    ]

piece_way :
    (st : DownloadStatus) (now : ℕ) (id : String) (t : DownloadTask) (m : DownloadManager)
    (x : Transfer)
    → Dict.get m.tasks id ≡ some t
    → t.status ≡ st
    → TaskWay m (if_downloading st now id t m x)
piece_way downloading now id t m x g e = transferred_way now id t m x g e
piece_way pending now id t m x g e = nothing refl refl
piece_way searching now id t m x g e = nothing refl refl
piece_way completed now id t m x g e = nothing refl refl
piece_way failed now id t m x g e = nothing refl refl
piece_way cancelled now id t m x g e = nothing refl refl

transfer_way :
    (now : ℕ) (id : String) (x : Transfer) (m : DownloadManager) → TaskWay m (transfer now id x m)
unfolding transfer
transfer_way now id x m = elim (Option-cases (Dict.get m.tasks id)) [
  | inl g ↦ rw (g, transfer) (nothing refl refl)
  | inr (t, g) ↦ rw (g, transfer) (piece_way t.status now id t m x g refl)
]

pub step_way : {m n : DownloadManager} → DownloadStep m n → TaskWay m n
unfolding start_download cancel_download
step_way (start id repo q m e) = added id _ e refl refl refl
step_way (begin id m) = begin_way id m
step_way (searched id o m) = search_way id o m
step_way (moved now id x m) = transfer_way now id x m
step_way (cancel id m) = nothing (ground arith) (ground arith)
