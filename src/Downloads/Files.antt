-- ===== src/Downloads/Files.antt =====
-- One download at a time, and what is final.
use llama_net.Prelude.{
  ℕ, ◌≡◌, sym, ◌∙◌, ap, true, some, String, str_eq, eq_iff, arith, if◌then◌else◌,
}
use llama_net.Prelude.Dict
use llama_net.Prelude.Dict.{Dict}
use llama_net.Downloads.State.{DownloadTask, DownloadManager, new_manager}
use llama_net.Downloads.Steps.{
  DownloadReach, here, next, is_busy, is_final, TaskWay, nothing, added, changed, step_way,
}

-- A task that searches or downloads holds the lock.
pub record Exclusive (m : DownloadManager) : Type 0 where
  pub holds :
      (i : String) (t : DownloadTask)
      → Dict.get m.tasks i ≡ some t
      → is_busy t.status ≡ true
      → m.download_lock ≡ some i

get_after :
    (n : DownloadManager) (d : Dict DownloadTask) (id i : String) (u : DownloadTask)
    → n.tasks ≡ Dict.put d id u
    → Dict.get n.tasks i ≡ (if str_eq id i then some u else Dict.get d i)
get_after n d id i u e = ap (λ (x : Dict DownloadTask). Dict.get x i) e ∙ Dict.get-put d id i u

TaskWay-Exclusive : {m n : DownloadManager} → TaskWay m n → Exclusive m → Exclusive n
TaskWay-Exclusive {m} {n} (nothing e l) v = record {
  holds = λ i t g b. l ∙ v.holds i t (sym (ap (λ (x : Dict DownloadTask). Dict.get x i) e) ∙ g) b;
}
TaskWay-Exclusive {m} {n} (added id u e idle q l) v = record {
  holds = λ i t g b. l ∙ ground (arith, get_after n m.tasks id i u q, g, b, idle, v.holds i t);
}
TaskWay-Exclusive {m} {n} (changed id t u g f q way) v = record {
  holds = λ i s h b.
      ground
        (arith, get_after n m.tasks id i u q, g, h, b, way, eq_iff id i, v.holds i s, v.holds id t);
}

keeps_final :
    {m n : DownloadManager} (i : String) (t : DownloadTask)
    → TaskWay m n
    → is_final t.status ≡ true
    → Dict.get m.tasks i ≡ some t
    → Dict.get n.tasks i ≡ some t
keeps_final {m} {n} i t (nothing e l) f g = ap (λ (x : Dict DownloadTask). Dict.get x i) e ∙ g
keeps_final {m} {n} i t (added id u e idle q l) f g =
    ground (arith, get_after n m.tasks id i u q, g, e, eq_iff id i)
keeps_final {m} {n} i t (changed id s u h k q way) f g =
    ground (arith, get_after n m.tasks id i u q, g, h, k, f, eq_iff id i)

-- However searches, transfers, cancellations and new downloads interleave, with a fresh id for each: a
-- task that searches or downloads holds the lock, so no two tasks do so at once.
pub one_at_a_time :
    (files : Dict ℕ) {m : DownloadManager} → DownloadReach (new_manager files) m → Exclusive m
unfolding new_manager Dict.get
one_at_a_time files here = record { holds = λ i t g b. absurd (ground (arith, g)) }
one_at_a_time files (next r st) = TaskWay-Exclusive (step_way st) (one_at_a_time files r)

-- A task that is completed, failed or cancelled stays as it is, whatever follows, a request to cancel it
-- included. (Later downloads have fresh ids.)
pub finished_stays :
    {m n : DownloadManager} (i : String) (t : DownloadTask)
    → DownloadReach m n
    → Dict.get m.tasks i ≡ some t
    → is_final t.status ≡ true
    → Dict.get n.tasks i ≡ some t
finished_stays i t here g f = g
finished_stays i t (next r st) g f = keeps_final i t (step_way st) f (finished_stays i t r g f)
