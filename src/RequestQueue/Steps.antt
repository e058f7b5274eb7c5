-- ===== src/RequestQueue/Steps.antt =====
-- The request queue as the tasks of the node run: the callers, the worker and the cleanup, in any
-- order between their waits.
use llama_net.Prelude.{ℕ, ◌≡◌, Bool, Option, none, String}
use llama_net.Prelude.Dict
use llama_net.RequestQueue.State.{RequestData, Manager}
use llama_net.RequestQueue.Operations.{
  submit_request, finish_submit, cancel_submit, cleanup_pass, worker_poll, worker_get, worker_begin,
  Outcome, finish_process, start, set_reloading, stop,
}

-- `submit_request` draws an id that no request has had.
pub data QueueStep : Manager → Manager → Type 0 where
  submit :
      (now : ℕ) (id kind : String) (d : RequestData) (owner : Option String) (m : Manager)
      → Dict.get m.requests id ≡ none
      → QueueStep m (submit_request now id kind d owner m).1
  submit_ends : (id : String) (m : Manager) → QueueStep m (finish_submit id m)
  caller_gone : (id : String) (m : Manager) → QueueStep m (cancel_submit id m)
  sweep : (now : ℕ) (m : Manager) → QueueStep m (cleanup_pass now m)
  poll : (m : Manager) → QueueStep m (worker_poll m)
  get : (m : Manager) → QueueStep m (worker_get m)
  begin_work : (now : ℕ) (m : Manager) → QueueStep m (worker_begin now m)
  end_work : (now : ℕ) (o : Outcome) (m : Manager) → QueueStep m (finish_process now o m)
  started : (m : Manager) → QueueStep m (start m)
  reload : (b : Bool) (m : Manager) → QueueStep m (set_reloading b m)
  stopped : (m : Manager) → QueueStep m (stop m)

pub data QueueReach (m : Manager) : Manager → Type 0 where
  here : QueueReach m m
  next : {s t : Manager} → QueueReach m s → QueueStep s t → QueueReach m t
