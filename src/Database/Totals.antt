-- ===== src/Database/Totals.antt =====
-- The accounting of tokens implements the ledger. All calls of the database succeed here.
use llama_net.Prelude.{ℕ, ◌+◌, ◌≡◌, refl, some, List, [], ◌∷◌, String, arith}
use llama_net.Prelude.Dict
use llama_net.Prelude.Dict.{Dict, Distinct, Each}
use llama_net.Database.State.{Cached, Manager}
use llama_net.Database.Tokens.{cached_completion}
use llama_net.Database.Ledger.{
  Event, report, depart, account_all, Ledger, enter, enter_all, accounted, IsTracked,
}
use llama_net.Database.Effects.{
  reported, departed, account-report, account-depart, accounted-reported, cached-reported,
  accounted-departed, cached-departed, reported-IsTracked, departed-IsTracked,
}

-- Cache and ledger agree on every node and on the sum.
record Agrees (start : ℕ) (m : Manager) (l : Ledger) : Type 0 where
  nodes : (h : String) → cached_completion (Dict.get m.token_cache h) ≡ Dict.get_or l.running h 0
  sum : accounted m ≡ start + l.generated

report-Agrees :
    {start : ℕ} {m : Manager} {l : Ledger} (hash : String) (p c : ℕ)
    → Agrees start m l
    → Agrees start (reported hash p c m) (enter (report hash p c) l)
report-Agrees {m = m} {l = l} hash p c a = record {
  nodes = λ h.
      ground (arith, cached-reported hash p c m h, Dict.get_or-put l.running hash h c 0, a.nodes h);
  sum = ground (arith, accounted-reported hash p c m, a.nodes hash, a.sum);
}

depart-Agrees :
    {start : ℕ} {m : Manager} {l : Ledger} (hash : String)
    → IsTracked m
    → Agrees start m l
    → Agrees start (departed hash m) (enter (depart hash) l)
depart-Agrees {m = m} {l = l} hash t a = record {
  nodes = λ h. ground (arith, cached-departed hash m h t, Dict.get-pop l.running hash h, a.nodes h);
  sum = ground (arith, accounted-departed hash m t, a.sum);
}

account_all-Agrees :
    (start : ℕ) (es : List Event) (m : Manager) (l : Ledger)
    → IsTracked m
    → Agrees start m l
    → Agrees start (account_all es m []).1 (enter_all es l)
unfolding account_all
account_all-Agrees start [] m l t a = a
account_all-Agrees start (report hash p c ∷ es) m l t a = rw (account-report hash p c m) (
    account_all-Agrees start es (reported hash p c m) (enter (report hash p c) l)
      (reported-IsTracked hash p c m t) (report-Agrees hash p c a))
account_all-Agrees start (depart hash ∷ es) m l t a = rw (account-depart hash m) (
    account_all-Agrees start es (departed hash m) (enter (depart hash) l)
      (departed-IsTracked hash m t) (depart-Agrees hash t a))

-- The ledger that stands where the cache stands.
unfoldable pub running_of : Dict Cached → Dict ℕ
running_of [] = []
running_of ((hash, c) ∷ d) = (hash, cached_completion (some c)) ∷ running_of d

running_of-get :
    (d : Dict Cached) (h : String)
    → cached_completion (Dict.get d h) ≡ Dict.get_or (running_of d) h 0
unfolding Dict.get running_of
running_of-get [] h = refl
running_of-get ((j, c) ∷ d) h = ground (arith, running_of-get d h)

-- While every call of the database succeeds, the completion tokens in the counter and in the cache of
-- the gateway grow together, over any reports and departures of any nodes, by just what the ledger
-- counts as generated: for each report the difference to the node's last one, or all of it where it is
-- below that, or the first since the node departed. The cache must hold each node once and no number of an old snapshot.
pub account_all-generated :
    (es : List Event) (m : Manager)
    → IsTracked m
    → accounted (account_all es m []).1
      ≡ accounted m
        + (enter_all es (record { running = running_of m.token_cache; generated = 0 })).generated
account_all-generated es m t =
    (account_all-Agrees (accounted m) es m
      (record { running = running_of m.token_cache; generated = 0 }) t
      (record { nodes = running_of-get m.token_cache; sum = omega arith })).sum
