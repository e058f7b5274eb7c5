-- ===== src/Gateway/Urls.antt =====
-- Runs of the handlers that change the table of nodes.
use llama_net.Prelude.{
  ℕ, ◌≡◌, refl, Bool, true, false, Option, none, some, List, [], ◌∷◌, String, Bool-cases, inl, inr,
  arith, ltb, length, ◌+◌,
}
use llama_net.RateLimit.Limiter.{Request, pass, deny}
use llama_net.RateLimit.Limiter
use llama_net.RateLimit.Check.{check_rate_limit}
use llama_net.Validate.Nodes.{validate_node_url, is_safe}
use llama_net.Database.State.{Manager}
use llama_net.Database.Calls.{Outcome, returned, raised, Schedule}
use llama_net.Database.Urls.{AllUrls, Keeps-bind, Keeps-then, Keeps-pure, Keeps-select, Keeps-if}
use llama_net.Database.Moving.{register_node-Keeps}
use llama_net.Gateway.State.{World, Gateway}
use llama_net.Gateway.Beat.{Heartbeat, hash_of}
use llama_net.Gateway.Heartbeat.{
  BeatenWith, beaten, behind_url, received, heartbeat_rows, node_heartbeat,
}
use llama_net.Gateway.Heartbeat
use llama_net.Gateway.Peers.{
  Peer, of_peer, is_usable, notice, NotifiedWith, after_notice, notice_all, Notification, notified,
  handle_peer_notification,
}
use llama_net.Gateway.Peers
use llama_net.Gateway.Vetted.{SafeUrl, Vetted, K, is_safe-SafeUrl, heartbeat_rows-Keeps}

module _ (w : World) where
  -- The gateway of an answer.
  beaten-Vetted :
      (hash : String) (g : Gateway) (o : Outcome (Option (List ℕ) × Bool) × Manager × Schedule)
      → AllUrls (SafeUrl w.library) o.1
      → Vetted w.library (beaten hash g o).1
  beaten-Vetted hash g (raised, m, s) h = h
  beaten-Vetted hash g (returned (none, known), m, s) h = h
  beaten-Vetted hash g (returned (some name, known), m, s) h = h

  url-Vetted :
      (b : Bool) (g : Gateway) (s : Schedule) (rest : BeatenWith)
      → Vetted w.library g
      → (b ≡ true → Vetted w.library rest.1)
      → Vetted w.library (behind_url b g s rest).1
  url-Vetted true g s rest h k = k refl
  url-Vetted false g s rest h k = h

  received-Vetted :
      (b : Option Heartbeat) (g : Gateway) (s : Schedule)
      → Vetted w.library g
      → Vetted w.library (received w b g s).1
  received-Vetted none g s h = h
  received-Vetted (some b) g s h = url-Vetted _ g s _ h (λ e.
      beaten-Vetted (hash_of w b) g (heartbeat_rows w b (hash_of w b) g.manager s)
        ((heartbeat_rows-Keeps w.library w b (hash_of w b) (is_safe-SafeUrl _ e)).at g.manager s h))

  limit-Vetted :
      (o : Limiter.Outcome) (g : Gateway) (s : Schedule) (rest : BeatenWith)
      → Vetted w.library g
      → Vetted w.library rest.1
      → Vetted w.library (Heartbeat.behind_limit o g s rest).1
  limit-Vetted pass g s rest h k = k
  limit-Vetted (deny t wait) g s rest h k = h
  limit-Vetted Limiter.raised g s rest h k = h

  pub node_heartbeat-Vetted :
      (r : Request) (clock : ℕ → ℕ) (b : Option Heartbeat) (g : Gateway) (s : Schedule)
      → Vetted w.library g
      → Vetted w.library (node_heartbeat w r clock b g s).1
  unfolding node_heartbeat
  node_heartbeat-Vetted r clock b g s h =
      let limited = record g { limiter = (check_rate_limit r clock g.limiter).1 } in
      limit-Vetted _ limited s _ h (received-Vetted b limited s h)

  -- Peers that are looked up have safe URLs.
  usable-SafeUrl : (p : Peer) → is_usable w p ≡ true → SafeUrl w.library p.url
  usable-SafeUrl p h = elim (Bool-cases (is_safe (validate_node_url w.library p.url))) [
    | inl e ↦ is_safe-SafeUrl _ e
    | inr e ↦ absurd (ground (arith, h, e))
  ]

  notice-Keeps : (p : Peer) → SafeUrl w.library p.url → K w.library (notice w p)
  unfolding notice
  notice-Keeps p u =
      Keeps-bind (SafeUrl w.library) _ _ (Keeps-select (SafeUrl w.library) _) (λ known.
        Keeps-if (SafeUrl w.library) _ _ _ (Keeps-pure (SafeUrl w.library) false) (
          Keeps-then (SafeUrl w.library) _ _
            (register_node-Keeps (SafeUrl w.library) w.lower w.now (of_peer w p) u)
            (Keeps-pure (SafeUrl w.library) true)))

  noticed-Vetted :
      (notifier : String) (p : Peer) (count : ℕ) (g : Gateway)
      (o : Outcome Bool × Manager × Schedule) (rest : ℕ → Gateway → Schedule → NotifiedWith)
      → AllUrls (SafeUrl w.library) o.1
      → ((n : ℕ) (g' : Gateway) (s : Schedule)
          → Vetted w.library g'
          → Vetted w.library (rest n g' s).1)
      → Vetted w.library (after_notice w notifier p count g o rest).1
  noticed-Vetted notifier p count g (raised, m, s) rest h k = h
  noticed-Vetted notifier p count g (returned false, m, s) rest h k = k count _ s h
  noticed-Vetted notifier p count g (returned true, m, s) rest h k = k (count + 1) _ s h

  notice_all-Vetted :
      (notifier : String) (peers : List Peer) (count : ℕ) (g : Gateway) (s : Schedule)
      → Vetted w.library g
      → Vetted w.library (notice_all w notifier peers count g s).1
  unfolding notice_all
  notice_all-Vetted notifier [] count g s h = h
  notice_all-Vetted notifier (p ∷ peers) count g s h = elim (Bool-cases (is_usable w p)) [
    | inl e ↦ rw e (
        noticed-Vetted notifier p count g (notice w p g.manager s) (notice_all w notifier peers)
          ((notice-Keeps p (usable-SafeUrl p e)).at g.manager s h)
          (notice_all-Vetted notifier peers))
    | inr e ↦ rw e (notice_all-Vetted notifier peers count g s h)
  ]

  notified-Vetted :
      (body : Notification) (g : Gateway) (s : Schedule)
      → Vetted w.library g
      → Vetted w.library (notified w body g s).1
  notified-Vetted none g s h = h
  notified-Vetted (some (notifier, peers)) g s h = elim (Bool-cases (ltb 50 (length peers))) [
    | inl e ↦ rw e h
    | inr e ↦ rw e (notice_all-Vetted notifier peers 0 g s h)
  ]

  notify_limit-Vetted :
      (o : Limiter.Outcome) (g : Gateway) (s : Schedule) (rest : NotifiedWith)
      → Vetted w.library g
      → Vetted w.library rest.1
      → Vetted w.library (Peers.behind_limit o g s rest).1
  notify_limit-Vetted pass g s rest h k = k
  notify_limit-Vetted (deny t wait) g s rest h k = h
  notify_limit-Vetted Limiter.raised g s rest h k = h

  pub notification-Vetted :
      (r : Request) (clock : ℕ → ℕ) (body : Notification) (g : Gateway) (s : Schedule)
      → Vetted w.library g
      → Vetted w.library (handle_peer_notification w r clock body g s).1
  unfolding handle_peer_notification
  notification-Vetted r clock body g s h =
      let limited = record g { limiter = (check_rate_limit r clock g.limiter).1 } in
      notify_limit-Vetted _ limited s _ h (notified-Vetted body limited s h)
