-- ===== src/Gateway/Vetted.antt =====
-- The URLs of the nodes: what each handler writes into the table.
use llama_net.Prelude.{
  ℕ, ◌≡◌, refl, Bool, true, false, Option, none, some, List, [], ◌∷◌, String, str_eq, if◌then◌else◌,
  Bool-cases, inl, inr, arith,
}
use llama_net.Prelude.Dict
use llama_net.Prelude.Dict.{Dict, Each, Each-put, Each-get}
use llama_net.Validate.Nodes.{
  Library, UrlVerdict, safe, bad_format, bad_scheme, no_hostname, blocked_hostname, private_range,
  validate_node_url, is_safe,
}
use llama_net.Database.State.{NodeRow, Gauges}
use llama_net.Database.Calls.{Method, execute, write}
use llama_net.Database.Models.{Listed, get_node_models}
use llama_net.Database.Urls.{
  AllUrls, Keeps, Keeps-bind, Keeps-then, Keeps-catch, Keeps-pure, Keeps-execute, Keeps-select,
  Keeps-write, Keeps-if,
}
use llama_net.Database.Moving.{
  evict_stale-Keeps, upsert_node_models-Keeps, update_node_metrics-Keeps, changed-AllUrls,
}
use llama_net.Gateway.State.{World, Gateway}
use llama_net.Gateway.Beat.{
  Heartbeat, pool_of, bare_row, move_node, move_active, wake_row, moved_active, woken, metrics_of,
}
use llama_net.Gateway.Changes.{should_broadcast, gauges_differ, pool_differs}
use llama_net.Gateway.Heartbeat.{are_written, store_pool, told_name, heartbeat_rows}

-- The validator finds a URL safe.
abbrev pub SafeUrl : Library → String → Type 0
SafeUrl l url = validate_node_url l url ≡ safe

-- The URL of each node in the table is one that the validator finds safe.
abbrev pub Vetted : Library → Gateway → Type 0
Vetted l g = AllUrls (SafeUrl l) g.manager

pub empty-SafeUrl : (l : Library) → SafeUrl l ""
unfolding validate_node_url
empty-SafeUrl l = refl

pub is_safe-SafeUrl : (v : UrlVerdict) → is_safe v ≡ true → v ≡ safe
is_safe-SafeUrl safe h = refl
is_safe-SafeUrl bad_format h = absurd (ground (arith, h))
is_safe-SafeUrl bad_scheme h = absurd (ground (arith, h))
is_safe-SafeUrl no_hostname h = absurd (ground (arith, h))
is_safe-SafeUrl blocked_hostname h = absurd (ground (arith, h))
is_safe-SafeUrl private_range h = absurd (ground (arith, h))

module _ (l : Library) where
  abbrev pub K : {A : Type 0} → Method A → Type 0
  K x = Keeps (SafeUrl l) x

  -- A URL is written where it is not empty.
  moved-SafeUrl :
      (url ip : String) (r : NodeRow)
      → SafeUrl l url
      → SafeUrl l r.url
      → SafeUrl l (if str_eq url "" then r.url else url)
  moved-SafeUrl url ip r u h = elim (Bool-cases (str_eq url "")) [ inl e ↦ rw e h | inr e ↦ rw e u ]

  active-SafeUrl :
      (url ip : String) (r : NodeRow)
      → SafeUrl l url
      → SafeUrl l r.url
      → SafeUrl l (moved_active url ip r).url
  active-SafeUrl url ip r u h = elim (Bool-cases r.is_active) [
    | inl e ↦ rw e (moved-SafeUrl url ip r u h)
    | inr e ↦ rw e h
  ]

  or_bare-SafeUrl :
      (o : Option NodeRow)
      → ((r : NodeRow) → o ≡ some r → SafeUrl l r.url)
      → SafeUrl l (elim o as (λ x. NodeRow) [ none ↦ bare_row | some r ↦ r ]).url
  or_bare-SafeUrl none k = empty-SafeUrl l
  or_bare-SafeUrl (some r) k = k r refl

  moved-Keeps : (hash url ip : String) → SafeUrl l url → K (execute (move_active hash url ip))
  moved-Keeps hash url ip u = Keeps-execute (SafeUrl l) (move_active hash url ip) (λ m h.
      changed-AllUrls (SafeUrl l) hash (moved_active url ip) m.nodes
        (λ r q. active-SafeUrl url ip r u q) h)

  woken-Keeps :
      (now : ℕ) (hash url ip : String) → SafeUrl l url → K (write (wake_row now hash url ip))
  woken-Keeps now hash url ip u = Keeps-write (SafeUrl l) (wake_row now hash url ip) (λ m h.
      let old = Dict.get_or m.nodes hash bare_row in
      Each-put (λ (r : NodeRow). SafeUrl l r.url) m.nodes hash (woken now url ip old) h
        (moved-SafeUrl url ip old u (
          or_bare-SafeUrl (Dict.get m.nodes hash)
            (λ r e. Each-get (λ (q : NodeRow). SafeUrl l q.url) m.nodes hash h e))))

  move_node-Keeps : (now : ℕ) (hash url ip : String) → SafeUrl l url → K (move_node now hash url ip)
  unfolding move_node
  move_node-Keeps now hash url ip u = Keeps-if (SafeUrl l) _ _ _ (Keeps-pure (SafeUrl l) _) (
      Keeps-catch (SafeUrl l) _ _
        (Keeps-bind (SafeUrl l) _ _ (moved-Keeps hash url ip u) (λ found.
          Keeps-if (SafeUrl l) _ _ _ (Keeps-pure (SafeUrl l) _) (woken-Keeps now hash url ip u)))
        (Keeps-pure (SafeUrl l) _))

  get_node_models-Keeps : (hash : String) (e : Option Bool) → K (get_node_models hash e)
  unfolding get_node_models
  get_node_models-Keeps hash e =
      Keeps-catch (SafeUrl l) _ _ (Keeps-select (SafeUrl l) _) (Keeps-pure (SafeUrl l) _)

  pool_differs-Keeps :
      (hash : String) (pool : List Listed) (d : Option Bool) → K (pool_differs hash pool d)
  pool_differs-Keeps hash pool none = record { at = λ m s h. h }
  pool_differs-Keeps hash pool (some true) = Keeps-pure (SafeUrl l) _
  pool_differs-Keeps hash [] (some false) = Keeps-pure (SafeUrl l) _
  pool_differs-Keeps hash (x ∷ xs) (some false) =
      Keeps-bind (SafeUrl l) _ _ (get_node_models-Keeps hash (some false))
        (λ rows. Keeps-pure (SafeUrl l) _)

  should_broadcast-Keeps :
      (hash : String) (pool : List Listed) (new : Gauges) → K (should_broadcast hash pool new)
  unfolding should_broadcast
  should_broadcast-Keeps hash pool new =
      Keeps-catch (SafeUrl l) _ _
        (Keeps-bind (SafeUrl l) _ _ (Keeps-select (SafeUrl l) _)
          (λ old. pool_differs-Keeps hash pool (gauges_differ old new)))
        (Keeps-pure (SafeUrl l) _)

  store_pool-Keeps :
      (w : World) (hash : String) (model : Option String) (pool : List Listed)
      → K (store_pool w hash model pool)
  unfolding store_pool
  store_pool-Keeps w hash model [] = Keeps-pure (SafeUrl l) _
  store_pool-Keeps w hash model (x ∷ xs) =
      Keeps-then (SafeUrl l) _ _ (upsert_node_models-Keeps (SafeUrl l) w.lower hash (x ∷ xs) _)
        (evict_stale-Keeps (SafeUrl l) hash _)

  told_name-Keeps :
      (hash : String) (fallback : List ℕ) (told : Bool) → K (told_name hash fallback told)
  unfolding told_name
  told_name-Keeps hash fallback false = Keeps-pure (SafeUrl l) _
  told_name-Keeps hash fallback true =
      Keeps-catch (SafeUrl l) _ _
        (Keeps-bind (SafeUrl l) _ _ (Keeps-select (SafeUrl l) _) (λ known.
          Keeps-bind (SafeUrl l) _ _
            (Keeps-catch (SafeUrl l) _ _ (Keeps-select (SafeUrl l) _) (Keeps-pure (SafeUrl l) _))
            (λ name. Keeps-pure (SafeUrl l) _)))
        (Keeps-pure (SafeUrl l) _)

  pub heartbeat_rows-Keeps :
      (w : World) (b : Heartbeat) (hash : String) → SafeUrl l b.url → K (heartbeat_rows w b hash)
  unfolding heartbeat_rows
  heartbeat_rows-Keeps w b hash u =
      Keeps-then (SafeUrl l) _ _ (move_node-Keeps w.now hash b.url b.ip u) (
        Keeps-bind (SafeUrl l) _ _ (should_broadcast-Keeps hash (pool_of b) b.metrics.gauges)
          (λ told. Keeps-then (SafeUrl l) _ _ (store_pool-Keeps w hash b.model (pool_of b)) (
            Keeps-bind (SafeUrl l) _ _ (told_name-Keeps hash _ told) (λ name.
              Keeps-then (SafeUrl l) _ _
                (Keeps-if (SafeUrl l) (are_written b.metrics.gauges) _ _ (Keeps-pure (SafeUrl l) tt)
                  (record { at = λ m s h. h }))
                (Keeps-bind (SafeUrl l) _ _
                  (update_node_metrics-Keeps (SafeUrl l) w.lower w.now hash (metrics_of b))
                  (λ known. Keeps-pure (SafeUrl l) (name, known)))))))
