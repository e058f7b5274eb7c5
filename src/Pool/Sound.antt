-- ===== src/Pool/Sound.antt =====
-- The invariant of the pool, kept by each of its operations.
use llama_net.Prelude.{
  ℕ, zero, suc, ◌+◌, ◌≤◌, ◌≡◌, ◌≢◌, refl, sym, ◌∙◌, ap, max, true, false, Option, none, some, List,
  [], ◌∷◌, String, str_eq, arith, leb, ◌⊎◌, inl, inr, Bool-cases, Option-cases, if◌then◌else◌,
  eq_iff,
}
use llama_net.Prelude.Dict
use llama_net.Prelude.Dict.{Dict, Distinct}
use llama_net.Pool.State.{Wrapper, ModelSlot, Change, ModelPool, System, new_pool}
use llama_net.Pool.Operations.{
  is_active, first_name, get_eviction_target, name_or_basename, register, touched,
  get_for_inference, activate, evict, evict_target, evict_lru, make_room, loaded, load_named,
  load_model,
}
use llama_net.Pool.Eviction.{eviction_target}

-- The pool holds each name once and a slot under its own name; some model is active unless the pool
-- is empty, and the active one is in the pool.
pub record Sound (limit : ℕ) (p : ModelPool) : Type 0 where
  pub limit_kept : p.max_models ≡ limit
  pub distinct : Distinct p.slots
  pub named : (k : String) (s : ModelSlot) → Dict.get p.slots k ≡ some s → s.model_name ≡ k
  pub held : (a : String) → p.active_model ≡ some a → Dict.has p.slots a ≡ true
  pub idle : p.active_model ≡ none → p.slots ≡ []
  pub no_empty_name : Dict.has p.slots "" ≡ false
  pub within : Dict.size p.slots ≤ max 2 limit

empty_has : (k : String) (d : Dict ModelSlot) → d ≡ [] → Dict.has d k ≡ true → ⊥
unfolding Dict.get
empty_has k [] e h = ground arith
empty_has k (x ∷ d) e h = ground (arith, e)

first_held : (d : Dict ModelSlot) (b : String) → first_name d ≡ some b → Dict.has d b ≡ true
unfolding Dict.get
first_held [] b e = absurd (ground arith)
first_held ((k, s) ∷ d) b e = ground (arith, e, eq_iff k b)

first_idle : (d : Dict ModelSlot) → first_name d ≡ none → d ≡ []
first_idle [] e = refl
first_idle ((k, s) ∷ d) e = absurd (ground arith)

module _ (limit : ℕ) where
  -- A slot that is stored under its name, which becomes or stays active.
  stored-Sound :
      (p : ModelPool) (k : String) (s : ModelSlot) (a : Option String) (cs : List Change)
      → Sound limit p
      → s.model_name ≡ k
      → k ≢ ""
      → (a ≡ some k) ⊎ ((a ≡ p.active_model) × (Dict.has p.slots k ≡ true))
      → (if Dict.has p.slots k then Dict.size p.slots else Dict.size p.slots + 1) ≤ max 2 limit
      → Sound limit (record p { slots = Dict.put p.slots k s; active_model = a; changes = cs })
  stored-Sound p k s a cs v n ne way le = record {
    limit_kept = v.limit_kept;
    distinct = Dict.Distinct-put p.slots k s v.distinct;
    named = λ j t g. ground (arith, Dict.get-put p.slots k j s, eq_iff k j, g, n, v.named j t);
    held = λ b q. ground (arith, Dict.get-put p.slots k b s, eq_iff k b, way, q, v.held b);
    idle = λ q. absurd (elim way [
      | inl e ↦ ground (arith, e, q)
      | inr (e, h) ↦ empty_has k p.slots (v.idle (sym e ∙ q)) h
    ]);
    no_empty_name = ground (arith, Dict.get-put p.slots k "" s, eq_iff k "", v.no_empty_name, ne);
    within = ground (arith, Dict.size-put p.slots k s, le);
  }

  register-Sound :
      (sys : System) (now : ℕ) (path : String) (llm : Wrapper) (name : String) (p : ModelPool)
      → name_or_basename sys path name ≢ ""
      → Dict.size p.slots + 1 ≤ max 2 limit
      → Sound limit p
      → Sound limit (register sys now path llm name p).1
  unfolding register
  register-Sound sys now path llm name p ne le v =
      stored-Sound p (name_or_basename sys path name) (register sys now path llm name p).0
        (some (name_or_basename sys path name)) p.changes v refl ne (inl refl)
        (ground (arith, le, v.within))

  -- A slot of the pool that is used.
  touched-Sound :
      (now : ℕ) (k : String) (s : ModelSlot) (a : Option String) (p : ModelPool)
      → Sound limit p
      → Dict.get p.slots k ≡ some s
      → (a ≡ some k) ⊎ (a ≡ p.active_model)
      → Sound limit (record p { slots = Dict.put p.slots k (touched now s); active_model = a })
  touched-Sound now k s a p v g way =
      stored-Sound p k (touched now s) a p.changes v (v.named k s g)
        (λ e. ground (arith, v.no_empty_name, g, ap (Dict.get p.slots) e)) (ground (arith, way, g))
        (ground (arith, v.within, g))

  activate-Sound :
      (now : ℕ) (name : String) (p : ModelPool)
      → Sound limit p
      → Sound limit (activate now name p).1
  unfolding activate
  activate-Sound now name p v = elim (Option-cases (Dict.get p.slots name)) [
    | inl q ↦ rw (q, activate) v
    | inr (s, q) ↦ rw (q, activate) (touched-Sound now name s (some name) p v q (inl refl))
  ]

  get_for_inference-Sound :
      (now : ℕ) (name : String) (p : ModelPool)
      → Sound limit p
      → Sound limit (get_for_inference now name p).1
  unfolding get_for_inference
  get_for_inference-Sound now name p v = elim (Option-cases (Dict.get p.slots name)) [
    | inl q ↦ rw (q, get_for_inference) v
    | inr (s, q) ↦
        rw (q, get_for_inference) (touched-Sound now name s p.active_model p v q (inr refl))
  ]

  popped-Sound :
      (name : String) (s : ModelSlot) (cs : List Change) (p : ModelPool)
      → Sound limit p
      → Dict.get p.slots name ≡ some s
      → Sound limit (record p {
        slots = Dict.pop p.slots name;
        active_model =
            if is_active p.active_model name
            then first_name (Dict.pop p.slots name)
            else p.active_model;
        changes = cs;
      })
  popped-Sound name s cs p v g =
      let left = Dict.pop p.slots name in
      record {
        limit_kept = v.limit_kept;
        distinct = Dict.Distinct-pop p.slots name v.distinct;
        named = λ j t q. ground (arith, Dict.get-pop p.slots name j, q, v.named j t);
        held = λ b q. elim (Bool-cases (is_active p.active_model name)) [
          | inl y ↦ first_held left b (ground (arith, y, q))
          | inr f ↦ ground (arith, Dict.get-pop p.slots name b, f, q, v.held b, eq_iff name b)
        ];
        idle = λ q. elim (Bool-cases (is_active p.active_model name)) [
          | inl y ↦ first_idle left (ground (arith, y, q))
          | inr f ↦
              absurd (empty_has name p.slots (v.idle (ground (arith, f, q))) (ground (arith, g)))
        ];
        no_empty_name = ground (arith, Dict.get-pop p.slots name "", v.no_empty_name);
        within = ground (arith, Dict.size-pop-le p.slots name, v.within);
      }

  evict-Sound : (name : String) (p : ModelPool) → Sound limit p → Sound limit (evict name p).1
  unfolding evict
  evict-Sound name p v = elim (Option-cases (Dict.get p.slots name)) [
    | inl q ↦ rw (q, evict) v
    | inr (s, q) ↦ rw (q, evict) (popped-Sound name s _ p v q)
  ]

  evict_target-Sound :
      (t : Option String) (p : ModelPool) → Sound limit p → Sound limit (evict_target t p)
  evict_target-Sound none p v = v
  evict_target-Sound (some name) p v = elim (Bool-cases (str_eq name "")) [
    | inl e ↦ rw e v
    | inr e ↦ rw e (evict-Sound name p v)
  ]

  make_room-Sound : (p : ModelPool) → Sound limit p → Sound limit (make_room p)
  unfolding make_room
  make_room-Sound p v = elim (Bool-cases (leb p.max_models (Dict.size p.slots))) [
    | inl e ↦ rw e (evict_target-Sound (get_eviction_target p) p v)
    | inr e ↦ rw e v
  ]

  room : (p : ModelPool) → Sound limit p → Dict.size (make_room p).slots + 1 ≤ max 2 limit
  room p v = elim (Bool-cases (leb p.max_models (Dict.size p.slots))) [
    | inr e ↦ unfold make_room in rw e (ground (arith, e, v.limit_kept))
    | inl e ↦ elim (eviction_target p v.distinct) [
      | inl (q, le) ↦ unfold make_room in rw (e, q) (ground (arith, le))
      | inr (name, q, r) ↦
          unfold make_room evict in
          (let s = Dict.size-pop p.slots name (ground (arith, r.stored)) in
            ground (arith, e, q, r.stored, s, v.within, v.no_empty_name, eq_iff name ""))
    ]
  ]

  loaded-Sound :
      (sys : System) (now : ℕ) (path name : String) (o : Option Wrapper) (p : ModelPool)
      → name_or_basename sys path name ≢ ""
      → Dict.size p.slots + 1 ≤ max 2 limit
      → Sound limit p
      → Sound limit (loaded sys now path name o p).1
  loaded-Sound sys now path name none p ne le v = v
  loaded-Sound sys now path name (some llm) p ne le v =
      let r = register-Sound sys now path llm name p ne le v in
      record {
        limit_kept = r.limit_kept;
        distinct = r.distinct;
        named = r.named;
        held = r.held;
        idle = r.idle;
        no_empty_name = r.no_empty_name;
        within = r.within;
      }

  load_named-Sound :
      (sys : System) (now : ℕ) (path name : String) (p : ModelPool)
      → name_or_basename sys path name ≢ ""
      → Sound limit p
      → Sound limit (load_named sys now path name p).1
  unfolding load_named
  load_named-Sound sys now path name p ne v = elim (Bool-cases (Dict.has p.slots name)) [
    | inl h ↦ rw (load_named, h) (activate-Sound now name p v)
    | inr f ↦
        rw (load_named, f)
          (loaded-Sound sys now path name (sys.load path name) (make_room p) ne (room p v)
            (make_room-Sound p v))
  ]

-- What the node does with its pool. (A load is of a model with a name.)
pub data PoolStep : ModelPool → ModelPool → Type 0 where
  load :
      (sys : System) (now : ℕ) (path name : String) (p : ModelPool)
      → name_or_basename sys path name ≢ ""
      → PoolStep p (load_model sys now path name p).1
  serve : (now : ℕ) (name : String) (p : ModelPool) → PoolStep p (get_for_inference now name p).1
  switch : (now : ℕ) (name : String) (p : ModelPool) → PoolStep p (activate now name p).1
  give_up : (name : String) (p : ModelPool) → PoolStep p (evict name p).1
  give_up_lru : (p : ModelPool) → PoolStep p (evict_lru p).1

pub data PoolReach (p : ModelPool) : ModelPool → Type 0 where
  here : PoolReach p p
  next : {q r : ModelPool} → PoolReach p q → PoolStep q r → PoolReach p r

pub resolved_twice :
    (sys : System) (path name : String)
    → name_or_basename sys path (name_or_basename sys path name) ≡ name_or_basename sys path name
unfolding name_or_basename
resolved_twice sys path name = ground arith

step-Sound : (limit : ℕ) {p q : ModelPool} → PoolStep p q → Sound limit p → Sound limit q
unfolding load_model evict_lru
step-Sound limit (load sys now path name p ne) v =
    load_named-Sound limit sys now path (name_or_basename sys path name) p
      (λ e. ne (sym (resolved_twice sys path name) ∙ e)) v
step-Sound limit (serve now name p) v = get_for_inference-Sound limit now name p v
step-Sound limit (switch now name p) v = activate-Sound limit now name p v
step-Sound limit (give_up name p) v = evict-Sound limit name p v
step-Sound limit (give_up_lru p) v = evict_target-Sound limit (get_eviction_target p) p v

-- Whatever loads, uses, switches and evictions follow on the start of a pool, and whether a load
-- succeeds or not, where each model has a name: the pool holds each name once, and each slot under its own name; one of its
-- models is active unless it is empty; and it holds no more models than its maximum, or two where
-- the maximum is one.
pub pool-Sound :
    (n : ℕ) (fitting : Option ℕ) {q : ModelPool}
    → PoolReach (new_pool n fitting) q
    → Sound (new_pool n fitting).max_models q
unfolding new_pool Dict.get
pool-Sound zero fitting here = record {
  limit_kept = refl;
  distinct = tt;
  named = λ k s g. absurd (ground arith);
  held = λ a e. absurd (ground arith);
  idle = λ e. refl;
  no_empty_name = refl;
  within = ground arith;
}
pool-Sound (suc n) fitting here = record {
  limit_kept = refl;
  distinct = tt;
  named = λ k s g. absurd (ground arith);
  held = λ a e. absurd (ground arith);
  idle = λ e. refl;
  no_empty_name = refl;
  within = ground arith;
}
pool-Sound n fitting (next r st) =
    step-Sound (new_pool n fitting).max_models st (pool-Sound n fitting r)
