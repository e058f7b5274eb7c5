-- ===== src/Pool/Loads.antt =====
-- What a load of a model does to the pool.
use llama_net.Prelude.{
  ℕ, ◌≤◌, ◌≡◌, ◌≢◌, refl, ap, true, Option, none, some, String, arith, ◌⊎◌, inl, inr, Bool-cases,
  Option-cases, eq_iff,
}
use llama_net.Prelude.Dict
use llama_net.Pool.State.{Wrapper, ModelSlot, ModelPool, System}
use llama_net.Pool.Operations.{
  get_eviction_target, name_or_basename, register, touched, activate, evict, evict_target,
  make_room, loaded, load_named, load_model,
}
use llama_net.Pool.Sound.{resolved_twice}

-- The model k is as it was, or the full pool gave it up.
abbrev pub Kept : ModelPool → ModelPool → String → Type 0
Kept p q k =
    (Dict.get q.slots k ≡ Dict.get p.slots k)
    ⊎ ((get_eviction_target p ≡ some k) × (p.max_models ≤ Dict.size p.slots))

pub record Loaded (name : String) (p : ModelPool) (r : Option ModelSlot × ModelPool) : Type 0 where
  pub stored : (s : ModelSlot) → r.0 ≡ some s → Dict.get r.1.slots name ≡ some s
  pub active : (s : ModelSlot) → r.0 ≡ some s → r.1.active_model ≡ some name
  pub others : (k : String) → k ≢ name → Kept p r.1 k

evict-get :
    (name k : String) (p : ModelPool)
    → (Dict.get (evict name p).1.slots k ≡ Dict.get p.slots k) ⊎ (name ≡ k)
unfolding evict
evict-get name k p = elim (Option-cases (Dict.get p.slots name)) [
  | inl q ↦ inl (ground (arith, q))
  | inr (s, q) ↦ ground (arith, q, Dict.get-pop p.slots name k, eq_iff name k)
]

evict_target-get :
    (t : Option String) (k : String) (p : ModelPool)
    → (Dict.get (evict_target t p).slots k ≡ Dict.get p.slots k) ⊎ (t ≡ some k)
evict_target-get none k p = inl refl
evict_target-get (some name) k p = ground (arith, evict-get name k p)

make_room-Kept : (p : ModelPool) (k : String) → Kept p (make_room p) k
unfolding make_room
make_room-Kept p k = ground (arith, evict_target-get (get_eviction_target p) k p)

loaded-Loaded :
    (sys : System) (now : ℕ) (path name : String) (o : Option Wrapper) (p m : ModelPool)
    → name_or_basename sys path name ≡ name
    → ((k : String) → Kept p m k)
    → Loaded name p (loaded sys now path name o m)
unfolding register
loaded-Loaded sys now path name none p m e h = record {
  stored = λ s q. absurd (ground (arith, q));
  active = λ s q. absurd (ground (arith, q));
  others = λ k ne. h k;
}
loaded-Loaded sys now path name (some llm) p m e h =
    let s = (register sys now path llm name m).0 in
    record {
      stored = λ t q. ground (
        arith,
        q,
        Dict.get-put m.slots (name_or_basename sys path name) name s,
        e,
        eq_iff (name_or_basename sys path name) name,
      );
      active = λ t q. ap (λ n. some n) e;
      others = λ k ne. ground (
        arith,
        h k,
        ne,
        e,
        Dict.get-put m.slots (name_or_basename sys path name) k s,
        eq_iff (name_or_basename sys path name) k,
      );
    }

activated :
    (now : ℕ) (name : String) (p : ModelPool)
    → Dict.has p.slots name ≡ true
    → Loaded name p (Dict.get (activate now name p).1.slots name, (activate now name p).1)
unfolding activate
activated now name p h = elim (Option-cases (Dict.get p.slots name)) [
  | inl q ↦ absurd (ground (arith, q, h))
  | inr (s, q) ↦ record {
    stored = λ t g. g;
    active = λ t g. ground (arith, q);
    others =
        λ k ne. ground (arith, q, ne, eq_iff name k, Dict.get-put p.slots name k (touched now s));
  }
]

-- A load, under the name given or that of the file: if it yields a slot, that slot is in the pool
-- under the name, and the model is the active one; and whether or not it does, each other model of
-- the pool is kept as it was, save the one that a full pool gives up.
pub load_model_lem :
    (sys : System) (now : ℕ) (path name : String) (p : ModelPool)
    → Loaded (name_or_basename sys path name) p (load_model sys now path name p)
unfolding load_model load_named
load_model_lem sys now path name p =
    let e = resolved_twice sys path name in
    let n = name_or_basename sys path name in
    elim (Bool-cases (Dict.has p.slots n)) [
      | inl h ↦ rw (load_named, h) (activated now n p h)
      | inr f ↦
          rw (load_named, f)
            (loaded-Loaded sys now path n (sys.load path n) p (make_room p) e (make_room-Kept p))
    ]
