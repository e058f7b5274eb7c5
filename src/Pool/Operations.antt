-- ===== src/Pool/Operations.antt =====
-- The operations of `ModelPool` in inference_node/model_pool.py.
use llama_net.Prelude.{
  ℕ, ◌+◌, Bool, true, false, ◌||◌, Option, none, some, [], ◌∷◌, String, str_eq, leb, ltb,
  if◌then◌else◌,
}
use llama_net.Prelude.Dict
use llama_net.Prelude.Dict.{Dict}
use llama_net.Pool.State.{
  Wrapper, ModelSlot, Change, model_loaded, model_evicted, ModelPool, System,
}

abbrev pub notify_change : Change → ModelPool → ModelPool
notify_change c p = record p { changes = c ∷ p.changes }

-- `if not model_name: model_name = os.path.basename(model_path)`
unfoldable pub name_or_basename : System → String → String → String
name_or_basename sys path name = if str_eq name "" then sys.basename path else name

unfoldable pub register : System → ℕ → String → Wrapper → String → ModelPool → ModelSlot × ModelPool
unfolding name_or_basename
register sys now path llm name p =
    let resolved = name_or_basename sys path name in
    let slot : ModelSlot = record {
      model_name = resolved;
      model_path = path;
      llm = llm;
      last_accessed = now;
      loaded_at = now;
      size_bytes = sys.file_size path;
      access_count = 0;
      n_ctx = llm.n_ctx;
    } in
    (slot, record p { slots = Dict.put p.slots resolved slot; active_model = some resolved })

-- `last_accessed = now` and `access_count += 1`
abbrev pub touched : ℕ → ModelSlot → ModelSlot
touched now slot = record slot { last_accessed = now; access_count = slot.access_count + 1 }

unfoldable pub get_for_inference : ℕ → String → ModelPool → Option ModelSlot × ModelPool
get_for_inference now name p = elim (Dict.get p.slots name) [
  | none ↦ (none, p)
  | some slot ↦
      (some (touched now slot), record p { slots = Dict.put p.slots name (touched now slot) })
]

unfoldable pub activate : ℕ → String → ModelPool → Bool × ModelPool
activate now name p = elim (Dict.get p.slots name) [
  | none ↦ (false, p)
  | some slot ↦ (
    true,
    record p { active_model = some name; slots = Dict.put p.slots name (touched now slot) },
  )
]

-- An active model named "" counts as none.
unfoldable pub get_active : ModelPool → Option ModelSlot
get_active p = elim p.active_model [
  | none ↦ none
  | some name ↦ if str_eq name "" then none else Dict.get p.slots name
]

abbrev pub is_active : Option String → String → Bool
is_active none name = false
is_active (some a) name = str_eq name a

-- `{name: slot for name, slot in self.slots.items() if name != self.active_model}`
unfoldable pub candidates : Option String → Dict ModelSlot → Dict ModelSlot
candidates active [] = []
candidates active ((name, slot) ∷ d) =
    let rest = candidates active d in if is_active active name then rest else (name, slot) ∷ rest

-- `min(candidates, key=last_accessed)`: the first of the least recently used.
unfoldable pub least_recent : String × ModelSlot → Dict ModelSlot → String × ModelSlot
least_recent best [] = best
least_recent best (e ∷ d) =
    least_recent (if ltb e.1.last_accessed best.1.last_accessed then e else best) d

unfoldable pub get_eviction_target : ModelPool → Option String
unfolding candidates least_recent
get_eviction_target p = elim (candidates p.active_model p.slots) [
  | [] ↦ none
  | e ∷ d ↦ some (least_recent e d).0
]

abbrev pub first_name : Dict ModelSlot → Option String
first_name [] = none
first_name ((name, slot) ∷ d) = some name

-- If the active model goes, the first of the others becomes the active one.
unfoldable pub evict : String → ModelPool → Bool × ModelPool
evict name p = elim (Dict.get p.slots name) [
  | none ↦ (false, p)
  | some slot ↦
      let left = Dict.pop p.slots name in
      (
        true,
        notify_change (model_evicted name) (record p {
          slots = left;
          active_model = if is_active p.active_model name then first_name left else p.active_model;
        }),
      )
]

-- `if target: self.evict(target)`
abbrev pub evict_target : Option String → ModelPool → ModelPool
evict_target none p = p
evict_target (some name) p = if str_eq name "" then p else (evict name p).1

unfoldable pub evict_lru : ModelPool → Option String × ModelPool
unfolding get_eviction_target evict
evict_lru p = (get_eviction_target p, evict_target (get_eviction_target p) p)

-- "Check if we need to evict"
unfoldable pub make_room : ModelPool → ModelPool
unfolding get_eviction_target evict
make_room p =
    if leb p.max_models (Dict.size p.slots) then evict_target (get_eviction_target p) p else p

-- The rest of the load, once there is room; `none` is an exception of the wrapper.
abbrev pub loaded :
    System → ℕ → String → String → Option Wrapper → ModelPool → Option ModelSlot × ModelPool
loaded sys now path name none p = (none, p)
loaded sys now path name (some llm) p =
    let (slot, p1) = register sys now path llm name p in
    (some slot, notify_change (model_loaded name) p1)

unfoldable pub load_named : System → ℕ → String → String → ModelPool → Option ModelSlot × ModelPool
unfolding activate make_room register
load_named sys now path name p =
    if Dict.has p.slots name
    then (let p1 = (activate now name p).1 in (Dict.get p1.slots name, p1))
    else loaded sys now path name (sys.load path name) (make_room p)

unfoldable pub load_model : System → ℕ → String → String → ModelPool → Option ModelSlot × ModelPool
unfolding load_named name_or_basename
load_model sys now path name p = load_named sys now path (name_or_basename sys path name) p

-- In bytes; the source divides and rounds.
unfoldable pub get_memory_usage : Dict ModelSlot → ℕ
get_memory_usage [] = 0
get_memory_usage ((name, slot) ∷ d) = slot.size_bytes + get_memory_usage d

unfoldable pub can_load : ModelPool → Bool
can_load p = ltb (Dict.size p.slots) p.max_models || ltb 1 (Dict.size p.slots)
