-- ===== src/Router/Affinity.antt =====
-- Sticky routing: a conversation's prefix stays with its node.
use text.Mathlib.TextPositions.{eq_refl}
use llama_net.Prelude.{
  ℕ, ◌+◌, ◌-◌, ◌≤◌, ◌≡◌, ◌⊎◌, inl, inr, refl, sym, ◌∙◌, ap, subst, Bool, false, Option, none, some,
  List, [], ◌∷◌, String, str_eq, arith, ltb, Bool-cases, Option-cases, if◌then◌else◌, eq_iff,
}
use llama_net.Prelude.Dict
use llama_net.Prelude.Dict.{Dict, Distinct}
use llama_net.Prelude.Int.{ℤ}
use llama_net.Router.State.{Node, ModelRouter, affinity_max_age}
use llama_net.Router.Select.{
  expired_keys, cleanup_affinity, context_filter, find_node, affinity_node, by_strategy,
  store_affinity, sticky, settle, nonempty, select_from,
}

absent_stays :
    {V : Type 0} (now : ℕ) (d : Dict ℕ) (e : Dict V) (p : String)
    → Dict.get d p ≡ none
    → Dict.get (Dict.pop_all e (expired_keys now d)) p ≡ Dict.get e p
unfolding expired_keys Dict.get Dict.pop_all
absent_stays now [] e p h = refl
absent_stays now ((k, t) ∷ d) e p h = elim (Bool-cases (ltb affinity_max_age (now - t))) [
  | inl old ↦ rw old (
      absent_stays now d (Dict.pop e k) p (ground (arith, eq_iff k p))
      ∙ ground (arith, Dict.get-pop e k p, eq_iff k p))
  | inr new ↦ rw new (absent_stays now d e p (ground (arith, eq_iff k p)))
]

-- What was used within the last half hour is not swept away.
pub recent_stays :
    {V : Type 0} (now t : ℕ) (d : Dict ℕ) (e : Dict V) (p : String)
    → Distinct d
    → Dict.get d p ≡ some t
    → now ≤ t + affinity_max_age
    → Dict.get (Dict.pop_all e (expired_keys now d)) p ≡ Dict.get e p
unfolding expired_keys Dict.get Dict.pop_all
recent_stays now t [] e p h q le = absurd (ground arith)
recent_stays now t ((k, u) ∷ d) e p h q le = elim (Bool-cases (str_eq k p)) [
  | inl same ↦
      let e1 : k ≡ p = (eq_iff k p).0 same in
      let here : u ≡ t = ground arith in
      let old : ltb affinity_max_age (now - u) ≡ false = ground arith in
      rw old (absent_stays now d e p (subst (λ x. Dict.get d x ≡ none) e1 h.0))
  | inr other ↦ elim (Bool-cases (ltb affinity_max_age (now - u))) [
    | inl old ↦ rw old (
        recent_stays now t d (Dict.pop e k) p h.1 (ground arith) le
        ∙ ground (arith, Dict.get-pop e k p))
    | inr new ↦ rw new (recent_stays now t d e p h.1 (ground arith) le)
  ]
]

pub record TiedTo (p hash : String) (t : ℕ) (s : ModelRouter) : Type 0 where
  pub tie : Dict.get s.prefix_affinity p ≡ some hash
  pub stamp : Dict.get s.affinity_ttl p ≡ some t
  pub distinct : Distinct s.affinity_ttl

find_node-hash :
    (hash : String) (xs : List Node) (m : Node) → find_node hash xs ≡ some m → m.node_hash ≡ hash
unfolding find_node
find_node-hash hash [] m e = absurd (ground arith)
find_node-hash hash (x ∷ xs) m e = elim (Bool-cases (str_eq x.node_hash hash)) [
  | inl t ↦
      let q : x ≡ m = ground arith in
      sym (ap (λ (n : Node). n.node_hash) q) ∙ (eq_iff x.node_hash hash).0 t
  | inr f ↦ find_node-hash hash xs m (ground arith)
]

pub affinity_node-hash :
    (c : ℤ) (hash : String) (xs : List Node) (m : Node)
    → affinity_node c hash xs ≡ some m
    → m.node_hash ≡ hash
unfolding affinity_node
affinity_node-hash c hash xs m e = elim (Option-cases (find_node hash xs)) [
  | inl q ↦ absurd (ground arith)
  | inr (n, q) ↦ find_node-hash hash xs m (let r : n ≡ m = ground arith in q ∙ ap some r)
]

get-put_self : {V : Type 0} (d : Dict V) (k : String) (v : V) → Dict.get (Dict.put d k v) k ≡ some v
get-put_self d k v = Dict.get-put d k k v ∙ rw eq_refl refl

-- The three ways through the affinity step.
pub data StickyWay (p : String) (c : ℤ) (xs : List Node) (now : ℕ) (s : ModelRouter) : Type 0 where
  untied : sticky (some p) c xs now s ≡ (none, s) → StickyWay p c xs now s
  gone :
      sticky (some p) c xs now s ≡ (
        none,
        record s {
          prefix_affinity = Dict.pop s.prefix_affinity p;
          affinity_ttl = Dict.pop s.affinity_ttl p;
        },
      )
      → StickyWay p c xs now s
  hit :
      (hash : String) (m : Node)
      → Dict.get s.prefix_affinity p ≡ some hash
      → affinity_node c hash xs ≡ some m
      → sticky (some p) c xs now s
        ≡ (some m, record s { affinity_ttl = Dict.put s.affinity_ttl p now })
      → StickyWay p c xs now s

pub sticky_way :
    (p : String) (c : ℤ) (xs : List Node) (now : ℕ) (s : ModelRouter) → StickyWay p c xs now s
unfolding sticky
sticky_way p c xs now s = elim (Option-cases (Dict.get s.prefix_affinity p)) [
  | inl q ↦ untied (ground arith)
  | inr (hash, q) ↦ elim (Option-cases (affinity_node c hash xs)) [
    | inl r ↦ gone (ground arith)
    | inr (m, r) ↦ hit hash m q r (ground arith)
  ]
]

sticky_ties :
    (p : String) (c : ℤ) (xs : List Node) (now : ℕ) (s : ModelRouter) (m : Node)
    → Distinct s.affinity_ttl
    → (sticky (some p) c xs now s).0 ≡ some m
    → TiedTo p m.node_hash now (sticky (some p) c xs now s).1
sticky_ties p c xs now s m h e = elim (sticky_way p c xs now s) [
  | untied w ↦ absurd (ground arith)
  | gone w ↦ absurd (ground arith)
  | hit hash k q r w ↦
      let same : k ≡ m = ground arith in
      let named : k.node_hash ≡ hash = affinity_node-hash c hash xs k r in
      let named' : m.node_hash ≡ hash = subst (λ (n : Node). n.node_hash ≡ hash) same named in
      rw named' (
        rw w (record {
          tie = q;
          stamp = get-put_self s.affinity_ttl p now;
          distinct = Dict.Distinct-put s.affinity_ttl p now h;
        }))
]

sticky-Distinct :
    (p : Option String) (c : ℤ) (xs : List Node) (now : ℕ) (s : ModelRouter)
    → Distinct s.affinity_ttl
    → Distinct (sticky p c xs now s).1.affinity_ttl
unfolding sticky
sticky-Distinct none c xs now s h = h
sticky-Distinct (some p) c xs now s h = elim (sticky_way p c xs now s) [
  | untied w ↦ subst (λ (r : Option Node × ModelRouter). Distinct r.1.affinity_ttl) (sym w) h
  | gone w ↦
      subst (λ (r : Option Node × ModelRouter). Distinct r.1.affinity_ttl) (sym w)
        (Dict.Distinct-pop s.affinity_ttl p h)
  | hit hash k q r w ↦
      subst (λ (r : Option Node × ModelRouter). Distinct r.1.affinity_ttl) (sym w)
        (Dict.Distinct-put s.affinity_ttl p now h)
]

by_strategy_ttl :
    (strategy slug : String) (draw : ℕ) (n : Node) (ns : List Node) (s : ModelRouter)
    → (by_strategy strategy slug draw n ns s).1.affinity_ttl ≡ s.affinity_ttl
unfolding by_strategy
by_strategy_ttl strategy slug draw n ns s = ground arith

store_ties :
    (p : String) (o : Option Node) (now : ℕ) (s : ModelRouter) (m : Node)
    → Distinct s.affinity_ttl
    → o ≡ some m
    → TiedTo p m.node_hash now (store_affinity (some p) o now s)
unfolding store_affinity
store_ties p none now s m h e = absurd (ground arith)
store_ties p (some n) now s m h e = record {
  tie =
      get-put_self s.prefix_affinity p n.node_hash
      ∙ ap (λ (o : Option Node). elim o [ none ↦ none | some k ↦ some k.node_hash ]) e;
  stamp = get-put_self s.affinity_ttl p now;
  distinct = Dict.Distinct-put s.affinity_ttl p now h;
}

settle_ties :
    (t : Option Node) (p strategy slug : String) (draw now used : ℕ) (xs : List Node)
    (s : ModelRouter) (m : Node)
    → Distinct s.affinity_ttl
    → ((k : Node) → t ≡ some k → TiedTo p k.node_hash used s)
    → (settle t (some p) strategy slug draw now xs s).0 ≡ some m
    → TiedTo p m.node_hash used (settle t (some p) strategy slug draw now xs s).1
      ⊎ TiedTo p m.node_hash now (settle t (some p) strategy slug draw now xs s).1
settle_ties (some k) p strategy slug draw now used xs s m h held e =
    let same : k ≡ m = ground arith in
    inl (subst (λ (n : Node). TiedTo p n.node_hash used s) same (held k refl))
settle_ties none p strategy slug draw now used [] s m h held e = absurd (ground arith)
settle_ties none p strategy slug draw now used (n ∷ ns) s m h held e =
    let r = by_strategy strategy slug draw n ns s in
    inr (
      store_ties p r.0 now r.1 m
        (subst Distinct (sym (by_strategy_ttl strategy slug draw n ns s)) h) e)

nonempty-some : (p : String) → str_eq p "" ≡ false → nonempty (some p) ≡ some p
nonempty-some p ne = ap (λ (b : Bool). if b then none else some p) ne

select_step :
    (slug strategy p : String) (c : ℤ) (draw swept used tied : ℕ) (n : Node) (ns : List Node)
    (s : ModelRouter)
    → str_eq p "" ≡ false
    → select_from slug strategy (some p) c draw swept used tied (n ∷ ns) s
      ≡ settle
          (sticky (some p) c (context_filter c (n ∷ ns)) used (cleanup_affinity swept s)).0
          (some p)
          strategy
          slug
          draw
          tied
          (context_filter c (n ∷ ns))
          (sticky (some p) c (context_filter c (n ∷ ns)) used (cleanup_affinity swept s)).1
unfolding select_from
select_step slug strategy p c draw swept used tied n ns s ne =
    ap
      (λ q.
        let r = sticky q c (context_filter c (n ∷ ns)) used (cleanup_affinity swept s) in
        settle r.0 q strategy slug draw tied (context_filter c (n ∷ ns)) r.1)
      (nonempty-some p ne)

-- The prefix is tied to `hash`, since one of two times.
abbrev pub TiedSince : String → String → ℕ → ℕ → ModelRouter → Type 0
TiedSince p hash t u s = TiedTo p hash t s ⊎ TiedTo p hash u s

-- After a selection for a prefix, the prefix is tied to the node selected.
pub select_ties :
    (slug strategy p : String) (c : ℤ) (draw swept used tied : ℕ) (xs : List Node) (s : ModelRouter)
    (m : Node)
    → Distinct s.affinity_ttl
    → str_eq p "" ≡ false
    → (select_from slug strategy (some p) c draw swept used tied xs s).0 ≡ some m
    → TiedSince p m.node_hash used tied
        (select_from slug strategy (some p) c draw swept used tied xs s).1
select_ties slug strategy p c draw swept used tied [] s m h ne e =
    absurd (unfold select_from in ground arith)
select_ties slug strategy p c draw swept used tied (n ∷ ns) s m h ne e =
    let nodes = context_filter c (n ∷ ns) in
    let s0 = cleanup_affinity swept s in
    let h0 : Distinct s0.affinity_ttl =
      unfold cleanup_affinity in
      Dict.Distinct-pop_all s.affinity_ttl (expired_keys swept s.affinity_ttl) h in
    let r = sticky (some p) c nodes used s0 in
    let step = select_step slug strategy p c draw swept used tied n ns s ne in
    subst (λ (x : Option Node × ModelRouter). TiedSince p m.node_hash used tied x.1) (sym step)
      (settle_ties r.0 p strategy slug draw tied used nodes r.1 m
        (sticky-Distinct (some p) c nodes used s0 h0) (λ k q. sticky_ties p c nodes used s0 k h0 q)
        (sym (ap (λ (x : Option Node × ModelRouter). x.0) step) ∙ e))

pub tied_hit :
    (slug strategy p hash : String) (c : ℤ) (draw swept used tied t : ℕ) (n : Node) (ns : List Node)
    (s : ModelRouter) (m : Node)
    → TiedTo p hash t s
    → str_eq p "" ≡ false
    → swept ≤ t + affinity_max_age
    → affinity_node c hash (context_filter c (n ∷ ns)) ≡ some m
    → (select_from slug strategy (some p) c draw swept used tied (n ∷ ns) s).0 ≡ some m
tied_hit slug strategy p hash c draw swept used tied t n ns s m h ne le a =
    let nodes = context_filter c (n ∷ ns) in
    let s0 = cleanup_affinity swept s in
    let kept : Dict.get s0.prefix_affinity p ≡ some hash =
      unfold cleanup_affinity in
      (recent_stays swept t s.affinity_ttl s.prefix_affinity p h.distinct h.stamp le ∙ h.tie) in
    let r : (sticky (some p) c nodes used s0).0 ≡ some m =
      unfold sticky in ground (arith, kept, a) in
    ap (λ (x : Option Node × ModelRouter). x.0)
      (select_step slug strategy p c draw swept used tied n ns s ne)
    ∙ ap
        (λ (o : Option Node).
          (settle o (some p) strategy slug draw tied nodes (sticky (some p) c nodes used s0).1).0)
        r
