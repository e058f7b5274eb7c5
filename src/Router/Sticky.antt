-- ===== src/Router/Sticky.antt =====
-- Sticky routing over time: what other conversations do leaves a prefix's tie alone.
use llama_net.Prelude.{
  ℕ, ◌+◌, ◌≤◌, ◌≡◌, ◌≢◌, inl, inr, sym, ◌∙◌, ap, subst, false, Option, none, some, List, [], ◌∷◌,
  String, str_eq, arith, Bool-cases, eq_iff, All, All-weaken,
}
use llama_net.Prelude.Dict
use llama_net.Prelude.Dict.{Dict}
use llama_net.Prelude.Int.{ℤ}
use llama_net.Router.State.{Node, ModelRouter, affinity_max_age}
use llama_net.Router.Select.{
  expired_keys, cleanup_affinity, context_filter, affinity_node, by_strategy, store_affinity,
  sticky, settle, nonempty, select_from,
}
use llama_net.Router.Affinity.{
  recent_stays, TiedTo, TiedSince, affinity_node-hash, untied, gone, hit, sticky_way, select_ties,
  tied_hit,
}

-- One call of the selection: what it is given, its draw, its three readings of the clock, and the rows
-- that the database gives it.
pub record Selection : Type 0 where
  pub slug : String
  pub strategy : String
  pub prefix : Option String
  pub min_ctx : ℤ
  pub draw : ℕ
  pub swept : ℕ
  pub used : ℕ
  pub tied : ℕ
  pub rows : List Node

unfoldable pub selected : Selection → ModelRouter → Option Node × ModelRouter
unfolding select_from
selected x s =
    select_from x.slug x.strategy x.prefix x.min_ctx x.draw x.swept x.used x.tied x.rows s

unfoldable pub after_selections : List Selection → ModelRouter → ModelRouter
unfolding selected
after_selections [] s = s
after_selections (x ∷ xs) s = after_selections xs (selected x s).1

module _ (p hash : String) (t : ℕ) where
  swept_ties :
      (now : ℕ) (s : ModelRouter)
      → now ≤ t + affinity_max_age
      → TiedTo p hash t s
      → TiedTo p hash t (cleanup_affinity now s)
  unfolding cleanup_affinity
  swept_ties now s le h = record {
    tie = recent_stays now t s.affinity_ttl s.prefix_affinity p h.distinct h.stamp le ∙ h.tie;
    stamp = recent_stays now t s.affinity_ttl s.affinity_ttl p h.distinct h.stamp le ∙ h.stamp;
    distinct = Dict.Distinct-pop_all s.affinity_ttl (expired_keys now s.affinity_ttl) h.distinct;
  }

  other_used :
      (q : String) (now : ℕ) (s : ModelRouter)
      → q ≢ p
      → TiedTo p hash t s
      → TiedTo p hash t (record s { affinity_ttl = Dict.put s.affinity_ttl q now })
  other_used q now s ne h = record {
    tie = h.tie;
    stamp = ground (arith, Dict.get-put s.affinity_ttl q p now, eq_iff q p, ne, h.stamp);
    distinct = Dict.Distinct-put s.affinity_ttl q now h.distinct;
  }

  other_dropped :
      (q : String) (s : ModelRouter)
      → q ≢ p
      → TiedTo p hash t s
      → TiedTo p hash t (record s {
        prefix_affinity = Dict.pop s.prefix_affinity q;
        affinity_ttl = Dict.pop s.affinity_ttl q;
      })
  other_dropped q s ne h = record {
    tie = ground (arith, Dict.get-pop s.prefix_affinity q p, eq_iff q p, ne, h.tie);
    stamp = ground (arith, Dict.get-pop s.affinity_ttl q p, eq_iff q p, ne, h.stamp);
    distinct = Dict.Distinct-pop s.affinity_ttl q h.distinct;
  }

  other_sticky :
      (q : Option String) (c : ℤ) (xs : List Node) (now : ℕ) (s : ModelRouter)
      → q ≢ some p
      → TiedTo p hash t s
      → TiedTo p hash t (sticky q c xs now s).1
  unfolding sticky
  other_sticky none c xs now s ne h = h
  other_sticky (some q) c xs now s ne h =
      let back : (r : Option Node × ModelRouter)
          → sticky (some q) c xs now s ≡ r
          → TiedTo p hash t r.1
          → TiedTo p hash t (sticky (some q) c xs now s).1 =
        λ r e k. subst (λ (x : Option Node × ModelRouter). TiedTo p hash t x.1) (sym e) k in
      let other : q ≢ p = λ e. ne (ap some e) in
      elim (sticky_way q c xs now s) [
        | untied w ↦ back _ w h
        | gone w ↦ back _ w (other_dropped q s other h)
        | hit h' k e r w ↦ back _ w (other_used q now s other h)
      ]

  by_strategy_ties :
      (strategy slug : String) (draw : ℕ) (n : Node) (ns : List Node) (s : ModelRouter)
      → TiedTo p hash t s
      → TiedTo p hash t (by_strategy strategy slug draw n ns s).1
  unfolding by_strategy
  by_strategy_ties strategy slug draw n ns s h = record {
    tie = ground (arith, h.tie);
    stamp = ground (arith, h.stamp);
    distinct = ground (arith, h.distinct);
  }

  other_stored :
      (q : Option String) (o : Option Node) (now : ℕ) (s : ModelRouter)
      → q ≢ some p
      → TiedTo p hash t s
      → TiedTo p hash t (store_affinity q o now s)
  unfolding store_affinity
  other_stored none o now s ne h = h
  other_stored (some q) none now s ne h = h
  other_stored (some q) (some n) now s ne h =
      let other : q ≢ p = λ e. ne (ap some e) in
      let used = other_used q now s other h in
      record {
        tie =
            ground
              (arith, Dict.get-put s.prefix_affinity q p n.node_hash, eq_iff q p, other, h.tie);
        stamp = used.stamp;
        distinct = used.distinct;
      }

  other_settled :
      (o : Option Node) (q : Option String) (strategy slug : String) (draw now : ℕ) (xs : List Node)
      (s : ModelRouter)
      → q ≢ some p
      → TiedTo p hash t s
      → TiedTo p hash t (settle o q strategy slug draw now xs s).1
  other_settled (some m) q strategy slug draw now xs s ne h = h
  other_settled none q strategy slug draw now [] s ne h = h
  other_settled none q strategy slug draw now (n ∷ ns) s ne h =
      let r = by_strategy strategy slug draw n ns s in
      other_stored q r.0 now r.1 ne (by_strategy_ties strategy slug draw n ns s h)

  nonempty_other : (q : Option String) → q ≢ some p → nonempty q ≢ some p
  nonempty_other none ne = ne
  nonempty_other (some q) ne = elim (Bool-cases (str_eq q "")) [
    | inl e ↦ λ h. absurd (ground (arith, h, e))
    | inr e ↦ rw e ne
  ]

  picked_keeps :
      (slug strategy : String) (q : Option String) (c : ℤ) (draw swept used tied : ℕ)
      (xs : List Node) (s : ModelRouter)
      → q ≢ some p
      → swept ≤ t + affinity_max_age
      → TiedTo p hash t s
      → TiedTo p hash t (select_from slug strategy q c draw swept used tied xs s).1
  unfolding select_from
  picked_keeps slug strategy q c draw swept used tied [] s ne le h = swept_ties swept s le h
  picked_keeps slug strategy q c draw swept used tied (n ∷ ns) s ne le h =
      let nodes = context_filter c (n ∷ ns) in
      let s0 = cleanup_affinity swept s in
      let other = nonempty_other q ne in
      let r = sticky (nonempty q) c nodes used s0 in
      other_settled r.0 (nonempty q) strategy slug draw tied nodes r.1 other
        (other_sticky (nonempty q) c nodes used s0 other (swept_ties swept s le h))

  -- Selections for other prefixes, or for none, keep the tie.
  selections_keep :
      (xs : List Selection) (s : ModelRouter)
      → All (λ x. (x.prefix ≢ some p) × (x.swept ≤ t + affinity_max_age)) xs
      → TiedTo p hash t s
      → TiedTo p hash t (after_selections xs s)
  unfolding after_selections selected
  selections_keep [] s ok h = h
  selections_keep (x ∷ xs) s ok h = selections_keep xs (selected x s).1 ok.1 (
      picked_keeps x.slug x.strategy x.prefix x.min_ctx x.draw x.swept x.used x.tied x.rows s ok.0.0
        ok.0.1 h)

-- A selection of another conversation, made within half an hour of both times.
pub record Elsewhere (p : String) (used tied : ℕ) (x : Selection) : Type 0 where
  pub other : x.prefix ≢ some p
  pub soon_used : x.swept ≤ used + affinity_max_age
  pub soon_tied : x.swept ≤ tied + affinity_max_age

-- A prefix keeps its node: if a request with a prefix hash selected the node m, and the selections
-- after it are for other prefixes or for none, any number of them, then within half an hour of the
-- first one a request with the same hash selects the node of m's hash, whatever its strategy and
-- whatever the loads have become, as long as that node is among the rows that pass the context filter
-- and its own context will do.
pub sticky_reuse :
    (x : Selection) (p : String) (s : ModelRouter) (m : Node) (between : List Selection)
    (slug strategy : String) (c : ℤ) (draw swept used tied : ℕ) (n : Node) (ns : List Node)
    (m' : Node)
    → Dict.Distinct s.affinity_ttl
    → p ≢ ""
    → x.prefix ≡ some p
    → (selected x s).0 ≡ some m
    → All (Elsewhere p x.used x.tied) between
    → swept ≤ x.used + affinity_max_age
    → swept ≤ x.tied + affinity_max_age
    → affinity_node c m.node_hash (context_filter c (n ∷ ns)) ≡ some m'
    → (m'.node_hash ≡ m.node_hash)
      × ((select_from slug strategy
            (some p)
            c
            draw
            swept
            used
            tied
            (n ∷ ns)
            (after_selections between (selected x s).1)).0
          ≡ some m')
unfolding selected
sticky_reuse x p s m between slug strategy c draw swept used tied n ns m' h ne e0 e far le le' a = (
  affinity_node-hash c m.node_hash (context_filter c (n ∷ ns)) m' a,
  let s1 = (selected x s).1 in
      let first : TiedSince p m.node_hash x.used x.tied s1 =
        subst
          (λ q.
            TiedSince p m.node_hash x.used x.tied
              (select_from x.slug x.strategy q x.min_ctx x.draw x.swept x.used x.tied x.rows s).1)
          (sym e0)
          (select_ties x.slug x.strategy p x.min_ctx x.draw x.swept x.used x.tied x.rows s m h ne' (
            subst
              (λ q.
                (select_from x.slug x.strategy q x.min_ctx x.draw x.swept x.used x.tied x.rows s).0
                ≡ some m)
              e0 e)) in
      elim first [
        | inl t ↦ again x.used le (
            selections_keep p m.node_hash x.used between s1
              (All-weaken (Elsewhere p x.used x.tied) _ between (λ y k. (k.other, k.soon_used)) far)
              t)
        | inr t ↦ again x.tied le' (
            selections_keep p m.node_hash x.tied between s1
              (All-weaken (Elsewhere p x.used x.tied) _ between (λ y k. (k.other, k.soon_tied)) far)
              t)
      ],
)
  where
    ne' : str_eq p "" ≡ false
    ne' = ground (arith, eq_iff p "", ne)

    again :
        (t : ℕ)
        → swept ≤ t + affinity_max_age
        → TiedTo p m.node_hash t (after_selections between (selected x s).1)
        → (select_from slug strategy
            (some p)
            c
            draw
            swept
            used
            tied
            (n ∷ ns)
            (after_selections between (selected x s).1)).0
          ≡ some m'
    again t soon k =
        tied_hit slug strategy p m.node_hash c draw swept used tied t n ns
          (after_selections between (selected x s).1) m' k ne' soon a
