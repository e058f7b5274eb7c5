-- ===== src/NodeAuth/Issued.antt =====
-- From the gateway that issues a token to the node that asks for it.
use llama_net.Prelude.{
  ℕ, ◌≡◌, ◌≢◌, ◌↔◌, refl, ◌∙◌, ap, Bool, true, false, Option, none, some, List, [], ◌∷◌, ◌++◌,
  String, arith, Bool-cases, Option-cases, inl, inr, All, eq_iff,
}
use llama_net.Prelude.Codes.{is_prefix, same_text, drop, same_text_refl, same_text_lem}
use text.Mathlib.TextPositions.{eq_refl}
use llama_net.Prelude.Dict
use llama_net.Prelude.Dict.{Dict}
use llama_net.Prelude.Text.{codes}
use llama_net.NodeAuth.Tokens.{
  NodeTokens, update_row, generate_token, stored_token, get_token, revoke_token,
}
use llama_net.NodeAuth.Verify.{valid, bearer, presented, verify_node_request}

presented-bearer : (t : List ℕ) → presented (bearer ++ t) ≡ t
unfolding presented is_prefix drop codes
presented-bearer t = ground arith

pub found_after :
    (failing failing' : Bool) (hex : List ℕ) (hash : String) (s : NodeTokens)
    → (get_token failing' hash (generate_token failing hex hash s).1).0
      ≡ some (generate_token failing hex hash s).0
unfolding generate_token get_token codes
found_after failing failing' hex hash s =
    ground (arith, Dict.get-put s.cache hash hash (codes "lnn_" ++ hex), eq_refl hash)

-- A call of the manager, with whether the database fails and, for a token issued, the digits drawn.
pub data TokenCall : Type 0 where
  looked_up : Bool → String → TokenCall
  issued : Bool → List ℕ → String → TokenCall
  revoked : Bool → String → TokenCall

unfoldable pub after_call : TokenCall → NodeTokens → NodeTokens
unfolding get_token generate_token revoke_token
after_call (looked_up failing hash) s = (get_token failing hash s).1
after_call (issued failing hex hash) s = (generate_token failing hex hash s).1
after_call (revoked failing hash) s = revoke_token failing hash s

unfoldable pub after_calls : List TokenCall → NodeTokens → NodeTokens
unfolding after_call
after_calls [] s = s
after_calls (c ∷ cs) s = after_calls cs (after_call c s)

-- The call neither issues nor revokes a token for the node. It may look one up for it.
abbrev pub Spares : String → TokenCall → Type 0
Spares hash (looked_up failing h) = Unit
Spares hash (issued failing hex h) = h ≢ hash
Spares hash (revoked failing h) = h ≢ hash

looked_up_keeps :
    (failing : Bool) (h hash : String) (t : List ℕ) (s : NodeTokens)
    → Dict.get s.cache hash ≡ some t
    → Dict.get (get_token failing h s).1.cache hash ≡ some t
unfolding get_token
looked_up_keeps failing h hash t s e = elim (Option-cases (Dict.get s.cache h)) [
  | inr (u, q) ↦ ground (arith, q)
  | inl q ↦ elim (Option-cases (stored_token failing h s.rows)) [
    | inl r ↦ ground (arith, q, r)
    | inr (u, r) ↦ ground (arith, q, r, Dict.get-put s.cache h hash u, eq_iff h hash, eq_iff hash h)
  ]
]

call_keeps :
    (c : TokenCall) (hash : String) (t : List ℕ) (s : NodeTokens)
    → Spares hash c
    → Dict.get s.cache hash ≡ some t
    → Dict.get (after_call c s).cache hash ≡ some t
unfolding after_call generate_token revoke_token codes
call_keeps (looked_up failing h) hash t s sp e = looked_up_keeps failing h hash t s e
call_keeps (issued failing hex h) hash t s sp e =
    ground (arith, Dict.get-put s.cache h hash (codes "lnn_" ++ hex), eq_iff h hash, eq_iff hash h)
call_keeps (revoked failing h) hash t s sp e =
    ground (arith, Dict.get-pop s.cache h hash, eq_iff h hash, eq_iff hash h)

calls_keep :
    (cs : List TokenCall) (hash : String) (t : List ℕ) (s : NodeTokens)
    → All (Spares hash) cs
    → Dict.get s.cache hash ≡ some t
    → Dict.get (after_calls cs s).cache hash ≡ some t
unfolding after_calls
calls_keep [] hash t s h e = e
calls_keep (c ∷ cs) hash t s h e =
    calls_keep cs hash t (after_call c s) h.1 (call_keeps c hash t s h.0 e)

cached_after :
    (failing : Bool) (hex : List ℕ) (hash : String) (s : NodeTokens)
    → Dict.get (generate_token failing hex hash s).1.cache hash
      ≡ some (generate_token failing hex hash s).0
unfolding generate_token codes
cached_after failing hex hash s =
    ground (arith, Dict.get-put s.cache hash hash (codes "lnn_" ++ hex), eq_refl hash)

cached_found :
    (failing : Bool) (hash : String) (t : List ℕ) (s : NodeTokens)
    → Dict.get s.cache hash ≡ some t
    → (get_token failing hash s).0 ≡ some t
unfolding get_token
cached_found failing hash t s e = ground (arith, e)

bearer_accepted :
    (failing : Bool) (hex : List ℕ) (hash : String) (s : NodeTokens)
    → verify_node_request
        (some (generate_token failing hex hash s).0)
        (bearer ++ (generate_token failing hex hash s).0)
      ≡ valid
unfolding generate_token verify_node_request codes presented is_prefix drop
bearer_accepted failing hex hash s = ground (arith, same_text_refl (codes "lnn_" ++ hex))

-- A token that the gateway generates for a node is the one that it finds for it from then on: after
-- any calls of its token manager, lookups for this node and for others among them, that neither issue
-- nor revoke a token for this node, and whether or not the database fails at any of them. And a
-- request that carries it as a bearer token is valid for a node that has stored it.
pub generate_token_lem :
    (failing failing' : Bool) (hex : List ℕ) (hash : String) (cs : List TokenCall) (s : NodeTokens)
    → All (Spares hash) cs
    → ((get_token failing' hash (after_calls cs (generate_token failing hex hash s).1)).0
        ≡ some (generate_token failing hex hash s).0)
      × (verify_node_request
            (some (generate_token failing hex hash s).0)
            (bearer ++ (generate_token failing hex hash s).0)
          ≡ valid)
generate_token_lem failing failing' hex hash cs s h =
    let s' = (generate_token failing hex hash s).1 in
    let t = (generate_token failing hex hash s).0 in
    (
      cached_found failing' hash t (after_calls cs s')
          (calls_keep cs hash t s' h (cached_after failing hex hash s)),
      bearer_accepted failing hex hash s,
    )

-- A node that has stored a token accepts a request exactly if its header is not empty and is the token,
-- after "Bearer " or bare.
pub verify_node_request_lem :
    (c : ℕ) (t header : List ℕ)
    → (verify_node_request (some (c ∷ t)) header ≡ valid)
      ↔ (presented header ≡ c ∷ t) × (header ≢ [])
unfolding verify_node_request
verify_node_request_lem c t [] = (λ h. absurd (ground (arith, h)), λ h. absurd (h.1 refl))
verify_node_request_lem c t (d ∷ header) = (
  λ h. (
    same_text_lem (presented (d ∷ header)) (c ∷ t)
        (elim (Bool-cases (same_text (presented (d ∷ header)) (c ∷ t))) [
          | inl e ↦ e
          | inr e ↦ absurd (ground (arith, h, e))
        ]),
    λ e. absurd (ground (arith, e)),
  ),
  λ h.
      let e : same_text (presented (d ∷ header)) (c ∷ t) ≡ true =
        ap (λ s. same_text s (c ∷ t)) h.0 ∙ same_text_refl (c ∷ t) in
      ground (arith, e),
)

cleared :
    (failing : Bool) (hash : String) (rows : Option (Dict (Option (List ℕ))))
    → stored_token failing hash (update_row false hash none rows) ≡ none
unfolding stored_token update_row
cleared true hash rows = refl
cleared false hash none = refl
cleared false hash (some rows) = elim (Option-cases (Dict.get rows hash)) [
  | inl q ↦ ground (arith, q)
  | inr (x, q) ↦ ground (arith, q, Dict.get-put rows hash hash none, eq_refl hash)
]

-- A token that is revoked while the database answers is not found again, whether or not the database
-- fails later.
pub revoke_token_lem :
    (failing : Bool) (hash : String) (s : NodeTokens)
    → (get_token failing hash (revoke_token false hash s)).0 ≡ none
unfolding get_token revoke_token
revoke_token_lem failing hash s =
    ground (arith, Dict.get-pop s.cache hash hash, eq_refl hash, cleared failing hash s.rows)
