-- ===== src/NodeAuth/Tests.antt =====
-- A token's way, and the theorems at it.
use llama_net.Prelude.{
  ◌≡◌, ◌≢◌, List, String, arith, eq_iff, refl, true, false, none, some, [], ◌∷◌, ◌++◌,
}
use llama_net.Prelude.Dict
use llama_net.Prelude.Text.{codes}
use llama_net.NodeAuth.Tokens.{NodeTokens, generate_token, get_token, revoke_token}
use llama_net.NodeAuth.Verify.{valid, bearer, verify_node_request}
use llama_net.NodeAuth.Issued.{
  TokenCall, looked_up, issued, revoked, after_calls, generate_token_lem, revoke_token_lem,
}

abbrev tokens : NodeTokens
tokens = record { cache = []; rows = some (("n1", none) ∷ []) }

-- A lookup, a token for another node, and the end of that one.
abbrev later_calls : List TokenCall
later_calls = looked_up false "n1" ∷ issued true (codes "aa") "n2" ∷ revoked false "n2" ∷ []

other_node : ◌≢◌ {A = String} "n2" "n1"
other_node e = absurd (ground (arith, eq_iff "n2" "n1", e))

generate_token_lem_example :
    ((get_token true "n1"
        (after_calls later_calls (generate_token false (codes "00ff") "n1" tokens).1)).0
      ≡ some (generate_token false (codes "00ff") "n1" tokens).0)
    × (verify_node_request
          (some (generate_token false (codes "00ff") "n1" tokens).0)
          (bearer ++ (generate_token false (codes "00ff") "n1" tokens).0)
        ≡ valid)
generate_token_lem_example =
    generate_token_lem false true (codes "00ff") "n1" later_calls tokens
      (tt, (other_node, (other_node, tt)))

-- If the database fails at the revocation, the row keeps the token, and it is found again.
abbrev kept_row : NodeTokens
kept_row = record { cache = ("n1", 108 ∷ []) ∷ []; rows = some (("n1", some (108 ∷ [])) ∷ []) }

comes_back : (get_token false "n1" (revoke_token true "n1" kept_row)).0 ≡ some (108 ∷ [])
unfolding get_token revoke_token Dict.get Dict.pop
comes_back = refl

revoke_token_lem_example : (get_token false "n1" (revoke_token false "n1" kept_row)).0 ≡ none
revoke_token_lem_example = revoke_token_lem false "n1" kept_row
