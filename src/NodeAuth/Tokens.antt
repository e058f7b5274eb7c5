-- ===== src/NodeAuth/Tokens.antt =====
-- `NodeTokenManager` of common/gateway_auth.py. Tokens are lists of code points. A call of the database
-- may fail, which the source passes over: whether it does is an argument.
use llama_net.Prelude.{
  ℕ, Bool, true, false, Option, none, some, List, ◌∷◌, ◌++◌, String, if◌then◌else◌,
}
use llama_net.Prelude.Dict
use llama_net.Prelude.Dict.{Dict}
use llama_net.Prelude.Text.{codes}

-- The cache, and the column `node_token` of the table of nodes, where there is a database.
pub record NodeTokens : Type 0 where
  pub cache : Dict (List ℕ)
  pub rows : Option (Dict (Option (List ℕ)))

-- `update({"node_token": …}).eq("node_hash", …)`: a node without a row stays without.
unfoldable pub update_row :
    Bool
    → String
    → Option (List ℕ)
    → Option (Dict (Option (List ℕ)))
    → Option (Dict (Option (List ℕ)))
update_row failing hash token none = none
update_row failing hash token (some rows) =
    if failing
    then some rows
    else if Dict.has rows hash
    then some (Dict.put rows hash token)
    else some rows

-- `f"lnn_{secrets.token_hex(24)}"`, from the hexadecimal digits drawn.
unfoldable pub generate_token : Bool → List ℕ → String → NodeTokens → List ℕ × NodeTokens
unfolding update_row codes
generate_token failing hex hash s =
    let token = codes "lnn_" ++ hex in
    (
      token,
      record {
        cache = Dict.put s.cache hash token;
        rows = update_row failing hash (some token) s.rows;
      },
    )

-- The token in the row of the node, if there is one that is not empty.
abbrev pub nonempty_token : Option (List ℕ) → Option (List ℕ)
nonempty_token (some (c ∷ t)) = some (c ∷ t)
nonempty_token _ = none

unfoldable pub stored_token : Bool → String → Option (Dict (Option (List ℕ))) → Option (List ℕ)
stored_token true hash rows = none
stored_token false hash none = none
stored_token false hash (some rows) = elim (Dict.get rows hash) [
  | none ↦ none
  | some t ↦ nonempty_token t
]

abbrev pub fetched : String → NodeTokens → Option (List ℕ) → Option (List ℕ) × NodeTokens
fetched hash s none = (none, s)
fetched hash s (some t) = (some t, record s { cache = Dict.put s.cache hash t })

unfoldable pub get_token : Bool → String → NodeTokens → Option (List ℕ) × NodeTokens
unfolding stored_token
get_token failing hash s = elim (Dict.get s.cache hash) [
  | some t ↦ (some t, s)
  | none ↦ fetched hash s (stored_token failing hash s.rows)
]

unfoldable pub revoke_token : Bool → String → NodeTokens → NodeTokens
unfolding update_row
revoke_token failing hash s = record {
  cache = Dict.pop s.cache hash;
  rows = update_row failing hash none s.rows;
}
