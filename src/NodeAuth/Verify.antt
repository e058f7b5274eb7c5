-- ===== src/NodeAuth/Verify.antt =====
-- `set_node_token` and `verify_node_request` of common/gateway_auth.py, over code points; the global
-- variable is an argument.
use llama_net.Prelude.{ℕ, Option, none, some, List, [], ◌∷◌, if◌then◌else◌}
use llama_net.Prelude.Codes.{is_prefix, drop, same_text, is_empty}
use llama_net.Prelude.Text.{codes}

pub data AuthVerdict : Type 0 where
  no_token_configured missing_header valid invalid_token : AuthVerdict

abbrev pub bearer : List ℕ
bearer = codes "Bearer "

unfoldable pub presented : List ℕ → List ℕ
unfolding is_prefix drop codes
presented header = if is_prefix bearer header then drop 7 header else header

abbrev pub set_node_token : List ℕ → Option (List ℕ) → Option (List ℕ)
set_node_token token stored = some token

unfoldable pub verify_node_request : Option (List ℕ) → List ℕ → AuthVerdict
unfolding presented same_text
verify_node_request none header = no_token_configured
verify_node_request (some []) header = no_token_configured
verify_node_request (some (c ∷ t)) header =
    if is_empty header
    then missing_header
    else if same_text (presented header) (c ∷ t)
    then valid
    else invalid_token
