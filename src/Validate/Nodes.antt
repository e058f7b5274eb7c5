-- ===== src/Validate/Nodes.antt =====
-- `validate_node_url` and `validate_node_registration` of common/request_validator.py.
use llama_net.Prelude.{
  ℕ, ◌+◌, ◌*◌, ◌/◌, Bool, true, false, not, ◌||◌, Option, none, some, List, [], ◌∷◌, String, count,
  str_eq, ltb, any, ◌==◌, if◌then◌else◌,
}
use Prim.Native.Nat.{◌^◌}
use llama_net.Prelude.Int.{ℤ, pos, ltb_ℤ}
use llama_net.Json
use llama_net.Json.{Value, int, str, Fields}
use llama_net.Validate.Checks.{Checked, passed, invalid, and_then, require}

-- An address as a number, of 32 or of 128 bits.
pub data Address : Type 0 where
  v4 v6 : ℕ → Address

-- A network: its address and how many addresses it has.
pub record Network : Type 0 where
  pub base : Address
  pub size : ℕ

-- `urlparse` and `ip_address` of the Python library, and `str.lower`.
pub record UrlParts : Type 0 where
  pub scheme : String
  pub hostname : Option String

pub record Library : Type 0 where
  pub urlparse : String → Option UrlParts
  pub ip_address : String → Option Address
  pub lower : String → String

abbrev quad : ℕ → ℕ → ℕ → ℕ → ℕ
quad a b c d = a * 16777216 + b * 65536 + c * 256 + d

abbrev pub blocked_hosts : List String
blocked_hosts =
    "169.254.169.254" ∷ "metadata.google.internal" ∷ "169.254.170.2" ∷ "fd00:ec2::254" ∷ []

-- `BLOCKED_CIDRS`
abbrev pub blocked_cidrs : List Network
blocked_cidrs =
    record { base = v4 (quad 10 0 0 0); size = 16777216 }
    ∷ record { base = v4 (quad 172 16 0 0); size = 1048576 }
    ∷ record { base = v4 (quad 192 168 0 0); size = 65536 }
    ∷ record { base = v4 (quad 127 0 0 0); size = 16777216 }
    ∷ record { base = v4 (quad 0 0 0 0); size = 16777216 }
    ∷ record { base = v4 (quad 169 254 0 0); size = 65536 }
    ∷ record { base = v6 1; size = 1 }
    ∷ record { base = v6 (252 * 2 ^ 120); size = 2 ^ 121 }
    ∷ record { base = v6 (1018 * 2 ^ 118); size = 2 ^ 118 }
    ∷ []

-- `addr in cidr`: addresses of the other version are in no network.
unfoldable pub in_network : Address → Network → Bool
in_network (v4 a) n = elim n.base [ v4 b ↦ a / n.size == b / n.size | v6 b ↦ false ]
in_network (v6 a) n = elim n.base [ v4 b ↦ false | v6 b ↦ a / n.size == b / n.size ]

-- Why a URL is refused, if it is.
pub data UrlVerdict : Type 0 where
  safe bad_format bad_scheme no_hostname blocked_hostname private_range : UrlVerdict

abbrev pub check_address : Option Address → UrlVerdict
check_address none = safe
check_address (some a) = if any (in_network a) blocked_cidrs then private_range else safe

abbrev pub check_hostname : Library → Option String → UrlVerdict
check_hostname l none = no_hostname
check_hostname l (some host) =
    if str_eq host ""
    then no_hostname
    else if any (str_eq (l.lower host)) blocked_hosts
    then blocked_hostname
    else check_address (l.ip_address host)

unfoldable pub validate_node_url : Library → String → UrlVerdict
unfolding in_network
validate_node_url l url = if str_eq url "" then safe else (elim (l.urlparse url) [
  | none ↦ bad_format
  | some parts ↦
      if str_eq parts.scheme "https" || str_eq parts.scheme "http"
      then check_hostname l parts.hostname
      else bad_scheme
])

-- A URL that is no text cannot be parsed.
abbrev pub url_verdict : Library → Value → UrlVerdict
url_verdict l (str url) = validate_node_url l url
url_verdict l _ = bad_format

abbrev pub is_safe : UrlVerdict → Bool
is_safe safe = true
is_safe _ = false

abbrev pub check_node_id : Value → Checked
check_node_id (str s) =
    if str_eq s ""
    then invalid 400 "node_id is required"
    else require (not (ltb 200 (count s))) "node_id too long"
check_node_id _ = invalid 400 "node_id is required"

abbrev pub check_model : Value → Checked
check_model (str s) = require (not (ltb 500 (count s))) "model name too long"
check_model _ = passed

unfoldable pub check_port : Option ℤ → Checked
check_port none = invalid 400 "invalid port"
check_port (some n) =
    if ltb_ℤ n (pos 1) || ltb_ℤ (pos 65535) n then invalid 400 "invalid port" else passed

-- `body.get("url", "") or body.get("tunnel_url", "")`
abbrev pub url_of : Fields → Value
url_of body =
    if Json.truthy (Json.get_or body "url" (str ""))
    then Json.get_or body "url" (str "")
    else Json.get_or body "tunnel_url" (str "")

unfoldable pub validate_node_registration : Library → Fields → Checked
unfolding validate_node_url check_port Json.get Json.truthy Json.as_int
validate_node_registration l body = and_then (check_node_id (Json.get_or body "node_id" (str ""))) (
    and_then (check_model (Json.get_or body "model" (str "unknown"))) (
      and_then
        (if Json.truthy (url_of body)
          then require (is_safe (url_verdict l (url_of body))) "node URL rejected"
          else passed)
        (check_port (Json.as_int (Json.get_or body "port" (int (pos 8000)))))))
