-- ===== src/Validate/Hosts.antt =====
-- Which hosts the validator lets a node name.
use llama_net.Prelude.{ℕ, ◌+◌, ◌*◌, ◌≤◌, ◌<◌, ◌≡◌, ◌⊎◌, false, some, String, str_eq, any}
use llama_net.Validate.Nodes.{v4, Library, blocked_hosts}

-- Outside 0/8, 10/8, 127/8, 169.254/16, 172.16/12 and 192.168/16.
pub record Public (a : ℕ) : Type 0 where
  pub not_this_network : 1 * 16777216 ≤ a
  pub not_ten : (a < 10 * 16777216) ⊎ (11 * 16777216 ≤ a)
  pub not_loopback : (a < 127 * 16777216) ⊎ (128 * 16777216 ≤ a)
  pub not_link_local : (a < 169 * 16777216 + 254 * 65536) ⊎ (169 * 16777216 + 255 * 65536 ≤ a)
  pub not_one_seven_two : (a < 172 * 16777216 + 16 * 65536) ⊎ (172 * 16777216 + 32 * 65536 ≤ a)
  pub not_one_nine_two : (a < 192 * 16777216 + 168 * 65536) ⊎ (192 * 16777216 + 169 * 65536 ≤ a)

pub record SafeHost (l : Library) (host : String) : Type 0 where
  pub allowed_v4 : (a : ℕ) → l.ip_address host ≡ some (v4 a) → Public a
  pub not_blocked : any (str_eq (l.lower host)) blocked_hosts ≡ false
