-- ===== src/Database.antt =====
-- gateway/supabase_client.py: `SupabaseManager`, over tables that are part of the state.
pub mod State
pub mod Calls
pub mod Tokens
pub mod Models
pub mod Nodes
pub mod Register
pub mod Keys
pub mod Usage
pub mod Revoked
pub mod Urls
pub mod Moving
pub mod Routing
pub mod Ledger
pub mod Effects
pub mod Totals
mod Tests
