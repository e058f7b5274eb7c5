-- ===== src/Gateway.antt =====
-- gateway/server.py: the handlers that let nodes in and out and pass requests on; gateway/auth.py.
pub mod Events
pub mod State
pub mod Publication
pub mod Publish
pub mod Departures
pub mod Admitted
pub mod Auth
pub mod Completions
pub mod Permitted
pub mod Beat
pub mod Changes
pub mod Heartbeat
pub mod Peers
pub mod Vetted
pub mod Registered
pub mod Urls
pub mod Joining
pub mod Steps
mod Tests
mod CallTests
