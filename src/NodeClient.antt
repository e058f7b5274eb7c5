-- ===== src/NodeClient.antt =====
-- inference_node/gateway_client.py: `GatewayClient`, with which a node keeps itself known to the gateway
pub mod State
pub mod Register
pub mod Heartbeat
pub mod Peers
pub mod Rejected
mod Tests
