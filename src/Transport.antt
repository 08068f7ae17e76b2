-- ===== src/Transport.antt =====
-- rekuest/agents/transport/websocket.py: the outbound queue, the retry policy, the connection loop and
-- the inbound queue.
pub mod Channel
pub mod Policy
pub mod Loop
pub mod Inbound
pub mod Closing
mod Examples
