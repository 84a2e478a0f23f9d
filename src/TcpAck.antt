-- ===== src/TcpAck.antt =====
-- unisocwifi/tcp_ack.c: TCP acknowledgements that are sent are held back and merged.
pub mod Types
pub mod Parse
pub mod Slots
pub mod Handle
pub mod Filter
pub mod Kept
pub mod Send
pub mod Events
pub mod Tune
mod Tests
