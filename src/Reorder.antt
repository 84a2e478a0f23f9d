-- ===== src/Reorder.antt =====
-- unisocwifi/reorder.c: reordering of received frames under block acknowledgement.
pub mod Types
pub mod Buffer
pub mod Process
pub mod Account
pub mod Conserve
pub mod Loops
pub mod Window
pub mod Table
pub mod Timeout
pub mod Accept
pub mod Receive
pub mod Lookup
pub mod Events
pub mod Close
pub mod Remove
pub mod Start
pub mod Join
pub mod Recover
pub mod Marks
pub mod Dispatch
pub mod Filtered
pub mod Replay
pub mod Deinit
mod Tests
