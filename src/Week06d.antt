-- ===== src/Week06d.antt =====
-- The node of week06d, which speaks a binary protocol.
pub mod Node
pub mod Directory
pub mod Wire
pub mod Handlers
pub mod Bootstrap
pub mod EventLoop
pub mod Main
pub mod Pings
pub mod Server
pub mod Requests
pub mod Start
