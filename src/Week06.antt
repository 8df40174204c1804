-- ===== src/Week06.antt =====
-- The node of week06, which speaks JSON.
pub mod Machine
pub mod Vector
pub mod Hashmap
pub mod Refcounter
pub mod Known
pub mod Logging
pub mod Main
pub mod Json
pub mod Bootstrap
pub mod Control
pub mod EventLoop
pub mod Requests
pub mod FileTransfer
pub mod Server
pub mod Listening
pub mod Pings
pub mod Files
pub mod Handlers
pub mod Serializers
