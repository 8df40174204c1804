-- ===== src/Week05.antt =====
-- week05: the greeting of students over UDP, by workers that share a socket.
pub mod Worker
