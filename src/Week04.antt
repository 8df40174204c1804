-- ===== src/Week04.antt =====
-- week04: a TCP server that greets students, and its client; week05 has the same messages over UDP.
pub mod Message
pub mod Session
