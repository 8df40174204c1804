-- ===== src/Week01.antt =====
-- week01/ex1.c: a stack of integers that a child process keeps for its parent.
pub mod Stack
pub mod Shell
