-- ===== src/Posix.antt =====
-- runtime/posix/: the descriptor table, the system calls and the library around them
pub mod Fd
pub mod Sys
pub mod Calls
pub mod Clock
