-- ===== src/User.antt =====
-- The user library of user/libc.
pub mod Heap
