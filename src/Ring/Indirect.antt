-- ===== src/Ring/Indirect.antt =====
-- `handleIndirect` (BlkBackend.cpp): the segments that an indirect request names, and what its two
-- loops do with them.
pub mod Pages
pub mod Page
pub mod Rounds
pub mod Requests
pub mod Handler
