-- ===== src/Join.antt =====
-- The symmetric hash join of qop/SHJoin.hpp and what it shares with qop/ScaleJoin.hpp. The hash
-- tables (std::unordered_multimap) are lists of entries; the standard leaves the order of equal
-- keys open, and the theorems count results, whatever their order.
pub mod Table
pub mod Reference
pub mod Symmetric
pub mod Scale
pub mod Examples
