-- ===== src/Tx.antt =====
-- table/MVCCTable.hpp, table/BOCCTable.hpp, table/S2PLTable.hpp and table/StateContext.hpp: the three
-- concurrency controls of the tables, and the active transactions.
pub mod WriteSet
pub mod Validation
pub mod Context
pub mod Commit
pub mod Locking
pub mod Version
