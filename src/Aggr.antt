-- ===== src/Aggr.antt =====
-- qop/aggr_functions/: the aggregate functions, each with init(), iterate(data, outdated) and
-- value(). A fault (`none`) is undefined behaviour or a failed assertion.
pub mod Sums
pub mod Counters
pub mod MinMax
pub mod Median
pub mod Operator
pub mod Grouped
pub mod Recent
pub mod Distinct
pub mod Examples
