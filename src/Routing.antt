-- ===== src/Routing.antt =====
-- qop/Queue.hpp and qop/PartitionBy.hpp: between the threads of producers and consumers.
pub mod Queue
pub mod Partition
pub mod Tests
