-- ===== src/LookupTable.antt =====
-- UtilitiesInfra/shared_lookup_table.hpp: the two lookup tables, the operations that they share,
-- and the mutex in front of them.
pub mod Hash
pub mod Sorted
pub mod Operations
