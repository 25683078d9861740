-- ===== src/Db.antt =====
-- The database behind the collector's handlers: keyed tables, and handlers as programs over a
-- shared store.
pub mod Table
pub mod Prog
