-- ===== src/Collections.antt =====
-- The standard library's `HashSet` and `HashMap`, as far as the program uses them.
pub mod Set
pub mod Map
pub mod Sort
pub mod Distinct
pub mod Slab
