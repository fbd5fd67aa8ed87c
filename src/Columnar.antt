-- ===== src/Columnar.antt =====
-- The columnar engine, snapdb/columnar.py.
pub mod Bits
pub mod Nulls
pub mod Ints
pub mod Bools
pub mod Texts
pub mod Column
pub mod Table
