-- ===== src/Index.antt =====
-- snapdb/index.py: hash indexes, their collection, and range indexes. The rows that an index names
-- are their numbers in the table.
pub mod RowSet
pub mod Hash
pub mod Multi
pub mod Range
