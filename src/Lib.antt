-- ===== src/Lib.antt =====
-- A verification library for snapdb, an embedded database in Python: rows of fixed width in a mapped
-- file, indexes in memory, transactions with a write-ahead log, and a query planner.
--
-- The parts, and the files that model them:
--   Prelude, Result: shared names, dicts as association lists (Dict), exceptions as values.
--   Value, Utf8, Bytes: the values of a row, with `_norm_value` of snapdb/_util.py and the comparisons;
--     text as code points with its encoding; byte strings and little-endian numbers.
--   Schema, Schema/Codec: `ColumnDef` and `Schema` of snapdb/core.py, `encode_row` and `decode_row`.
--   Slab: `Slab` of snapdb/core.py over a file that is a list of bytes, which the slabs of a database
--     share and a writing method returns: `insert`, `update`, `delete`, `get`, `iter_rows`, the zone map.
--   Index: `HashIndex`, `MultiIndex` and `RangeIndex` of snapdb/index.py.
--   Json, Wal: `WAL` of snapdb/wal.py. Json has `_encode` and `_decode` of the dicts that it logs; a
--     line of the file stands for the JSON text of an encoded dict.
--   Db: `SnapDB` of snapdb/core.py in row storage. Db/Crud has `insert`, `update`, `delete` and
--     `batch_update` with the calls that they make, Db/Unique the unique constraints, Db/Grow the new
--     slabs, Db/Search and Db/Ranges the searches and `join`, Db/Tx transactions and their roll back,
--     Db/File the header, the bitmaps and `_load`, Db/Recover `_recover_wal`.
--   Query: snapdb/query.py. Query/Plan is the planner, Query/Execute the class `Query`.
--   Columnar: snapdb/columnar.py. Columnar/Ints has the integer columns of `Column`, in delta mode
--     (Ints/Delta), in packing mode (Ints/Packing) and plain, with their aggregates (Ints/Aggregate),
--     Columnar/Bools the bit sets, Columnar/Texts the bytes columns with their dictionary,
--     Columnar/Column the columns of any type, Columnar/Table `ColumnarTable`. A column is related to
--     the list that it stands for (Ints/Refine, Bools/Refine, Texts/View), and the table uses only the
--     laws of Columnar/Column/Steps.
--   Tests: the theorems at concrete inputs.
-- A method that changes its object takes the state and returns the new one, beside what it returns or
-- raises; Db/Exec composes such actions. Loops are structural recursion. Only the bit operations of
-- Columnar/Bits count rounds: a round halves its numbers, and as many rounds are given as the numbers
-- are large, which is enough.
--
-- Integers are unbounded, as in Python, and a column's range is checked where the row is packed.
-- Booleans are the integers 0 and 1, which they equal. The cipher of an encrypted slab is a parameter
-- that undoes itself and keeps lengths. A comparison of values of two types, which raises in Python,
-- has an order here, so statements about ranges speak of columns of one type.
--
-- Not modelled: floats, batch insertion into slabs, compaction, snapshots and backups, file locks and
-- metrics, sorted query results, the NumPy paths and conditions of the columnar engine, its aggregates
-- with a predicate, its compaction, the document store and the vector index.
pub mod Prelude
pub mod Result
pub mod Utf8
pub mod Bytes
pub mod Value
pub mod Schema
pub mod Index
pub mod Slab
pub mod Json
pub mod Wal
pub mod Db
pub mod Columnar
pub mod Query
pub mod Tests
