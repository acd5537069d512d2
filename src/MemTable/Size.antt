-- ===== src/MemTable/Size.antt =====
-- The byte count of core/memtable.rs is the sum over the records that the table holds.
use apex_store.Base.{ℕ, ◌+◌, ◌≤◌, ◌≡◌, Option, none, some, [], ◌∷◌, arith}
use apex_store.Base.Bytes.{Bytes, bytes_eq}
use apex_store.Base.Dict
use apex_store.Base.Dict.{Dict}
use apex_store.Record.{LogRecord}
use apex_store.MemTable.{MemTable, usize_max, insert, estimate_size}

-- The estimated sizes of all records.
unfoldable pub total : Dict Bytes LogRecord → ℕ
total [] = 0
total ((k, r) ∷ m) = estimate_size r + total m

abbrev size_of : Option LogRecord → ℕ
size_of none = 0
size_of (some r) = estimate_size r

total-insert :
    (k : Bytes) (r : LogRecord) (m : Dict Bytes LogRecord)
    → total (Dict.insert k r m) + size_of (Dict.get k m) ≡ total m + estimate_size r
unfolding total Dict.insert Dict.get
total-insert k r [] = omega arith
total-insert k r ((j, s) ∷ m) = ground (arith, total-insert k r m)

size_of-le-total : (k : Bytes) (m : Dict Bytes LogRecord) → size_of (Dict.get k m) ≤ total m
unfolding total Dict.get
size_of-le-total k [] = omega arith
size_of-le-total k ((j, s) ∷ m) = ground (arith, size_of-le-total k m)

abbrev pub IsAccounted : MemTable → Type 0
IsAccounted m = m.size_bytes ≡ total m.data_map

-- Where the byte count is the sum of the records' estimated sizes, inserting a record keeps it so, a
-- record that replaces an older one included, as long as the count stays within `usize`.
pub insert-IsAccounted :
    (r : LogRecord) (m : MemTable)
    → IsAccounted m
    → m.size_bytes + estimate_size r ≤ usize_max
    → IsAccounted (insert r m)
unfolding insert
insert-IsAccounted r m h fits =
    ground (arith, total-insert r.key r m.data_map, size_of-le-total r.key m.data_map)
