-- ===== src/MemTable/Order.antt =====
-- The snapshots of core/memtable.rs are sorted maps with the table's contents.
use apex_store.Base.{◌≡◌}
use apex_store.Base.Bytes.{Bytes, bytes_eq}
use apex_store.Base.Dict
use apex_store.Base.Sorted.{IsAscending, Unique, get-sort_by_key, sort_by_key-IsAscending}
use apex_store.MemTable.{MemTable, get, iter_ordered}

abbrev pub HasUniqueKeys : MemTable → Type 0
HasUniqueKeys m = Unique m.data_map

-- The ordered snapshot of a table with unique keys has its keys in strictly ascending order, and
-- a lookup in it finds what `get` finds in the table.
pub iter_ordered_snapshot :
    (m : MemTable)
    → HasUniqueKeys m
    → IsAscending (iter_ordered m) × ((k : Bytes) → Dict.get k (iter_ordered m) ≡ get k m)
unfolding iter_ordered get
iter_ordered_snapshot m u =
    (sort_by_key-IsAscending m.data_map u, λ k. get-sort_by_key k m.data_map)
