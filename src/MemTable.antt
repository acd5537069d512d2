-- ===== src/MemTable.antt =====
-- core/memtable.rs: the write buffer. `DashMap` is a dictionary; sizes are `usize` with the
-- source's saturating arithmetic.
pub mod Size
pub mod Order
pub mod Cover
use apex_store.Base.{
  ℕ, ◌+◌, ◌-◌, ◌^◌, min, max, ◌≡◌, Bool, true, false, Option, none, some, List, [], ◌∷◌, ◌++◌, leb,
  length, keep,
}
use apex_store.Base.Bytes.{Bytes, bytes_le, bytes_eq}
use apex_store.Base.Dict
use apex_store.Base.Dict.{Dict}
use apex_store.Base.Sorted.{sort_by_key}
use apex_store.Record
use apex_store.Record.{LogRecord, RangeTombstone, covers, is_some}

abbrev pub usize_max : ℕ
usize_max = 2 ^ 64 - 1

pub record MemTable : Type 0 where
  pub data_map : Dict Bytes LogRecord
  pub size_bytes : ℕ
  pub max_size_bytes : ℕ
  pub range_tombstones : List RangeTombstone

unfoldable pub new : ℕ → MemTable
new limit = record { data_map = []; size_bytes = 0; max_size_bytes = limit; range_tombstones = [] }

unfoldable pub new_unlimited : MemTable
unfolding new
new_unlimited = new 0

unfoldable pub estimate_size : LogRecord → ℕ
estimate_size r = length r.key + length r.value + 51

-- The size after `saturating_sub` of what the insertion replaced.
unfoldable pub without_old : ℕ → Option LogRecord → ℕ
unfolding estimate_size
without_old size none = size
without_old size (some old) = size - estimate_size old

unfoldable pub insert : LogRecord → MemTable → MemTable
unfolding without_old
insert r m = record m {
  data_map = Dict.insert r.key r m.data_map;
  size_bytes =
      min (without_old m.size_bytes (Dict.get r.key m.data_map) + estimate_size r) usize_max;
}

unfoldable pub put : ℕ → Bytes → Bytes → MemTable → MemTable
unfolding insert Record.new
put now k v m = insert (Record.new now k v) m

unfoldable pub delete : ℕ → Bytes → MemTable → MemTable
unfolding insert Record.tombstone
delete now k m = insert (Record.tombstone now k) m

unfoldable pub should_flush : MemTable → Bool
should_flush m = leb m.max_size_bytes m.size_bytes

unfoldable pub get : Bytes → MemTable → Option LogRecord
get k m = Dict.get k m.data_map

unfoldable pub iter_ordered : MemTable → Dict Bytes LogRecord
iter_ordered m = sort_by_key m.data_map

-- `filter(|e| e.key() >= start_key)`, then the sort.
unfoldable pub iter_from : Bytes → MemTable → Dict Bytes LogRecord
iter_from start m = sort_by_key (keep (λ p. bytes_le start p.0) (λ p. p) m.data_map)

unfoldable pub add_range_tombstone : RangeTombstone → MemTable → MemTable
add_range_tombstone t m = record m { range_tombstones = m.range_tombstones ++ t ∷ [] }

-- `Iterator::max` of timestamps.
unfoldable pub maximum : List ℕ → Option ℕ
maximum [] = none
maximum (t ∷ ts) = elim (maximum ts) [ none ↦ some t | some u ↦ some (max t u) ]

-- The filter, the map and the maximum that the memtable and the engine both write out.
unfoldable pub newest_covering : Bytes → List RangeTombstone → Option ℕ
unfolding maximum
newest_covering key ts = maximum (keep (λ t. covers t key) (λ t. t.timestamp) ts)

unfoldable pub max_covering_range_tombstone : Bytes → MemTable → Option ℕ
unfolding newest_covering
max_covering_range_tombstone key m = newest_covering key m.range_tombstones

unfoldable pub contains_range_tombstone : Bytes → MemTable → Bool
unfolding max_covering_range_tombstone
contains_range_tombstone key m = is_some (max_covering_range_tombstone key m)

-- Returns the number of records dropped.
unfoldable pub clear : MemTable → ℕ × MemTable
clear m = (length m.data_map, record m { data_map = []; range_tombstones = []; size_bytes = 0 })
