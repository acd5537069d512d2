-- ===== src/Merge.antt =====
-- core/iterators.rs: `MergeIterator`, which walks several sorted iterators in key order and takes
-- the version of the iterator with the lowest index where keys agree.
-- A sub-iterator (`MemTableIterator` of storage/iterator.rs, `TableIterator` of core/table.rs) is
-- the list of the pairs that it has not passed yet; `next` drops the first. Only valid iterators
-- stand in the heap, so an entry has its current pair apart. `BinaryHeap` is a list whose `pop`
-- takes a greatest entry by the `Ord` of `HeapEntry`.
pub mod Find
pub mod Heap
pub mod Skip
pub mod Collect
use apex_store.Base.{
  ℕ, zero, suc, ◌+◌, ◌≡◌, Bool, true, false, Option, none, some, List, [], ◌∷◌, ltb, length,
  if◌then◌else◌, ◌==◌, ◌&&◌, ◌||◌,
}
use apex_store.Base.Bytes.{Bytes, bytes_lt, bytes_eq}
use apex_store.Base.Dict.{Dict}

-- `HeapEntry` over a valid iterator.
pub record Entry {ℓ} (V : Type ℓ) : Type ℓ where
  pub index : ℕ
  pub key : Bytes
  pub item : V
  pub rest : Dict Bytes V

module _ {ℓ} {V : Type ℓ} where
  -- An iterator with its index, if it is valid.
  unfoldable pub entry_of : ℕ → Dict Bytes V → Option (Entry V)
  entry_of i [] = none
  entry_of i ((k, v) ∷ rest) = some (record { index = i; key = k; item = v; rest = rest })

  -- `entry.iter.next()`, and whether it is still valid.
  unfoldable pub advance : Entry V → Option (Entry V)
  unfolding entry_of
  advance e = entry_of e.index e.rest

  -- `Ord for HeapEntry`: the smaller key is the greater entry, then the smaller index.
  unfoldable pub before : Entry V → Entry V → Bool
  before a b = bytes_lt a.key b.key || (a.key == b.key && ltb a.index b.index)

  abbrev pub push : Option (Entry V) → List (Entry V) → List (Entry V)
  push none heap = heap
  push (some e) heap = e ∷ heap

  unfoldable pub choose :
      Entry V → List (Entry V) → Option (Entry V × List (Entry V)) → Entry V × List (Entry V)
  unfolding before
  choose e heap none = (e, heap)
  choose e heap (some (f, others)) = if before e f then (e, heap) else (f, e ∷ others)

  unfoldable pub pop : List (Entry V) → Option (Entry V × List (Entry V))
  unfolding choose
  pop [] = none
  pop (e ∷ heap) = some (choose e heap (pop heap))

  -- `MergeIterator::new` pushes the valid iterators; `current_key` is none, so nothing is skipped.
  unfoldable pub heap_of : ℕ → List (Dict Bytes V) → List (Entry V)
  unfolding entry_of
  heap_of i [] = []
  heap_of i (l ∷ ls) = push (entry_of i l) (heap_of (suc i) ls)

  -- How often entries can still be advanced.
  unfoldable pub steps_left : List (Entry V) → ℕ
  steps_left [] = 0
  steps_left (e ∷ heap) = suc (length e.rest) + steps_left heap

  -- `skip_duplicates` after `current_key` was set to `cur`.
  unfoldable pub skip_duplicates : ℕ → Bytes → List (Entry V) → List (Entry V)
  skip_duplicates zero cur heap = heap
  skip_duplicates (suc fuel) cur heap = elim (pop heap) [
    | none ↦ heap
    | some (e, others) ↦ elim (e.key == cur) [
      | true ↦ skip_duplicates fuel cur (push (advance e) others)
      | false ↦ heap
    ]
  ]

  -- `next`, where the heap was just popped.
  unfoldable pub next_after : Entry V → List (Entry V) → List (Entry V)
  unfolding skip_duplicates advance steps_left
  next_after e others =
      let heap = push (advance e) others in skip_duplicates (steps_left heap) e.key heap

  -- `while merged.is_valid() { … merged.key(), merged.record() …; merged.next() }`
  unfoldable pub collect : ℕ → List (Entry V) → Dict Bytes V
  unfolding next_after pop
  collect zero heap = []
  collect (suc fuel) heap = elim (pop heap) [
    | none ↦ []
    | some (e, others) ↦ (e.key, e.item) ∷ collect fuel (next_after e others)
  ]

  -- All that a merge of the iterators, newest first, hands out.
  unfoldable pub merged : List (Dict Bytes V) → Dict Bytes V
  unfolding collect heap_of steps_left
  merged ls = let heap = heap_of 0 ls in collect (steps_left heap) heap
