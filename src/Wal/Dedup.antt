-- ===== src/Wal/Dedup.antt =====
-- `deduplicate_records` of storage/wal.rs. The indices it collects, the range tombstones' and the
-- last occurrences', once sorted are the positions that `is_kept` accepts, in file order.
use apex_store.Base.{
  ℕ, suc, String, Bool, false, ◌||◌, Option, none, some, List, [], ◌∷◌, if◌then◌else◌, ◌==◌, nat_eq,
  string_eq, pair_eq,
}
use apex_store.Base.Bytes.{Bytes, bytes_eq}
use apex_store.Base.Dict
use apex_store.Base.Dict.{Dict}
use apex_store.Record.{LogRecord, is_range_tombstone}
use apex_store.Engine.Replay.{family_of}

abbrev pub Slot : Type 0
Slot = String × Bytes

abbrev pub slot_of : LogRecord → Slot
slot_of r = (family_of r, r.key)

-- The map after the loop, whose next index is `i`.
unfoldable pub last_occurrence : ℕ → List LogRecord → Dict Slot ℕ → Dict Slot ℕ
unfolding is_range_tombstone
last_occurrence i [] d = d
last_occurrence i (r ∷ rs) d =
    last_occurrence (suc i) rs (if is_range_tombstone r then d else Dict.insert (slot_of r) i d)

abbrev pub is_at : ℕ → Option ℕ → Bool
is_at i none = false
is_at i (some j) = i == j

unfoldable pub is_kept : Dict Slot ℕ → ℕ → LogRecord → Bool
unfolding is_range_tombstone
is_kept last i r = is_range_tombstone r || is_at i (Dict.get (slot_of r) last)

unfoldable pub kept : Dict Slot ℕ → ℕ → List LogRecord → List LogRecord
unfolding is_kept
kept last i [] = []
kept last i (r ∷ rs) =
    let later = kept last (suc i) rs in if is_kept last i r then r ∷ later else later

unfoldable pub deduplicate_records : List LogRecord → List LogRecord
unfolding last_occurrence kept
deduplicate_records records = kept (last_occurrence 0 records []) 0 records
