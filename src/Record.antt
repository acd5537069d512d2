-- ===== src/Record.antt =====
-- core/log_record.rs: the records of the log and of the memtables, and range tombstones.
-- `SystemTime::now()` is an argument, the time in nanoseconds.
use apex_store.Base.{
  ℕ, ◌+◌, ◌-◌, ◌^◌, min, String, Bool, true, false, ◌&&◌, Option, none, some, [], leb,
}
use apex_store.Base.Bytes.{Bytes, bytes_lt, bytes_le}

abbrev pub u128_max : ℕ
u128_max = 2 ^ 128 - 1

pub record LogRecord : Type 0 where
  pub key : Bytes
  pub value : Bytes
  pub timestamp : ℕ
  pub is_deleted : Bool
  pub column_family : Option String
  pub expires_at : Option ℕ
  pub range_start : Option Bytes
  pub range_end : Option Bytes

unfoldable pub new : ℕ → Bytes → Bytes → LogRecord
new now k v = record {
  key = k;
  value = v;
  timestamp = now;
  is_deleted = false;
  column_family = none;
  expires_at = none;
  range_start = none;
  range_end = none;
}

unfoldable pub tombstone : ℕ → Bytes → LogRecord
tombstone now k = record {
  key = k;
  value = [];
  timestamp = now;
  is_deleted = true;
  column_family = none;
  expires_at = none;
  range_start = none;
  range_end = none;
}

-- `now.saturating_add(ttl)`
unfoldable pub deadline : ℕ → ℕ → ℕ
deadline now ttl = min (now + ttl) u128_max

unfoldable pub new_with_ttl : ℕ → Bytes → Bytes → ℕ → LogRecord
unfolding deadline
new_with_ttl now k v ttl = record {
  key = k;
  value = v;
  timestamp = now;
  is_deleted = false;
  column_family = none;
  expires_at = some (deadline now ttl);
  range_start = none;
  range_end = none;
}

unfoldable pub is_expired_at : LogRecord → ℕ → Bool
is_expired_at r now = elim r.expires_at [ none ↦ false | some e ↦ leb e now ]

unfoldable pub range_tombstone : ℕ → Bytes → Bytes → LogRecord
range_tombstone now start stop = record {
  key = start;
  value = [];
  timestamp = now;
  is_deleted = true;
  column_family = none;
  expires_at = none;
  range_start = some start;
  range_end = some stop;
}

abbrev pub is_some {ℓ} : {A : Type ℓ} → Option A → Bool
is_some none = false
is_some (some a) = true

unfoldable pub is_range_tombstone : LogRecord → Bool
is_range_tombstone r = is_some r.range_start && is_some r.range_end

pub record RangeTombstone : Type 0 where
  pub start_key : Bytes
  pub end_key : Bytes
  pub timestamp : ℕ

unfoldable pub covers : RangeTombstone → Bytes → Bool
covers t key = bytes_le t.start_key key && bytes_lt key t.end_key
