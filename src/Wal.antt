-- ===== src/Wal.antt =====
-- storage/wal.rs: the log file's bytes and the operations that write them. `postcard` and `crc32fast`
-- are the record `Formats`, `aes-gcm` is `Aes`, and what the operating system does is a record `Disk`.
pub mod Recover
pub mod Restart
pub mod Lost
pub mod Runs
pub mod Effects
pub mod LastIndex
pub mod Recovered
pub mod Stored
pub mod Frames
pub mod Ends
pub mod Deduped
pub mod Dedup
use apex_store.Base.{
  ℕ, suc, ◌+◌, ◌*◌, ◌^◌, ◌%◌, ◌-◌, String, ◌==◌, ◌||◌, string_eq, Bool, true, false, Option, none,
  some, List, [], ◌∷◌, ◌++◌, length, leb, ltb, if◌then◌else◌,
}
use apex_store.Base.Bytes.{Bytes}
use apex_store.Base.Words.{le_bytes}
use apex_store.Error.{LsmError, Result, ok, err, codec, io, ◌>>=◌}
use apex_store.Record.{LogRecord}
use apex_store.Encryption.{Aes, Encryptor, encrypt_block}

abbrev pub wal_frame_version_v0 : ℕ
wal_frame_version_v0 = 0

abbrev pub wal_frame_version_v1 : ℕ
wal_frame_version_v1 = 1

abbrev pub wal_frame_version_v2 : ℕ
wal_frame_version_v2 = 2

abbrev pub wal_frame_version_v3_encrypted : ℕ
wal_frame_version_v3_encrypted = 3

abbrev pub wal_current_frame_version : ℕ
wal_current_frame_version = wal_frame_version_v2

abbrev pub wal_sync_interval : ℕ
wal_sync_interval = 4

abbrev pub max_wal_record_bytes : ℕ
max_wal_record_bytes = 32 * 1024 * 1024

pub record LogRecordV0 : Type 0 where
  pub key : Bytes
  pub value : Bytes
  pub timestamp : ℕ
  pub is_deleted : Bool

unfoldable pub from_v0 : LogRecordV0 → LogRecord
from_v0 v0 = record {
  key = v0.key;
  value = v0.value;
  timestamp = v0.timestamp;
  is_deleted = v0.is_deleted;
  column_family = none;
  expires_at = none;
  range_start = none;
  range_end = none;
}

pub record LogRecordV1 : Type 0 where
  pub key : Bytes
  pub value : Bytes
  pub timestamp : ℕ
  pub is_deleted : Bool
  pub column_family : Option String

unfoldable pub from_v1 : LogRecordV1 → LogRecord
from_v1 v1 = record {
  key = v1.key;
  value = v1.value;
  timestamp = v1.timestamp;
  is_deleted = v1.is_deleted;
  column_family = v1.column_family;
  expires_at = none;
  range_start = none;
  range_end = none;
}

-- `postcard` on the three layouts of a record, and `crc32fast` on all bytes that a hasher was given.
pub record Formats : Type 0 where
  pub to_bytes : LogRecord → Option Bytes
  pub from_bytes : Bytes → Option LogRecord
  pub from_bytes_v0 : Bytes → Option LogRecordV0
  pub from_bytes_v1 : Bytes → Option LogRecordV1
  pub crc32 : Bytes → ℕ

-- infra/codec.rs: a failure of `postcard` becomes `Codec`.
unfoldable pub coded {ℓ} : {T : Type ℓ} → Option T → Result T
coded none = err codec
coded (some t) = ok t

abbrev pub with_version : ℕ → Result Bytes → Result (Bytes × ℕ)
with_version version (err e) = err e
with_version version (ok payload) = ok (payload, version)

-- The payload and its version. A record comes with the random nonce that is drawn for it.
unfoldable pub payload_of :
    Formats → Aes → Encryptor → LogRecord × Option Bytes → Result (Bytes × ℕ)
unfolding coded encrypt_block
payload_of f aes e (r, iv) = coded (f.to_bytes r) >>= (λ serialized.
    if e.enabled
    then with_version wal_frame_version_v3_encrypted (encrypt_block aes e iv serialized)
    else ok (serialized, wal_current_frame_version))

-- The bytes of a frame, its checksum included.
unfoldable pub frame_bytes : Formats → Bytes → ℕ → Bytes
frame_bytes f payload version =
    let length_bytes = le_bytes 4 ((1 + length payload % 2 ^ 32) % 2 ^ 32) in
    length_bytes
    ++ (version ∷ (payload ++ le_bytes 4 (f.crc32 (length_bytes ++ (version ∷ payload)))))

unfoldable pub frame : Formats → Aes → Encryptor → LogRecord × Option Bytes → Result Bytes
unfolding payload_of frame_bytes
frame f aes e r = payload_of f aes e r >>= (λ p. ok (frame_bytes f p.0 p.1))

-- The frames of several records, made before any of them is written.
unfoldable pub frames : Formats → Aes → Encryptor → List (LogRecord × Option Bytes) → Result Bytes
unfolding frame
frames f aes e [] = ok []
frames f aes e (r ∷ rs) = frame f aes e r >>= (λ b. frames f aes e rs >>= (λ bs. ok (b ++ bs)))

-- `buffered` is in the `BufWriter`, `file` has been handed to the system, and a crash leaves at
-- least the first `synced` bytes of it.
pub record WriteAheadLog : Type 0 where
  pub file : Bytes
  pub buffered : Bytes
  pub synced : ℕ
  pub batch_count : ℕ
  pub encryptor : Encryptor
  pub sync_interval : ℕ

-- A failed write leaves some bytes in the file and some in the buffer.
pub record Torn : Type 0 where
  pub written : Bytes
  pub left : Bytes

pub record Disk : Type 0 where
  pub torn : Option Torn
  pub syncs : Bool
  pub opens : Bool
  pub renames : Bool

-- The file at the log's path has `content`.
unfoldable pub new_with_encryption : Bytes → Encryptor → Disk → Result WriteAheadLog
new_with_encryption content e disk =
    if disk.opens
    then ok (record {
      file = content;
      buffered = [];
      synced = 0;
      batch_count = 0;
      encryptor = e;
      sync_interval = wal_sync_interval;
    })
    else err io

unfoldable pub set_sync_interval : ℕ → WriteAheadLog → WriteAheadLog
set_sync_interval n w = record w { sync_interval = n }

-- `write_all` of some bytes and `flush`.
unfoldable pub flushed : Disk → Bytes → WriteAheadLog → Result (Unit {0}) × WriteAheadLog
flushed disk bytes w = elim disk.torn [
  | none ↦ (ok tt, record w { file = w.file ++ w.buffered ++ bytes; buffered = [] })
  | some t ↦ (err io, record w { file = w.file ++ t.written; buffered = t.left })
]

-- `sync_all`
unfoldable pub sync_all : Disk → WriteAheadLog → Result (Unit {0}) × WriteAheadLog
sync_all disk w = if disk.syncs then (ok tt, record w { synced = length w.file }) else (err io, w)

-- A step of a method that may fail, and what follows where it did not.
abbrev pub and_then :
    Result (Unit {0}) × WriteAheadLog
    → (WriteAheadLog → Result (Unit {0}) × WriteAheadLog)
    → Result (Unit {0}) × WriteAheadLog
and_then (err e, w) rest = (err e, w)
and_then (ok done, w) rest = rest w

unfoldable pub count_write : Disk → WriteAheadLog → Result (Unit {0}) × WriteAheadLog
unfolding sync_all
count_write disk w =
    if leb w.sync_interval (w.batch_count + 1)
    then sync_all disk (record w { batch_count = 0 })
    else (ok tt, record w { batch_count = w.batch_count + 1 })

unfoldable pub write_record :
    Formats
    → Aes
    → Disk
    → LogRecord × Option Bytes
    → WriteAheadLog
    → Result (Unit {0}) × WriteAheadLog
unfolding frame flushed count_write
write_record f aes disk r w = elim (frame f aes w.encryptor r) [
  | err e ↦ (err e, w)
  | ok bytes ↦ and_then (flushed disk bytes w) (count_write disk)
]

-- The counter is reset after the fsync.
unfoldable pub sync_and_reset : Disk → WriteAheadLog → Result (Unit {0}) × WriteAheadLog
unfolding sync_all
sync_and_reset disk w = and_then (sync_all disk w) (λ w'. (ok tt, record w' { batch_count = 0 }))

unfoldable pub write_batch :
    Formats
    → Aes
    → Disk
    → List (LogRecord × Option Bytes)
    → WriteAheadLog
    → Result (Unit {0}) × WriteAheadLog
unfolding frames flushed sync_and_reset
write_batch f aes disk [] w = (ok tt, w)
write_batch f aes disk (r ∷ rs) w = elim (frames f aes w.encryptor (r ∷ rs)) [
  | err e ↦ (err e, w)
  | ok bytes ↦ and_then (flushed disk bytes w) (sync_and_reset disk)
]

unfoldable pub sync : Disk → WriteAheadLog → Result (Unit {0}) × WriteAheadLog
unfolding flushed sync_and_reset
sync disk w = and_then (flushed disk [] w) (sync_and_reset disk)

unfoldable pub size : WriteAheadLog → ℕ
size w = length w.file

unfoldable pub exceeds_max_size : ℕ → WriteAheadLog → Bool
unfolding size
exceeds_max_size max_size w = ltb max_size (size w)

-- A file with `content` is renamed over the log and opened. That the opening fails after a rename,
-- which leaves the writer on the old file, is not modelled.
unfoldable pub replaced : Disk → Bytes → WriteAheadLog → Result (Unit {0}) × WriteAheadLog
replaced disk content w =
    if disk.renames
    then (ok tt, record w { file = content; buffered = []; synced = length content })
    else (err io, w)

-- `clear`, past the creation of the temporary file.
unfoldable pub clear : Disk → WriteAheadLog → Result (Unit {0}) × WriteAheadLog
unfolding flushed sync_all replaced
clear disk w = and_then (flushed disk [] w) (λ w'. and_then (sync_all disk w') (replaced disk []))
