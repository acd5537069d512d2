-- ===== src/Tests/Log.antt =====
-- The log and its encryption at concrete inputs.
use apex_store.Base.{
  ℕ, zero, suc, ◌%◌, ◌^◌, ◌≤◌, String, ◌≡◌, refl, sym, ap, ◌∙◌, Bool, true, false, Option, none,
  some, List, [], ◌∷◌, ◌++◌, length, take, drop, arith, ◌==◌, nat_eq, beq_refl, if◌then◌else◌,
  take-append, drop-append, ◌↔◌,
}
use apex_store.Base.Bytes.{Bytes}
use apex_store.Error.{ok, err, legacy_encryption_migration_required}
use apex_store.Record.{LogRecord, is_some}
use apex_store.Encryption.{
  EncryptionConfig, Aes, Encryptor, new, encrypt_block, decrypt_block, decrypt_for_recovery, legacy,
}
use apex_store.Encryption.Laws.{OpensSealed, decrypt-encrypt, decrypt_for_recovery_iff}
use apex_store.Wal.{
  Formats, WriteAheadLog, Disk, wal_sync_interval, write_record, new_with_encryption, frame,
  frame_bytes, payload_of, coded,
}
use apex_store.Wal.Recover.{recover_locked, read_log}
use apex_store.Wal.Ends.{recover_locked-returns}
use apex_store.Wal.Dedup.{deduplicate_records}
use apex_store.Wal.Deduped.{OncePerSlot, last_record-deduplicate}
use apex_store.Wal.Stored.{Reliable, Stored, torn, written, damaged, length-frame_bytes}
use apex_store.Wal.Recovered.{Works, recover_locked-Stored}
use apex_store.Wal.Runs.{Run, opened, wrote, recover_locked-Run}
use apex_store.Wal.Lost.{read_log-loses}
use apex_store.Wal.Restart.{replay-recover_locked}
use apex_store.Base.Words.{le_bytes, of_le_bytes}
use apex_store.Engine.{memtables_of}
use apex_store.Engine.Read.{find_record}
use apex_store.Engine.Replay.{replay_wal_records_core}
use apex_store.Engine.Recover.{last_record}
use apex_store.Merge.Collect.{or_else}
use apex_store.Tests.Store.{fresh_core}
use mathlib.Core.List.{reverse}

-- A cipher that only checks the key.
abbrev toy_aes : Aes
toy_aes = record {
  seal = λ key iv plaintext. some (length key ∷ plaintext);
  unseal = λ key iv ciphertext. elim ciphertext [
    | [] ↦ none
    | k ∷ p ↦ if k == length key then some p else none
  ];
}

toy-OpensSealed : OpensSealed toy_aes
toy-OpensSealed key iv plaintext ciphertext h =
    let same : length key ∷ plaintext ≡ ciphertext = cc h in
    ap (toy_aes.unseal key iv) (sym same)
    ∙ ap (λ (b : Bool). if b then some plaintext else none) (beq_refl (length key))

-- A layout of the records without options.
abbrev laid_out :
    Bytes → Bytes → ℕ → Bool → Option String → Option ℕ → Option Bytes → Option Bytes → Option Bytes
laid_out k v t true cf e s n = none
laid_out k v t false (some cf) e s n = none
laid_out k v t false none (some e) s n = none
laid_out k v t false none none (some s) n = none
laid_out k v t false none none none (some n) = none
laid_out k v t false none none none none = some (t ∷ length k ∷ (k ++ v))

abbrev plain : Bytes → Bytes → ℕ → LogRecord
plain k v t = record {
  key = k;
  value = v;
  timestamp = t;
  is_deleted = false;
  column_family = none;
  expires_at = none;
  range_start = none;
  range_end = none;
}

abbrev read_back : Bytes → Option LogRecord
read_back [] = none
read_back (t ∷ []) = none
read_back (t ∷ n ∷ b) = some (plain (take n b) (drop n b) t)

read_back-laid_out :
    (k v : Bytes) (t : ℕ) (d : Bool) (cf : Option String) (e : Option ℕ) (s n : Option Bytes)
    (bytes : Bytes)
    → laid_out k v t d cf e s n ≡ some bytes
    → read_back bytes
      ≡ some (record {
        key = k;
        value = v;
        timestamp = t;
        is_deleted = d;
        column_family = cf;
        expires_at = e;
        range_start = s;
        range_end = n;
      })
read_back-laid_out k v t true cf e s n bytes h = cc h
read_back-laid_out k v t false (some cf) e s n bytes h = cc h
read_back-laid_out k v t false none (some e) s n bytes h = cc h
read_back-laid_out k v t false none none (some s) n bytes h = cc h
read_back-laid_out k v t false none none none (some n) bytes h = cc h
read_back-laid_out k v t false none none none none bytes h =
    let same : t ∷ length k ∷ (k ++ v) ≡ bytes = cc h in
    ap read_back (sym same)
    ∙ ap (λ (x : Bytes). some (plain x (drop (length k) (k ++ v)) t)) (take-append k v)
    ∙ ap (λ (x : Bytes). some (plain k x t)) (drop-append k v)

abbrev toy_formats : Formats
toy_formats = record {
  to_bytes = λ r.
      laid_out r.key r.value r.timestamp r.is_deleted r.column_family r.expires_at r.range_start
        r.range_end;
  from_bytes = read_back;
  from_bytes_v0 = λ b. none;
  from_bytes_v1 = λ b. none;
  crc32 = λ b. length b % 2 ^ 32;
}

toy-Reliable : Reliable toy_formats toy_aes
toy-Reliable = record {
  decodes = λ r bytes h.
      read_back-laid_out r.key r.value r.timestamp r.is_deleted r.column_family r.expires_at
        r.range_start r.range_end bytes h;
  sums = λ bytes. omega arith;
  opens = toy-OpensSealed;
}

abbrev drawn : Bytes
drawn = 0 ∷ 1 ∷ 2 ∷ 3 ∷ 4 ∷ 5 ∷ 6 ∷ 7 ∷ 8 ∷ 9 ∷ 10 ∷ 11 ∷ []

drawn_twelve : (n : Bytes) → some drawn ≡ some n → length n ≡ 12
drawn_twelve n h = let same : drawn ≡ n = cc h in ap length (sym same)

abbrev with_key : EncryptionConfig
with_key = record { key = 7 ∷ []; enabled = true }

abbrev keyed : Encryptor
keyed = record { cipher = some (7 ∷ []); enabled = true }

decrypt-encrypt_example : decrypt_block toy_aes (new with_key) (drawn ++ 1 ∷ 42 ∷ []) ≡ ok (42 ∷ [])
unfolding encrypt_block new
decrypt-encrypt_example =
    decrypt-encrypt toy_aes with_key (42 ∷ []) (some drawn) (drawn ++ 1 ∷ 42 ∷ []) toy-OpensSealed
      drawn_twelve refl

decrypt_for_recovery_iff_example :
    ((decrypt_for_recovery toy_aes keyed (drawn ++ 1 ∷ 42 ∷ []) ≡ ok (42 ∷ []))
      ↔ ((true ≡ true) × (decrypt_block toy_aes keyed (drawn ++ 1 ∷ 42 ∷ []) ≡ ok (42 ∷ []))))
    × (decrypt_for_recovery toy_aes keyed (drawn ++ 1 ∷ 42 ∷ [])
          ≡ err legacy_encryption_migration_required
        → (q : Bytes) × (decrypt_block toy_aes legacy (drawn ++ 1 ∷ 42 ∷ []) ≡ ok q))
decrypt_for_recovery_iff_example =
    decrypt_for_recovery_iff toy_aes keyed (drawn ++ 1 ∷ 42 ∷ []) (42 ∷ [])

abbrev sound_disk : Disk
sound_disk = record { torn = none; syncs = true; opens = true; renames = true }

sound-Works : Works sound_disk
sound-Works = record { writes = refl; syncs = refl; opens = refl }

abbrev first_log : WriteAheadLog
first_log = record {
  file = [];
  buffered = [];
  synced = 0;
  batch_count = 0;
  encryptor = keyed;
  sync_interval = wal_sync_interval;
}

-- Two encrypted writes of a key, 8 and then 9.
abbrev second_log : WriteAheadLog
second_log =
    (write_record toy_formats toy_aes sound_disk (plain (5 ∷ []) (8 ∷ []) 1, some drawn)
      first_log).1

abbrev third_log : WriteAheadLog
third_log =
    (write_record toy_formats toy_aes sound_disk (plain (5 ∷ []) (9 ∷ []) 2, some drawn)
      second_log).1

abbrev both : List LogRecord
both = plain (5 ∷ []) (8 ∷ []) 1 ∷ plain (5 ∷ []) (9 ∷ []) 2 ∷ []

third-Run : Run toy_formats toy_aes third_log both
unfolding write_record new_with_encryption
third-Run =
    wrote sound_disk (plain (5 ∷ []) (9 ∷ []) 2, some drawn) second_log third_log
      (plain (5 ∷ []) (8 ∷ []) 1 ∷ [])
      (wrote sound_disk (plain (5 ∷ []) (8 ∷ []) 1, some drawn) first_log second_log []
        (opened keyed sound_disk first_log refl) drawn_twelve refl)
      drawn_twelve refl

third_small : length (third_log.file ++ third_log.buffered) ≤ 8192
unfolding write_record le_bytes
third_small = omega arith

recover_locked-Run_example :
    (recover_locked toy_formats toy_aes sound_disk third_log).0
    ≡ some (ok (deduplicate_records both))
recover_locked-Run_example =
    recover_locked-Run toy_formats toy_aes sound_disk third_log both toy-Reliable sound-Works
      third-Run third_small

replay-recover_locked_example :
    (recovered : List LogRecord) × ((recover_locked toy_formats toy_aes sound_disk third_log).0
      ≡ some (ok recovered))
    × ((cf : String) (key : Bytes)
        → find_record key (reverse (memtables_of (replay_wal_records_core recovered fresh_core) cf))
          ≡ or_else
              (last_record cf key both)
              (find_record key (reverse (memtables_of fresh_core cf))))
replay-recover_locked_example =
    replay-recover_locked toy_formats toy_aes sound_disk third_log both fresh_core toy-Reliable
      sound-Works third-Run third_small

recover_locked-returns_example :
    is_some
      (recover_locked toy_formats toy_aes sound_disk
        (record first_log { file = 1 ∷ 2 ∷ 3 ∷ 4 ∷ 5 ∷ [] })).0
    ≡ true
recover_locked-returns_example =
    recover_locked-returns toy_formats toy_aes sound_disk
      (record first_log { file = 1 ∷ 2 ∷ 3 ∷ 4 ∷ 5 ∷ [] })

last_record-deduplicate_example :
    ((cf : String) (key : Bytes)
      → last_record cf key (deduplicate_records both) ≡ last_record cf key both)
    × OncePerSlot (deduplicate_records both)
last_record-deduplicate_example = last_record-deduplicate both

-- A damaged frame, a record and a torn length.
abbrev damaged_log : WriteAheadLog
damaged_log = record first_log {
  file = 3 ∷ 0 ∷ 0 ∷ 0 ∷ 2 ∷ 1 ∷ 1 ∷ 9 ∷ 9 ∷ 9 ∷ 9 ∷ second_log.file ++ 1 ∷ 2 ∷ [];
}

damaged_Stored : Stored toy_formats toy_aes keyed damaged_log.file (plain (5 ∷ []) (8 ∷ []) 1 ∷ [])
unfolding write_record le_bytes of_le_bytes frame
damaged_Stored =
    damaged (1 ∷ 1 ∷ []) (9 ∷ 9 ∷ 9 ∷ 9 ∷ []) (second_log.file ++ 1 ∷ 2 ∷ []) 2
      (plain (5 ∷ []) (8 ∷ []) 1 ∷ []) refl refl
      (written (plain (5 ∷ []) (8 ∷ []) 1) (some drawn) second_log.file (1 ∷ 2 ∷ []) [] drawn_twelve
        refl (torn (1 ∷ 2 ∷ []) (omega arith)))

recover_locked-Stored_example :
    (recover_locked toy_formats toy_aes sound_disk damaged_log).0
    ≡ some (ok (deduplicate_records (plain (5 ∷ []) (8 ∷ []) 1 ∷ [])))
unfolding write_record le_bytes
recover_locked-Stored_example =
    recover_locked-Stored toy_formats toy_aes sound_disk damaged_log
      (plain (5 ∷ []) (8 ∷ []) 1 ∷ []) toy-Reliable sound-Works damaged_Stored (omega arith)

-- A value so long that its frame ends two bytes before the buffer does.
zeros : ℕ → Bytes
zeros zero = []
zeros (suc n) = 0 ∷ zeros n

length-zeros : (n : ℕ) → length (zeros n) ≡ n
unfolding zeros
length-zeros zero = refl
length-zeros (suc n) = ap suc (length-zeros n)

abbrev unkeyed : Encryptor
unkeyed = record { cipher = none; enabled = false }

abbrev long_payload : Bytes
long_payload = 1 ∷ 0 ∷ zeros 8179

read_log-loses_example :
    read_log toy_formats toy_aes unkeyed
      (frame_bytes toy_formats long_payload 2 ++ frame_bytes toy_formats (2 ∷ 0 ∷ []) 2)
    ≡ some (ok (plain [] (zeros 8179) 1 ∷ []))
unfolding frame payload_of coded
read_log-loses_example =
    read_log-loses toy_formats toy_aes unkeyed (plain [] (zeros 8179) 1) none
      (frame_bytes toy_formats long_payload 2) (frame_bytes toy_formats (2 ∷ 0 ∷ []) 2) toy-Reliable
      (λ n h. cc h) refl
      (omega (
        arith,
        length-frame_bytes toy_formats toy_aes toy-Reliable unkeyed long_payload 2,
        length-zeros 8179,
      ))
      (omega (
        arith,
        length-frame_bytes toy_formats toy_aes toy-Reliable unkeyed long_payload 2,
        length-zeros 8179,
      ))
