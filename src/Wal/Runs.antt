-- ===== src/Wal/Runs.antt =====
-- What a log of storage/wal.rs holds after any sequence of its operations.
use apex_store.Base.{
  ◌≤◌, ◌≡◌, sym, ap, ◌∙◌, Bool, true, false, Option, some, List, [], ◌∷◌, ◌++◌, length, All, map,
  if◌then◌else◌, arith, append-nil, subst,
}
use apex_store.Base.Bytes.{Bytes}
use apex_store.Error.{Result, ok, err, io}
use apex_store.Record.{LogRecord}
use apex_store.Encryption.{Aes, Encryptor}
use apex_store.Wal.{
  Formats, WriteAheadLog, Disk, flushed, sync_all, and_then, new_with_encryption, write_record,
  write_batch, sync, clear, replaced, wal_sync_interval,
}
use apex_store.Wal.Recover.{capacity, recover_locked}
use apex_store.Wal.Dedup.{deduplicate_records}
use apex_store.Wal.Stored.{Reliable, Stored, torn}
use apex_store.Wal.Recovered.{Works, recover_locked-Stored}
use apex_store.Wal.Effects.{
  HasNonce, record_of, image, Holds, Holds-write_record, Holds-write_batch, nothing-Holds,
  image-sync,
}

-- Logs that operations which returned without an error lead to from an empty file, with the records
-- written since the last truncation. A log is opened again with the encryptor that it had, and with
-- nothing left in its buffer.
pub data Run (f : Formats) (aes : Aes) : WriteAheadLog → List LogRecord → Type 0 where
  opened :
      (e : Encryptor) (disk : Disk) (w : WriteAheadLog)
      → new_with_encryption [] e disk ≡ ok w
      → Run f aes w []
  reopened :
      (disk : Disk) (w w' : WriteAheadLog) (rs : List LogRecord)
      → Run f aes w rs
      → w.buffered ≡ []
      → new_with_encryption w.file w.encryptor disk ≡ ok w'
      → Run f aes w' rs
  wrote :
      (disk : Disk) (r : LogRecord × Option Bytes) (w w' : WriteAheadLog) (rs : List LogRecord)
      → Run f aes w rs
      → HasNonce r
      → write_record f aes disk r w ≡ (ok tt, w')
      → Run f aes w' (rs ++ record_of r ∷ [])
  wrote_batch :
      (disk : Disk) (items : List (LogRecord × Option Bytes)) (w w' : WriteAheadLog)
      (rs : List LogRecord)
      → Run f aes w rs
      → All HasNonce items
      → write_batch f aes disk items w ≡ (ok tt, w')
      → Run f aes w' (rs ++ map record_of items)
  synced :
      (disk : Disk) (w w' : WriteAheadLog) (rs : List LogRecord)
      → Run f aes w rs
      → sync disk w ≡ (ok tt, w')
      → Run f aes w' rs
  cleared :
      (disk : Disk) (w w' : WriteAheadLog) (rs : List LogRecord)
      → Run f aes w rs
      → clear disk w ≡ (ok tt, w')
      → Run f aes w' []

empty-Holds :
    (f : Formats) (aes : Aes) (w : WriteAheadLog)
    → w.file ++ w.buffered ≡ []
    → Holds f aes (image w) []
empty-Holds f aes w h =
    subst (λ (b : Bytes). Holds f aes (w.encryptor, b) []) (sym h) (nothing-Holds f aes w.encryptor)

-- A log is opened on the bytes of its file.
opened-image :
    (file : Bytes) (e : Encryptor) (disk : Disk) (w : WriteAheadLog)
    → new_with_encryption file e disk ≡ ok w
    → image w ≡ (e, file)
unfolding new_with_encryption
opened-image file e disk w h = at disk.opens h
  where
    at :
        (b : Bool)
        → (if b
            then ok (record {
              file = file;
              buffered = [];
              synced = 0;
              batch_count = 0;
              encryptor = e;
              sync_interval = wal_sync_interval;
            })
            else err io)
          ≡ ok w
        → image w ≡ (e, file)
    at true h =
        let same : record {
          file = file;
          buffered = [];
          synced = 0;
          batch_count = 0;
          encryptor = e;
          sync_interval = wal_sync_interval;
        }
            ≡ w =
          cc h in
        ap (λ (v : WriteAheadLog). (v.encryptor, v.file ++ v.buffered)) (sym same)
        ∙ ap (λ (b : Bytes). (e, b)) (append-nil file)
    at false h = cc h

opened-Holds :
    (f : Formats) (aes : Aes) (e : Encryptor) (disk : Disk) (w : WriteAheadLog)
    → new_with_encryption [] e disk ≡ ok w
    → Holds f aes (image w) []
opened-Holds f aes e disk w h =
    subst (λ (p : Encryptor × Bytes). Holds f aes p []) (sym (opened-image [] e disk w h))
      (nothing-Holds f aes e)

reopened-image :
    (disk : Disk) (w w' : WriteAheadLog)
    → w.buffered ≡ []
    → new_with_encryption w.file w.encryptor disk ≡ ok w'
    → image w' ≡ image w
reopened-image disk w w' empty h =
    opened-image w.file w.encryptor disk w' h
    ∙ ap (λ (b : Bytes). (w.encryptor, b)) (sym (append-nil w.file))
    ∙ ap (λ (b : Bytes). (w.encryptor, w.file ++ b)) (sym empty)

-- The last step of a method that did not fail.
last_step :
    (p : Result (Unit {0}) × WriteAheadLog)
    (rest : WriteAheadLog → Result (Unit {0}) × WriteAheadLog) (w' : WriteAheadLog)
    → and_then p rest ≡ (ok tt, w')
    → (v : WriteAheadLog) × (rest v ≡ (ok tt, w'))
last_step (err e, w) rest w' h = cc h
last_step (ok done, w) rest w' h = (w, h)

replaced-empty :
    (disk : Disk) (v w' : WriteAheadLog)
    → replaced disk [] v ≡ (ok tt, w')
    → w'.file ++ w'.buffered ≡ []
unfolding replaced
replaced-empty disk v w' h = at disk.renames h
  where
    at :
        (b : Bool)
        → if◌then◌else◌ {A = Result (Unit {0}) × WriteAheadLog} b
            (ok tt, record v { file = []; buffered = []; synced = 0 })
            (err io, v)
          ≡ (ok tt, w')
        → w'.file ++ w'.buffered ≡ []
    at true h =
        let same : record v { file = []; buffered = []; synced = 0 } ≡ w' =
          ap (λ (p : Result (Unit {0}) × WriteAheadLog). p.1) h in
        ap (λ (v : WriteAheadLog). v.file ++ v.buffered) (sym same)
    at false h = cc h

cleared-Holds :
    (f : Formats) (aes : Aes) (disk : Disk) (w w' : WriteAheadLog)
    → clear disk w ≡ (ok tt, w')
    → Holds f aes (image w') []
unfolding clear
cleared-Holds f aes disk w w' h =
    let flushed_step =
      last_step (flushed disk [] w) (λ v. and_then (sync_all disk v) (replaced disk [])) w' h in
    let synced_step =
      last_step (sync_all disk flushed_step.0) (replaced disk []) w' flushed_step.1 in
    empty-Holds f aes w' (replaced-empty disk synced_step.0 w' synced_step.1)

Run-Holds :
    (f : Formats) (aes : Aes) (w : WriteAheadLog) (rs : List LogRecord)
    → Run f aes w rs
    → Holds f aes (image w) rs
Run-Holds f aes _ _ (opened e disk w h) = opened-Holds f aes e disk w h
Run-Holds f aes _ _ (reopened disk w w' rs run empty h) =
    subst (λ (p : Encryptor × Bytes). Holds f aes p rs) (sym (reopened-image disk w w' empty h))
      (Run-Holds f aes w rs run)
Run-Holds f aes _ _ (wrote disk r w w' rs run nonces h) =
    Holds-write_record f aes disk r w w' rs nonces h (Run-Holds f aes w rs run)
Run-Holds f aes _ _ (wrote_batch disk items w w' rs run nonces h) =
    Holds-write_batch f aes disk items w w' rs nonces h (Run-Holds f aes w rs run)
Run-Holds f aes _ _ (synced disk w w' rs run h) =
    subst (λ (p : Encryptor × Bytes). Holds f aes p rs) (sym (image-sync disk w w' h))
      (Run-Holds f aes w rs run)
Run-Holds f aes _ _ (cleared disk w w' rs run h) = cleared-Holds f aes disk w w' h

-- From a log opened on an empty file, after any sequence of writes, batches, syncs, truncations and
-- reopenings (with the same encryptor and nothing left in the buffer) that returned without an error,
-- on a log of at most a buffer's bytes, recovery on a disk that works returns the records written since
-- the last truncation, deduplicated.
pub recover_locked-Run :
    (f : Formats) (aes : Aes) (disk : Disk) (w : WriteAheadLog) (rs : List LogRecord)
    → Reliable f aes
    → Works disk
    → Run f aes w rs
    → length (w.file ++ w.buffered) ≤ capacity
    → (recover_locked f aes disk w).0 ≡ some (ok (deduplicate_records rs))
recover_locked-Run f aes disk w rs reliable works run small =
    recover_locked-Stored f aes disk w rs reliable works stored small
  where
    stored : Stored f aes w.encryptor (w.file ++ w.buffered) rs
    stored =
        subst (λ (b : Bytes). Stored f aes w.encryptor b rs) (append-nil (w.file ++ w.buffered))
          (subst (λ (l : List LogRecord). Stored f aes w.encryptor (w.file ++ w.buffered ++ []) l)
            (append-nil rs) (Run-Holds f aes w rs run [] [] (torn [] (omega arith))))
