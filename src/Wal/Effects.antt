-- ===== src/Wal/Effects.antt =====
-- What the writes of storage/wal.rs add to a log's bytes.
use apex_store.Base.{
  ◌+◌, ◌≡◌, refl, sym, ap, ◌∙◌, Bool, true, false, Option, none, some, List, [], ◌∷◌, ◌++◌, length,
  All, map, if◌then◌else◌, append_assoc, append-nil, subst, leb,
}
use apex_store.Base.Bytes.{Bytes}
use apex_store.Error.{Result, ok, err, io, ◌>>=◌}
use apex_store.Record.{LogRecord}
use apex_store.Encryption.{Aes, Encryptor}
use apex_store.Wal.{
  Formats, frame, frames, WriteAheadLog, Disk, Torn, flushed, sync_all, and_then, write_record,
  write_batch, sync, count_write, sync_and_reset,
}
use apex_store.Wal.Stored.{Stored, written}

abbrev pub HasNonce : LogRecord × Option Bytes → Type 0
HasNonce r = (n : Bytes) → r.1 ≡ some n → length n ≡ 12

abbrev pub record_of : LogRecord × Option Bytes → LogRecord
record_of r = r.0

-- Bytes that hold the frames of some records, whatever is stored after them.
abbrev Frames : Formats → Aes → Encryptor → Bytes → List LogRecord → Type 0
Frames f aes e b rs =
    (more : Bytes) (rest : List LogRecord)
    → Stored f aes e more rest
    → Stored f aes e (b ++ more) (rs ++ rest)

Frames-append :
    (f : Formats) (aes : Aes) (e : Encryptor) (b c : Bytes) (rs ss : List LogRecord)
    → Frames f aes e b rs
    → Frames f aes e c ss
    → Frames f aes e (b ++ c) (rs ++ ss)
Frames-append f aes e b c rs ss h k more rest s =
    subst (λ (x : Bytes). Stored f aes e x (rs ++ ss ++ rest)) (sym (append_assoc b c more))
      (subst (λ (x : List LogRecord). Stored f aes e (b ++ (c ++ more)) x)
        (sym (append_assoc rs ss rest)) (h (c ++ more) (ss ++ rest) (k more rest s)))

Frames-frame :
    (f : Formats) (aes : Aes) (e : Encryptor) (r : LogRecord × Option Bytes) (bytes : Bytes)
    → HasNonce r
    → frame f aes e r ≡ ok bytes
    → Frames f aes e bytes (record_of r ∷ [])
Frames-frame f aes e r bytes nonces h more rest s = written r.0 r.1 bytes more rest nonces h s

Frames-frames :
    (f : Formats) (aes : Aes) (e : Encryptor) (items : List (LogRecord × Option Bytes))
    (bytes : Bytes)
    → All HasNonce items
    → frames f aes e items ≡ ok bytes
    → Frames f aes e bytes (map record_of items)
unfolding frames
Frames-frames f aes e [] bytes nonces h =
    let none_written : [] ≡ bytes = cc h in
    λ more rest s. subst (λ (b : Bytes). Stored f aes e (b ++ more) rest) none_written s
Frames-frames f aes e (r ∷ items) bytes nonces h =
    by_frame (frame f aes e r) refl (frames f aes e items)
      (λ bs k. Frames-frames f aes e items bs nonces.1 k) h
  where
    by_frame :
        (o : Result Bytes)
        → frame f aes e r ≡ o
        → (q : Result Bytes) → ((bs : Bytes) → q ≡ ok bs → Frames f aes e bs (map record_of items))
        → (o >>= (λ b. q >>= (λ bs. ok (b ++ bs)))) ≡ ok bytes
        → Frames f aes e bytes (record_of r ∷ map record_of items)
    by_frame (err error) k q again h = cc h
    by_frame (ok b) k (err error) again h = cc h
    by_frame (ok b) k (ok bs) again h =
        subst (λ (x : Bytes). Frames f aes e x (record_of r ∷ map record_of items)) (cc h)
          (Frames-append f aes e b bs (record_of r ∷ []) (map record_of items)
            (Frames-frame f aes e r b nonces.0 k) (again bs refl))

-- The encryptor and the bytes that a log has with what its buffer will add.
abbrev pub image : WriteAheadLog → Encryptor × Bytes
image w = (w.encryptor, w.file ++ w.buffered)

abbrev pub Holds : Formats → Aes → Encryptor × Bytes → List LogRecord → Type 0
Holds f aes p rs = Frames f aes p.0 p.1 rs

image-sync_all : (disk : Disk) (w : WriteAheadLog) → image (sync_all disk w).1 ≡ image w
unfolding sync_all
image-sync_all disk w = at disk.syncs
  where
    at :
        (b : Bool)
        → image
            (if◌then◌else◌ {A = Result (Unit {0}) × WriteAheadLog} b
              (ok tt, record w { synced = length w.file })
              (err io, w)).1
          ≡ image w
    at true = refl
    at false = refl

image-count_write : (disk : Disk) (w : WriteAheadLog) → image (count_write disk w).1 ≡ image w
unfolding count_write
image-count_write disk w = at (leb w.sync_interval (w.batch_count + 1))
  where
    at :
        (b : Bool)
        → image
            (if b
              then sync_all disk (record w { batch_count = 0 })
              else (ok tt, record w { batch_count = w.batch_count + 1 })).1
          ≡ image w
    at true = image-sync_all disk (record w { batch_count = 0 })
    at false = refl

image-sync_and_reset : (disk : Disk) (w : WriteAheadLog) → image (sync_and_reset disk w).1 ≡ image w
unfolding sync_and_reset
image-sync_and_reset disk w = at (sync_all disk w) ∙ image-sync_all disk w
  where
    at :
        (p : Result (Unit {0}) × WriteAheadLog)
        → image (and_then p (λ w'. (ok tt, record w' { batch_count = 0 }))).1 ≡ image p.1
    at (err e, w') = refl
    at (ok done, w') = refl

-- What follows a flush that did not fail.
image-flushed :
    (disk : Disk) (bytes : Bytes) (w w' : WriteAheadLog)
    (rest : WriteAheadLog → Result (Unit {0}) × WriteAheadLog)
    → ((v : WriteAheadLog) → image (rest v).1 ≡ image v)
    → and_then (flushed disk bytes w) rest ≡ (ok tt, w')
    → image w' ≡ (w.encryptor, w.file ++ w.buffered ++ bytes)
unfolding flushed
image-flushed disk bytes w w' rest h e = at disk.torn e
  where
    at :
        (o : Option Torn)
        → and_then
            (elim o [
              | none ↦ (ok tt, record w { file = w.file ++ w.buffered ++ bytes; buffered = [] })
              | some t ↦ (err io, record w { file = w.file ++ t.written; buffered = t.left })
            ])
            rest
          ≡ (ok tt, w')
        → image w' ≡ (w.encryptor, w.file ++ w.buffered ++ bytes)
    at none e =
        ap (λ (p : Result (Unit {0}) × WriteAheadLog). image p.1) (sym e)
        ∙ h (record w { file = w.file ++ w.buffered ++ bytes; buffered = [] })
        ∙ ap (λ (b : Bytes). (w.encryptor, b)) (append-nil (w.file ++ w.buffered ++ bytes))
    at (some t) e = cc e

appended :
    (f : Formats) (aes : Aes) (w w' : WriteAheadLog) (bytes : Bytes) (rs ss : List LogRecord)
    → image w' ≡ (w.encryptor, w.file ++ w.buffered ++ bytes)
    → Holds f aes (image w) rs
    → Frames f aes w.encryptor bytes ss
    → Holds f aes (image w') (rs ++ ss)
appended f aes w w' bytes rs ss same h k =
    subst (λ (p : Encryptor × Bytes). Holds f aes p (rs ++ ss)) (sym same)
      (Frames-append f aes w.encryptor (w.file ++ w.buffered) bytes rs ss h k)

pub Holds-write_record :
    (f : Formats) (aes : Aes) (disk : Disk) (r : LogRecord × Option Bytes) (w w' : WriteAheadLog)
    (rs : List LogRecord)
    → HasNonce r
    → write_record f aes disk r w ≡ (ok tt, w')
    → Holds f aes (image w) rs
    → Holds f aes (image w') (rs ++ record_of r ∷ [])
unfolding write_record
Holds-write_record f aes disk r w w' rs nonces e h = at (frame f aes w.encryptor r) refl e
  where
    at :
        (o : Result Bytes)
        → frame f aes w.encryptor r ≡ o
        → (elim o as (λ k. Result (Unit {0}) × WriteAheadLog) [
          | err e ↦ (err e, w)
          | ok bytes ↦ and_then (flushed disk bytes w) (count_write disk)
        ])
          ≡ (ok tt, w')
        → Holds f aes (image w') (rs ++ record_of r ∷ [])
    at (err error) k e = cc e
    at (ok bytes) k e =
        appended f aes w w' bytes rs (record_of r ∷ [])
          (image-flushed disk bytes w w' (count_write disk) (image-count_write disk) e) h
          (Frames-frame f aes w.encryptor r bytes nonces k)

pub Holds-write_batch :
    (f : Formats) (aes : Aes) (disk : Disk) (items : List (LogRecord × Option Bytes))
    (w w' : WriteAheadLog) (rs : List LogRecord)
    → All HasNonce items
    → write_batch f aes disk items w ≡ (ok tt, w')
    → Holds f aes (image w) rs
    → Holds f aes (image w') (rs ++ map record_of items)
unfolding write_batch
Holds-write_batch f aes disk [] w w' rs nonces e h =
    let same : w ≡ w' = cc e in
    subst (λ (l : List LogRecord). Holds f aes (image w') l) (sym (append-nil rs))
      (subst (λ (v : WriteAheadLog). Holds f aes (image v) rs) same h)
Holds-write_batch f aes disk (r ∷ items) w w' rs nonces e h =
    at (frames f aes w.encryptor (r ∷ items)) refl e
  where
    at :
        (o : Result Bytes)
        → frames f aes w.encryptor (r ∷ items) ≡ o
        → (elim o as (λ k. Result (Unit {0}) × WriteAheadLog) [
          | err e ↦ (err e, w)
          | ok bytes ↦ and_then (flushed disk bytes w) (sync_and_reset disk)
        ])
          ≡ (ok tt, w')
        → Holds f aes (image w') (rs ++ map record_of (r ∷ items))
    at (err error) k e = cc e
    at (ok bytes) k e =
        appended f aes w w' bytes rs (map record_of (r ∷ items))
          (image-flushed disk bytes w w' (sync_and_reset disk) (image-sync_and_reset disk) e) h
          (Frames-frames f aes w.encryptor (r ∷ items) bytes nonces k)

pub nothing-Holds : (f : Formats) (aes : Aes) (e : Encryptor) → Holds f aes (e, []) []
nothing-Holds f aes e more rest s = s

pub image-sync :
    (disk : Disk) (w w' : WriteAheadLog) → sync disk w ≡ (ok tt, w') → image w' ≡ image w
unfolding sync
image-sync disk w w' e =
    image-flushed disk [] w w' (sync_and_reset disk) (image-sync_and_reset disk) e
    ∙ ap (λ (b : Bytes). (w.encryptor, b)) (append-nil (w.file ++ w.buffered))
