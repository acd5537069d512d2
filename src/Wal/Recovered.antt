-- ===== src/Wal/Recovered.antt =====
-- What `recover_locked` of storage/wal.rs returns for a log of frames.
use apex_store.Base.{
  ℕ, zero, suc, ◌+◌, ◌<◌, ◌≤◌, ◌≡◌, refl, sym, ap, ◌∙◌, true, Option, none, some, List, [], ◌∷◌,
  ◌++◌, length, take, drop, ltb, if◌then◌else◌, arith, length-append, append-nil,
}
use apex_store.Base.Bytes.{Bytes}
use apex_store.Base.Words.{le_bytes, length-le_bytes}
use apex_store.Error.{Result, ok, err, io, ◌>>=◌}
use apex_store.Record.{LogRecord}
use apex_store.Encryption.{Aes, Encryptor}
use apex_store.Wal.{Formats, max_wal_record_bytes, WriteAheadLog, Disk, flushed, sync_all, and_then}
use apex_store.Wal.Recover.{
  Reader, fill_buf, capacity, Pass, ends, fails, skips, yields, pass, recover_from, read_log,
  reading, read_frame, deduplicated, recover_locked, recover_at,
}
use apex_store.Wal.Dedup.{deduplicate_records}
use apex_store.Wal.Frames.{if_true}
use apex_store.Wal.Stored.{
  Reliable, Stored, torn, written, damaged, pass-written, pass-damaged, pass-torn, length-frame,
}

take-all : (n : ℕ) (xs : Bytes) → length xs ≤ n → take n xs ≡ xs
take-all zero [] h = refl
take-all zero (x ∷ xs) h = ground (arith, h)
take-all (suc n) [] h = refl
take-all (suc n) (x ∷ xs) h = ap (λ (t : Bytes). x ∷ t) (take-all n xs (omega (arith, h)))

drop-all : (n : ℕ) (xs : Bytes) → length xs ≤ n → drop n xs ≡ []
drop-all zero [] h = refl
drop-all zero (x ∷ xs) h = ground (arith, h)
drop-all (suc n) [] h = refl
drop-all (suc n) (x ∷ xs) h = drop-all n xs (omega (arith, h))

-- A file of no more bytes than the buffer is read at once.
fill_buf-file :
    (content : Bytes)
    → length content ≤ capacity
    → fill_buf (record { buffered = []; rest = content })
      ≡ fill_buf (record { buffered = content; rest = [] })
unfolding fill_buf
fill_buf-file [] h = refl
fill_buf-file (x ∷ xs) h =
    ap (λ (t : Bytes). record { buffered = t; rest = drop capacity (x ∷ xs) })
      (take-all capacity (x ∷ xs) h)
    ∙ ap (λ (t : Bytes). record { buffered = x ∷ xs; rest = t }) (drop-all capacity (x ∷ xs) h)

-- The records of the rest of the loop with one before them.
abbrev pub after_record :
    LogRecord → Option (Result (List LogRecord)) → Option (Result (List LogRecord))
after_record found none = none
after_record found (some result) = some (result >>= (λ records. ok (found ∷ records)))

module _ (f : Formats) (aes : Aes) (reliable : Reliable f aes) (e : Encryptor) where
  -- The rest of the loop after a pass.
  abbrev pub after_pass : ℕ → ℕ → Pass → Option (Result (List LogRecord))
  after_pass file_size fuel p = elim p [
    | ends ↦ some (ok [])
    | fails error ↦ some (err error)
    | skips pos' r' ↦ recover_from f aes e file_size fuel pos' r'
    | yields found pos' r' ↦ elim (recover_from f aes e file_size fuel pos' r') [
      | none ↦ none
      | some result ↦ some (result >>= (λ records. ok (found ∷ records)))
    ]
  ]

  pub recover_from-pass :
      (file_size fuel pos : ℕ) (r : Reader) (p : Pass)
      → pass f aes e file_size pos r ≡ p
      → recover_from f aes e file_size (suc fuel) pos r ≡ after_pass file_size fuel p
  unfolding recover_from
  recover_from-pass file_size fuel pos r p h = ap (after_pass file_size fuel) h

  recover_from-Stored :
      (file_size fuel pos : ℕ) (b : Bytes) (rs : List LogRecord)
      → Stored f aes e b rs
      → pos + length b ≡ file_size
      → file_size ≤ max_wal_record_bytes
      → length b < fuel
      → recover_from f aes e file_size fuel pos (record { buffered = b; rest = [] }) ≡ some (ok rs)
  recover_from-Stored file_size zero pos b rs s at small h = ground (arith, h)
  recover_from-Stored file_size (suc fuel) pos _ _ (torn t short) at small h =
      recover_from-pass file_size fuel pos (record { buffered = t; rest = [] }) ends
        (pass-torn f aes reliable e t file_size pos short)
  recover_from-Stored file_size (suc fuel) pos _ _ (written r iv bytes b rs twelve framed s) at
        small h =
      let long : length (bytes ++ b) ≡ length bytes + length b = length-append bytes b in
      let nine : 9 ≤ length bytes = length-frame f aes reliable e (r, iv) bytes framed in
      recover_from-pass file_size fuel pos (record { buffered = bytes ++ b; rest = [] })
        (yields r (pos + length bytes) (record { buffered = b; rest = [] }))
        (pass-written f aes reliable e r iv bytes b [] file_size pos twelve framed
          (omega (arith, long, at)) (omega (arith, long, at, small)))
      ∙ ap (after_record r) (
          recover_from-Stored file_size fuel (pos + length bytes) b rs s (omega (arith, long, at))
            small (omega (arith, long, nine, h)))
  recover_from-Stored file_size (suc fuel) pos _ _ (damaged payload sum b v rs four bad s) at small
        h =
      let long : length (le_bytes 4 (1 + length payload) ++ (v ∷ (payload ++ (sum ++ b))))
          ≡ length payload + 9 + length b =
        omega (
          arith,
          four,
          length-append sum b,
          length-append payload (sum ++ b),
          length-le_bytes 4 (1 + length payload),
          length-append (le_bytes 4 (1 + length payload)) (v ∷ (payload ++ (sum ++ b))),
        ) in
      recover_from-pass file_size fuel pos
        (record {
          buffered = le_bytes 4 (1 + length payload) ++ (v ∷ (payload ++ (sum ++ b)));
          rest = [];
        })
        (skips (pos + (length payload + 9)) (record { buffered = b; rest = [] }))
        (pass-damaged f aes reliable e payload sum b [] v file_size pos four bad
          (omega (arith, long, at)) (omega (arith, long, at, small)))
      ∙ recover_from-Stored file_size fuel (pos + (length payload + 9)) b rs s
          (omega (arith, long, at)) small (omega (arith, long, h))

  pub pass-fill :
      (file_size pos : ℕ) (a b : Reader)
      → fill_buf a ≡ fill_buf b
      → pass f aes e file_size pos a ≡ pass f aes e file_size pos b
  unfolding pass
  pass-fill file_size pos a b h =
      ap
        (λ (r : Reader).
          if ltb (length r.buffered) 4
          then ends
          else reading 4 r (fails io)
              (λ length_bytes after. read_frame f aes e file_size length_bytes (pos + 4) after))
        h

  -- A log of at most a buffer's bytes is read back, whole frames only.
  pub read_log-Stored :
      (content : Bytes) (rs : List LogRecord)
      → Stored f aes e content rs
      → length content ≤ capacity
      → read_log f aes e content ≡ some (ok rs)
  unfolding read_log
  read_log-Stored content rs s h =
      recover_from-pass (length content) (length content) 0
        (record { buffered = []; rest = content })
        (pass f aes e (length content) 0 (record { buffered = content; rest = [] }))
        (pass-fill (length content) 0 (record { buffered = []; rest = content })
          (record { buffered = content; rest = [] }) (fill_buf-file content h))
      ∙ sym (
          recover_from-pass (length content) (length content) 0
            (record { buffered = content; rest = [] })
            (pass f aes e (length content) 0 (record { buffered = content; rest = [] })) refl)
      ∙ recover_from-Stored (length content) (suc (length content)) 0 content rs s (omega arith)
          (omega (arith, h)) (omega arith)

-- The operating system does what it is asked.
pub record Works (disk : Disk) : Type 0 where
  pub writes : disk.torn ≡ none
  pub syncs : disk.syncs ≡ true
  pub opens : disk.opens ≡ true

flushed-Works :
    (disk : Disk) (bytes : Bytes) (w : WriteAheadLog)
    → disk.torn ≡ none
    → flushed disk bytes w
      ≡ (ok tt, record w { file = w.file ++ w.buffered ++ bytes; buffered = [] })
unfolding flushed
flushed-Works disk bytes w h = rw h refl

sync_all-Works :
    (disk : Disk) (w : WriteAheadLog)
    → disk.syncs ≡ true
    → sync_all disk w ≡ (ok tt, record w { synced = length w.file })
unfolding sync_all
sync_all-Works disk w h = rw h refl

-- From a log that fits the read buffer, of whole frames and, in any order, frames whose length field
-- is intact but whose checksum is not that of their bytes, with up to three bytes of a torn frame at
-- its end, recovery on a disk that works returns the records of the whole frames, encrypted or not,
-- deduplicated.
pub recover_locked-Stored :
    (f : Formats) (aes : Aes) (disk : Disk) (w : WriteAheadLog) (rs : List LogRecord)
    → Reliable f aes
    → Works disk
    → Stored f aes w.encryptor (w.file ++ w.buffered) rs
    → length (w.file ++ w.buffered) ≤ capacity
    → (recover_locked f aes disk w).0 ≡ some (ok (deduplicate_records rs))
unfolding recover_locked deduplicated
recover_locked-Stored f aes disk w rs reliable works s h =
    ap
      (λ (p : Result (Unit {0}) × WriteAheadLog).
        (recover_at f aes disk (and_then p (sync_all disk))).0)
      (flushed-Works disk [] w works.writes)
    ∙ ap (λ (p : Result (Unit {0}) × WriteAheadLog). (recover_at f aes disk p).0)
        (sync_all-Works disk (record w { file = w.file ++ w.buffered ++ []; buffered = [] })
          works.syncs)
    ∙ if_true disk.opens (deduplicated (read_log f aes w.encryptor (w.file ++ w.buffered ++ [])))
        (some (err io)) works.opens
    ∙ ap (λ (b : Bytes). deduplicated (read_log f aes w.encryptor b))
        (append-nil (w.file ++ w.buffered))
    ∙ ap deduplicated (read_log-Stored f aes reliable w.encryptor (w.file ++ w.buffered) rs s h)
