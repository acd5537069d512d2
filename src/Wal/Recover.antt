-- ===== src/Wal/Recover.antt =====
-- Recovery of storage/wal.rs: the `BufReader`, a frame of the loop, the search for the next frame
-- after a bad length, and the loop. The file is read without an error: neither a failing read nor a
-- failing metadata call is modelled.
use apex_store.Base.{
  ℕ, zero, suc, ◌+◌, ◌-◌, Bool, true, false, ◌&&◌, ◌||◌, Option, none, some, List, [], ◌∷◌, ◌++◌,
  length, take, drop, leb, ltb, if◌then◌else◌, ◌==◌, nat_eq,
}
use apex_store.Base.Bytes.{Bytes}
use apex_store.Base.Words.{of_le_bytes}
use apex_store.Error.{LsmError, Result, ok, err, io, ◌>>=◌}
use apex_store.Record.{LogRecord}
use apex_store.Encryption.{Aes, Encryptor, decrypt_for_recovery}
use apex_store.Wal.{
  Formats, coded, from_v0, from_v1, max_wal_record_bytes, wal_frame_version_v0,
  wal_frame_version_v1, wal_frame_version_v2, wal_frame_version_v3_encrypted, WriteAheadLog, Disk,
  flushed, sync_all, and_then,
}
use apex_store.Wal.Dedup.{deduplicate_records}

-- The capacity of a `BufReader`.
abbrev pub capacity : ℕ
capacity = 8192

pub record Reader : Type 0 where
  pub buffered : Bytes
  pub rest : Bytes

unfoldable pub fill_buf : Reader → Reader
fill_buf r = elim r.buffered [
  | [] ↦ record { buffered = take capacity r.rest; rest = drop capacity r.rest }
  | b ∷ bs ↦ r
]

-- `read_exact`, `none` at the end of the file. A read as long as the buffer goes past it.
unfoldable pub read_exact : ℕ → Reader → Option (Bytes × Reader)
read_exact n r =
    if leb n (length r.buffered)
    then some (take n r.buffered, record { buffered = drop n r.buffered; rest = r.rest })
    else (let m = n - length r.buffered in
        if ltb (length r.rest) m
        then none
        else if leb capacity m
        then some (r.buffered ++ take m r.rest, record { buffered = []; rest = drop m r.rest })
        else some (
          r.buffered ++ take m r.rest,
          record { buffered = drop m (take capacity r.rest); rest = drop capacity r.rest },
        ))

abbrev pub min_length : ℕ
min_length = 35

-- Do the next bytes look like a frame that fits in the file?
unfoldable pub is_plausible : ℕ → ℕ → Bytes → Bool
is_plausible file_size pos buf =
    let candidate = of_le_bytes (take 4 buf) in
    let version = of_le_bytes (take 1 (drop 4 buf)) in
    leb 5 (length buf)
    && (leb min_length candidate
        && (leb candidate max_wal_record_bytes
            && (leb (pos + 4 + candidate) file_size
                && (version == wal_frame_version_v0
                    || (version == wal_frame_version_v1
                        || (version == wal_frame_version_v2
                            || version == wal_frame_version_v3_encrypted))))))

-- The position and the reader before a plausible frame, `none` where there is none in `max_scan` bytes.
unfoldable pub resync_after_invalid_length : ℕ → ℕ → ℕ → Reader → Option (ℕ × Reader)
unfolding is_plausible read_exact fill_buf
resync_after_invalid_length file_size zero pos r = none
resync_after_invalid_length file_size (suc max_scan) pos r = elim (read_exact 1 r) [
  | none ↦ none
  | some (byte, after) ↦
      let next = fill_buf after in
      elim (is_plausible file_size (pos + 1) next.buffered) [
        | true ↦ some (pos + 1, next)
        | false ↦ resync_after_invalid_length file_size max_scan (pos + 1) next
      ]
]

-- What a pass of the loop does: leaves it, returns an error, skips a frame or yields a record.
pub data Pass : Type 0 where
  ends : Pass
  fails : LsmError → Pass
  skips : ℕ → Reader → Pass
  yields : LogRecord → ℕ → Reader → Pass

unfoldable pub resynced : Option (ℕ × Reader) → Pass
resynced none = ends
resynced (some (pos, r)) = skips pos r

-- A record that does not decode is skipped.
unfoldable pub tolerated : ℕ → Reader → Option LogRecord → Pass
tolerated pos r none = skips pos r
tolerated pos r (some found) = yields found pos r

unfoldable pub or_fails : ℕ → Reader → Result LogRecord → Pass
or_fails pos r (err e) = fails e
or_fails pos r (ok found) = yields found pos r

-- The match on the version.
unfoldable pub deserialized : Formats → Aes → Encryptor → ℕ → Bytes → ℕ → Reader → Pass
unfolding tolerated or_fails coded decrypt_for_recovery
deserialized f aes e version payload pos r =
    if version == wal_frame_version_v0
    then tolerated pos r
        (elim (f.from_bytes_v0 payload) [ none ↦ none | some v0 ↦ some (from_v0 v0) ])
    else if version == wal_frame_version_v1
    then tolerated pos r
        (elim (f.from_bytes_v1 payload) [ none ↦ none | some v1 ↦ some (from_v1 v1) ])
    else if version == wal_frame_version_v2
    then tolerated pos r (f.from_bytes payload)
    else if version == wal_frame_version_v3_encrypted
    then or_fails pos r
        (decrypt_for_recovery aes e payload >>= (λ decrypted. coded (f.from_bytes decrypted)))
    else skips pos r

-- A read, with what the loop does at the end of the file and after it.
unfoldable pub reading : ℕ → Reader → Pass → (Bytes → Reader → Pass) → Pass
unfolding read_exact
reading n r at_end next = elim (read_exact n r) [
  | none ↦ at_end
  | some (bytes, after) ↦ next bytes after
]

-- The comparison of the checksums.
unfoldable pub checked :
    Formats → Aes → Encryptor → Bytes → Bytes → Bytes → Bytes → ℕ → Reader → Pass
unfolding deserialized
checked f aes e length_bytes version payload checksum pos r =
    if of_le_bytes checksum == f.crc32 (length_bytes ++ (version ++ payload))
    then deserialized f aes e (of_le_bytes version) payload pos r
    else skips pos r

-- From the version byte to the end of the frame.
unfoldable pub read_body : Formats → Aes → Encryptor → Bytes → ℕ → Reader → Pass
unfolding reading checked
read_body f aes e length_bytes pos r = reading 1 r (fails io) (λ version r1.
    reading (of_le_bytes length_bytes - 1) r1 ends (λ payload r2. reading 4 r2 ends (λ checksum r3.
      checked f aes e length_bytes version payload checksum (pos + of_le_bytes length_bytes + 4)
        r3)))

-- `pos` is past the length.
unfoldable pub read_frame : Formats → Aes → Encryptor → ℕ → Bytes → ℕ → Reader → Pass
unfolding resynced resync_after_invalid_length read_body
read_frame f aes e file_size length_bytes pos r =
    let len = of_le_bytes length_bytes in
    if len == 0 || ltb max_wal_record_bytes len || ltb file_size (pos + (1 + (len - 1) + 4))
    then resynced (resync_after_invalid_length file_size max_wal_record_bytes pos r)
    else read_body f aes e length_bytes pos r

unfoldable pub pass : Formats → Aes → Encryptor → ℕ → ℕ → Reader → Pass
unfolding fill_buf reading read_frame
pass f aes e file_size pos r =
    let r' = fill_buf r in
    if ltb (length r'.buffered) 4
    then ends
    else reading 4 r' (fails io)
        (λ length_bytes after. read_frame f aes e file_size length_bytes (pos + 4) after)

-- The loop, `none` where the fuel runs out.
unfoldable pub recover_from :
    Formats → Aes → Encryptor → ℕ → ℕ → ℕ → Reader → Option (Result (List LogRecord))
unfolding pass
recover_from f aes e file_size zero pos r = none
recover_from f aes e file_size (suc fuel) pos r = elim (pass f aes e file_size pos r) [
  | ends ↦ some (ok [])
  | fails error ↦ some (err error)
  | skips pos' r' ↦ recover_from f aes e file_size fuel pos' r'
  | yields found pos' r' ↦ elim (recover_from f aes e file_size fuel pos' r') [
    | none ↦ none
    | some result ↦ some (result >>= (λ records. ok (found ∷ records)))
  ]
]

-- The file is read through a handle of its own, with one pass for each byte and one for its end.
unfoldable pub read_log : Formats → Aes → Encryptor → Bytes → Option (Result (List LogRecord))
unfolding recover_from
read_log f aes e content =
    recover_from f aes e (length content) (suc (length content)) 0
      (record { buffered = []; rest = content })

unfoldable pub deduplicated : Option (Result (List LogRecord)) → Option (Result (List LogRecord))
unfolding deduplicate_records
deduplicated none = none
deduplicated (some result) = some (result >>= (λ records. ok (deduplicate_records records)))

abbrev pub recover_at :
    Formats
    → Aes
    → Disk
    → Result (Unit {0}) × WriteAheadLog
    → Option (Result (List LogRecord)) × WriteAheadLog
unfolding deduplicated read_log
recover_at f aes disk (err e, w) = (some (err e), w)
recover_at f aes disk (ok done, w) =
    (if disk.opens then deduplicated (read_log f aes w.encryptor w.file) else some (err io), w)

-- `recover` is this too.
unfoldable pub recover_locked :
    Formats → Aes → Disk → WriteAheadLog → Option (Result (List LogRecord)) × WriteAheadLog
unfolding recover_at flushed sync_all
recover_locked f aes disk w = recover_at f aes disk (and_then (flushed disk [] w) (sync_all disk))
