-- ===== src/Wal/Ends.antt =====
-- The loop of `recover_locked` in storage/wal.rs ends: every pass that goes on consumes bytes.
use apex_store.Base.{
  ℕ, zero, suc, ◌+◌, ◌-◌, ◌<◌, ◌≤◌, ◌≡◌, refl, ap, Bool, true, false, Option, none, some, List, [],
  ◌∷◌, length, take, drop, leb, ltb, if◌then◌else◌, nat_eq, arith, length-append, length-take,
  length-drop, take-append-drop, leb→le, Bool-cases, inl, inr,
}
use apex_store.Base.Bytes.{Bytes}
use apex_store.Base.Words.{of_le_bytes}
use apex_store.Error.{Result, ok, err, io, ◌>>=◌}
use apex_store.Record.{LogRecord, is_some}
use apex_store.Encryption.{Aes, Encryptor}
use apex_store.Wal.{Formats, Disk, WriteAheadLog, flushed, sync_all, and_then, max_wal_record_bytes}
use apex_store.Wal.Recover.{
  Reader, fill_buf, read_exact, capacity, Pass, ends, fails, skips, yields, resynced,
  resync_after_invalid_length, is_plausible, tolerated, or_fails, deserialized, read_body,
  read_frame, pass, recover_from, read_log, deduplicated, recover_locked, recover_at, reading,
  checked,
}

abbrev pub remaining : Reader → ℕ
remaining r = length r.buffered + length r.rest

length-take-drop : (n : ℕ) (xs : Bytes) → length (take n xs) + length (drop n xs) ≡ length xs
length-take-drop n xs =
    omega (arith, length-append (take n xs) (drop n xs), ap length (take-append-drop n xs))

fill_buf-parts :
    (buffered rest : Bytes)
    → remaining (fill_buf (record { buffered = buffered; rest = rest }))
      ≡ length buffered + length rest
unfolding fill_buf
fill_buf-parts [] rest = omega (arith, length-take-drop capacity rest)
fill_buf-parts (b ∷ bs) rest = refl

pub fill_buf-remaining : (r : Reader) → remaining (fill_buf r) ≡ remaining r
fill_buf-remaining r = fill_buf-parts r.buffered r.rest

-- A read that succeeds leaves `n` bytes fewer.
abbrev pub Consumes : ℕ → ℕ → Option (Bytes × Reader) → Type 0
Consumes n total none = Unit
Consumes n total (some (bytes, r)) = remaining r + n ≡ total

drop-fits : (n : ℕ) (xs : Bytes) → n ≤ length xs → length (drop n xs) + n ≡ length xs
drop-fits n xs h = omega (arith, length-drop n xs)

drop-take-fits :
    (c m : ℕ) (xs : Bytes)
    → m ≤ c
    → m ≤ length xs
    → length (drop m (take c xs)) + length (drop c xs) + m ≡ length xs
drop-take-fits c m xs h k =
    omega (arith, length-drop m (take c xs), length-take c xs, length-drop c xs)

pub read_exact-remaining : (n : ℕ) (r : Reader) → Consumes n (remaining r) (read_exact n r)
unfolding read_exact
read_exact-remaining n r = elim (Bool-cases (leb n (length r.buffered))) [
  | inl whole ↦
      rw whole (omega (arith, drop-fits n r.buffered (leb→le n (length r.buffered) whole)))
  | inr more ↦ rw more (elim (Bool-cases (ltb (length r.rest) (n - length r.buffered))) [
    | inl short ↦ rw short tt
    | inr enough ↦ rw enough (elim (Bool-cases (leb capacity (n - length r.buffered))) [
      | inl direct ↦ rw direct (
          omega (
            arith,
            drop-fits (n - length r.buffered) r.rest (ltb-false r.rest enough),
            leb-false n (length r.buffered) more,
          ))
      | inr small ↦ rw small (
          omega (
            arith,
            drop-take-fits capacity (n - length r.buffered) r.rest (leb-false' small)
                (ltb-false r.rest enough),
            leb-false n (length r.buffered) more,
          ))
    ])
  ])
]
  where
    leb-false : (a b : ℕ) → leb a b ≡ false → b < a
    leb-false a b h = ground arith

    leb-false' : {a b : ℕ} → leb a b ≡ false → b ≤ a
    leb-false' h = ground arith

    ltb-false : (xs : Bytes) → {b : ℕ} → ltb (length xs) b ≡ false → b ≤ length xs
    ltb-false xs h = ground arith

-- A pass that goes on leaves less than `total` bytes.
abbrev pub Shorter : ℕ → Pass → Type 0
Shorter total ends = Unit
Shorter total (fails e) = Unit
Shorter total (skips pos r) = remaining r < total
Shorter total (yields found pos r) = remaining r < total

resync-Shorter :
    (file_size max_scan pos total : ℕ) (r : Reader)
    → remaining r ≤ total
    → Shorter total (resynced (resync_after_invalid_length file_size max_scan pos r))
unfolding resynced resync_after_invalid_length
resync-Shorter file_size zero pos total r h = tt
resync-Shorter file_size (suc max_scan) pos total r h =
    step (read_exact 1 r) (read_exact-remaining 1 r)
      (λ next k. resync-Shorter file_size max_scan (pos + 1) total next k)
  where
    step :
        (o : Option (Bytes × Reader))
        → Consumes 1 (remaining r) o
        → ((next : Reader)
            → remaining next ≤ total
            → Shorter total
                (resynced (resync_after_invalid_length file_size max_scan (pos + 1) next)))
        → Shorter total (
            resynced (elim o [
              | none ↦ none
              | some (byte, after) ↦
                  let next = fill_buf after in
                  elim (is_plausible file_size (pos + 1) next.buffered) [
                    | true ↦ some (pos + 1, next)
                    | false ↦ resync_after_invalid_length file_size max_scan (pos + 1) next
                  ]
            ]))
    step none c again = tt
    step (some (byte, after)) c again =
        elim (is_plausible file_size (pos + 1) (fill_buf after).buffered)
          as (λ (b : Bool). Shorter total (
            resynced (elim b [
              | true ↦ some (pos + 1, fill_buf after)
              | false ↦ resync_after_invalid_length file_size max_scan (pos + 1) (fill_buf after)
            ]))) [
              | true ↦ omega (arith, fill_buf-remaining after, c, h)
              | false ↦ again (fill_buf after) (omega (arith, fill_buf-remaining after, c, h))
            ]

if-Shorter :
    (total : ℕ) (b : Bool) (p q : Pass)
    → Shorter total p
    → Shorter total q
    → Shorter total (if b then p else q)
if-Shorter total true p q h k = h
if-Shorter total false p q h k = k

tolerated-Shorter :
    (total pos : ℕ) (r : Reader) (o : Option LogRecord)
    → remaining r < total
    → Shorter total (tolerated pos r o)
unfolding tolerated
tolerated-Shorter total pos r none h = h
tolerated-Shorter total pos r (some found) h = h

or_fails-Shorter :
    (total pos : ℕ) (r : Reader) (o : Result LogRecord)
    → remaining r < total
    → Shorter total (or_fails pos r o)
unfolding or_fails
or_fails-Shorter total pos r (err e) h = tt
or_fails-Shorter total pos r (ok found) h = h

deserialized-Shorter :
    (f : Formats) (aes : Aes) (e : Encryptor) (version : ℕ) (payload : Bytes) (total pos : ℕ)
    (r : Reader)
    → remaining r < total
    → Shorter total (deserialized f aes e version payload pos r)
unfolding deserialized
deserialized-Shorter f aes e version payload total pos r h =
    search (if-Shorter, tolerated-Shorter, or_fails-Shorter)

reading-Shorter :
    (n total : ℕ) (r : Reader) (p : Pass) (next : Bytes → Reader → Pass)
    → Shorter total p
    → ((bytes : Bytes) (after : Reader)
        → remaining after + n ≡ remaining r
        → Shorter total (next bytes after))
    → Shorter total (reading n r p next)
unfolding reading
reading-Shorter n total r p next h k = by_result (read_exact n r) (read_exact-remaining n r)
  where
    by_result :
        (o : Option (Bytes × Reader))
        → Consumes n (remaining r) o
        → Shorter total (elim o [ none ↦ p | some (bytes, after) ↦ next bytes after ])
    by_result none c = h
    by_result (some (bytes, after)) c = k bytes after c

checked-Shorter :
    (f : Formats) (aes : Aes) (e : Encryptor) (length_bytes version payload checksum : Bytes)
    (pos total : ℕ) (r : Reader)
    → remaining r < total
    → Shorter total (checked f aes e length_bytes version payload checksum pos r)
unfolding checked
checked-Shorter f aes e length_bytes version payload checksum pos total r h =
    search (if-Shorter, deserialized-Shorter)

read_body-Shorter :
    (f : Formats) (aes : Aes) (e : Encryptor) (length_bytes : Bytes) (pos total : ℕ) (r : Reader)
    → remaining r < total
    → Shorter total (read_body f aes e length_bytes pos r)
unfolding read_body
read_body-Shorter f aes e length_bytes pos total r h =
    reading-Shorter 1 total r (fails io) _ tt (λ version r1 one.
      reading-Shorter (of_le_bytes length_bytes - 1) total r1 ends _ tt (λ payload r2 rest.
        reading-Shorter 4 total r2 ends _ tt (λ checksum r3 last.
          checked-Shorter f aes e length_bytes version payload checksum
            (pos + of_le_bytes length_bytes + 4) total r3 (omega (arith, one, rest, last, h)))))

read_frame-Shorter :
    (f : Formats) (aes : Aes) (e : Encryptor) (file_size : ℕ) (length_bytes : Bytes) (pos total : ℕ)
    (r : Reader)
    → remaining r < total
    → Shorter total (read_frame f aes e file_size length_bytes pos r)
unfolding read_frame
read_frame-Shorter f aes e file_size length_bytes pos total r h = search (
  if-Shorter,
  read_body-Shorter,
  resync-Shorter file_size max_wal_record_bytes pos total r (omega (arith, h)),
)

pub pass-Shorter :
    (f : Formats) (aes : Aes) (e : Encryptor) (file_size pos : ℕ) (r : Reader)
    → Shorter (remaining r) (pass f aes e file_size pos r)
unfolding pass
pass-Shorter f aes e file_size pos r =
    if-Shorter (remaining r) (ltb (length (fill_buf r).buffered) 4) ends
      (reading 4 (fill_buf r) (fails io)
        (λ length_bytes after. read_frame f aes e file_size length_bytes (pos + 4) after))
      tt
      (reading-Shorter 4 (remaining r) (fill_buf r) (fails io)
        (λ length_bytes after. read_frame f aes e file_size length_bytes (pos + 4) after) tt
        (λ length_bytes after four.
          read_frame-Shorter f aes e file_size length_bytes (pos + 4) (remaining r) after
            (omega (arith, four, fill_buf-remaining r))))

-- What the loop returns is not lost.
pub recover_from-is_some :
    (f : Formats) (aes : Aes) (e : Encryptor) (file_size fuel pos : ℕ) (r : Reader)
    → remaining r < fuel
    → is_some (recover_from f aes e file_size fuel pos r) ≡ true
unfolding recover_from
recover_from-is_some f aes e file_size zero pos r h = ground (arith, h)
recover_from-is_some f aes e file_size (suc fuel) pos r h =
    goes_on (pass f aes e file_size pos r) (pass-Shorter f aes e file_size pos r)
      (λ pos' r' k. recover_from-is_some f aes e file_size fuel pos' r' k)
  where
    with_record :
        (found : LogRecord) (o : Option (Result (List LogRecord)))
        → is_some o ≡ true
        → is_some (elim o [
          | none ↦ none
          | some result ↦ some (result >>= (λ records. ok (found ∷ records)))
        ])
          ≡ true
    with_record found none k = cc k
    with_record found (some result) k = refl

    goes_on :
        (p : Pass)
        → Shorter (remaining r) p
        → ((pos' : ℕ) (r' : Reader)
            → remaining r' < fuel
            → is_some (recover_from f aes e file_size fuel pos' r') ≡ true)
        → is_some (elim p [
          | ends ↦ some (ok [])
          | fails error ↦ some (err error)
          | skips pos' r' ↦ recover_from f aes e file_size fuel pos' r'
          | yields found pos' r' ↦ elim (recover_from f aes e file_size fuel pos' r') [
            | none ↦ none
            | some result ↦ some (result >>= (λ records. ok (found ∷ records)))
          ]
        ])
          ≡ true
    goes_on ends s again = refl
    goes_on (fails error) s again = refl
    goes_on (skips pos' r') s again = again pos' r' (omega (arith, s, h))
    goes_on (yields found pos' r') s again =
        with_record found (recover_from f aes e file_size fuel pos' r')
          (again pos' r' (omega (arith, s, h)))

deduplicated-is_some :
    (o : Option (Result (List LogRecord))) → is_some o ≡ true → is_some (deduplicated o) ≡ true
unfolding deduplicated
deduplicated-is_some none h = cc h
deduplicated-is_some (some result) h = refl

-- Recovery returns, records or an error, whatever bytes the file has and whatever fails on the disk:
-- one pass of the loop for each byte and one for the end of the file are enough.
pub recover_locked-returns :
    (f : Formats) (aes : Aes) (disk : Disk) (w : WriteAheadLog)
    → is_some (recover_locked f aes disk w).0 ≡ true
unfolding recover_locked read_log
recover_locked-returns f aes disk w = by_result (and_then (flushed disk [] w) (sync_all disk))
  where
    by_result : (p : Result (Unit {0}) × WriteAheadLog) → is_some (recover_at f aes disk p).0 ≡ true
    by_result (err e, w') = refl
    by_result (ok done, w') =
        if_some disk.opens (deduplicated (read_log f aes w'.encryptor w'.file)) (
          deduplicated-is_some (read_log f aes w'.encryptor w'.file) (
            recover_from-is_some f aes w'.encryptor (length w'.file) (suc (length w'.file)) 0
              (record { buffered = []; rest = w'.file }) (omega arith)))
      where
        if_some :
            (b : Bool) (o : Option (Result (List LogRecord)))
            → is_some o ≡ true
            → is_some (if b then o else some (err io)) ≡ true
        if_some true o h = h
        if_some false o h = refl
