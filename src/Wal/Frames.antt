-- ===== src/Wal/Frames.antt =====
-- What the loop of `recover_locked` in storage/wal.rs reads of a frame that stands in its buffer.
use apex_store.Base.{
  ℕ, ◌+◌, ◌-◌, ◌≤◌, ◌≡◌, refl, sym, ap, ◌∙◌, Bool, true, false, ◌||◌, Option, none, some, [], ◌∷◌,
  ◌++◌, length, take, drop, leb, ltb, if◌then◌else◌, ◌==◌, nat_eq, arith, length-append,
  take-append, drop-append,
}
use apex_store.Base.Bytes.{Bytes}
use apex_store.Base.Words.{le_bytes, of_le_bytes, length-le_bytes, of_le_bytes-le_bytes}
use apex_store.Error.{io}
use apex_store.Encryption.{Aes, Encryptor}
use apex_store.Wal.{Formats, max_wal_record_bytes}
use apex_store.Wal.Recover.{
  Reader, fill_buf, read_exact, Pass, ends, fails, resynced, resync_after_invalid_length, reading,
  checked, read_body, read_frame, pass,
}

pub if_true {ℓ} : {A : Type ℓ} (b : Bool) (x y : A) → b ≡ true → (if b then x else y) ≡ x
if_true b x y h = rw h refl

pub if_false {ℓ} : {A : Type ℓ} (b : Bool) (x y : A) → b ≡ false → (if b then x else y) ≡ y
if_false b x y h = rw h refl

pub fill_buf-full :
    (b : Bytes) (rest : Bytes)
    → 1 ≤ length b
    → fill_buf (record { buffered = b; rest = rest }) ≡ record { buffered = b; rest = rest }
unfolding fill_buf
fill_buf-full [] rest h = ground (arith, h)
fill_buf-full (x ∷ xs) rest h = refl

read_exact-append :
    (n : ℕ) (a b rest : Bytes)
    → n ≡ length a
    → read_exact n (record { buffered = a ++ b; rest = rest })
      ≡ some (a, record { buffered = b; rest = rest })
unfolding read_exact
read_exact-append n a b rest h =
    if_true (leb n (length (a ++ b)))
      (some (take n (a ++ b), record { buffered = drop n (a ++ b); rest = rest })) _ fits
    ∙ ap (λ (k : ℕ). some (take k (a ++ b), record { buffered = drop k (a ++ b); rest = rest })) h
    ∙ ap (λ (t : Bytes). some (t, record { buffered = drop (length a) (a ++ b); rest = rest }))
        (take-append a b)
    ∙ ap (λ (d : Bytes). some (a, record { buffered = d; rest = rest })) (drop-append a b)
  where
    fits : leb n (length (a ++ b)) ≡ true
    fits = ground (arith, h, length-append a b)

reading-append :
    (n : ℕ) (a b rest : Bytes) (p : Pass) (next : Bytes → Reader → Pass)
    → n ≡ length a
    → reading n (record { buffered = a ++ b; rest = rest }) p next
      ≡ next a (record { buffered = b; rest = rest })
unfolding reading
reading-append n a b rest p next h =
    ap
      (λ (o : Option (Bytes × Reader)). elim o [
        | none ↦ p
        | some (bytes, after) ↦ next bytes after
      ])
      (read_exact-append n a b rest h)

read_body-append :
    (f : Formats) (aes : Aes) (e : Encryptor) (length_bytes payload sum b rest : Bytes) (v pos : ℕ)
    → of_le_bytes length_bytes ≡ 1 + length payload
    → length sum ≡ 4
    → read_body f aes e length_bytes pos
        (record { buffered = v ∷ (payload ++ (sum ++ b)); rest = rest })
      ≡ checked f aes e length_bytes
          (v ∷ [])
          payload
          sum
          (pos + of_le_bytes length_bytes + 4)
          (record { buffered = b; rest = rest })
unfolding read_body
read_body-append f aes e length_bytes payload sum b rest v pos h k =
    reading-append 1 (v ∷ []) (payload ++ (sum ++ b)) rest (fails io) _ refl
    ∙ reading-append (of_le_bytes length_bytes - 1) payload (sum ++ b) rest ends _
        (omega (arith, h))
    ∙ reading-append 4 sum b rest ends _ (sym k)

pub pass-frame :
    (f : Formats) (aes : Aes) (e : Encryptor) (file_size pos : ℕ) (payload sum b rest : Bytes)
    (v : ℕ)
    → 1 + length payload ≤ max_wal_record_bytes
    → length sum ≡ 4
    → pos + (1 + length payload) + 8 ≤ file_size
    → pass f aes e file_size pos (record {
      buffered = le_bytes 4 (1 + length payload) ++ (v ∷ (payload ++ (sum ++ b)));
      rest = rest;
    })
      ≡ checked f aes e
          (le_bytes 4 (1 + length payload))
          (v ∷ [])
          payload
          sum
          (pos + 4 + (1 + length payload) + 4)
          (record { buffered = b; rest = rest })
unfolding pass read_frame
pass-frame f aes e file_size pos payload sum b rest v small four fits =
    ap
      (λ (r : Reader).
        if ltb (length r.buffered) 4
        then ends
        else reading 4 r (fails io)
            (λ length_bytes after. read_frame f aes e file_size length_bytes (pos + 4) after))
      (fill_buf-full (len_bytes ++ body) rest (omega (arith, long)))
    ∙ if_false (ltb (length (len_bytes ++ body)) 4) ends _ (ground (arith, long))
    ∙ reading-append 4 len_bytes body rest (fails io) _
        (sym (length-le_bytes 4 (1 + length payload)))
    ∙ if_false
        (of_le_bytes len_bytes == 0
          || ltb max_wal_record_bytes (of_le_bytes len_bytes)
          || ltb file_size (pos + 4 + (1 + (of_le_bytes len_bytes - 1) + 4)))
        (resynced (
          resync_after_invalid_length file_size max_wal_record_bytes (pos + 4)
            (record { buffered = body; rest = rest })))
        (read_body f aes e len_bytes (pos + 4) (record { buffered = body; rest = rest }))
        (good (of_le_bytes len_bytes) value)
    ∙ read_body-append f aes e len_bytes payload sum b rest v (pos + 4) value four
    ∙ ap
        (λ (n : ℕ).
          checked f aes e len_bytes (v ∷ []) payload sum (pos + 4 + n + 4)
            (record { buffered = b; rest = rest }))
        value
  where
    len_bytes : Bytes
    len_bytes = le_bytes 4 (1 + length payload)

    body : Bytes
    body = v ∷ (payload ++ (sum ++ b))

    long : 4 ≤ length (len_bytes ++ body)
    long = omega (arith, length-append len_bytes body, length-le_bytes 4 (1 + length payload))

    value : of_le_bytes len_bytes ≡ 1 + length payload
    value = of_le_bytes-le_bytes 4 (1 + length payload) (omega (arith, small))

    good :
        (n : ℕ)
        → n ≡ 1 + length payload
        → (n == 0 || ltb max_wal_record_bytes n || ltb file_size (pos + 4 + (1 + (n - 1) + 4)))
          ≡ false
    good n h = ground (arith, h, small, fits)
