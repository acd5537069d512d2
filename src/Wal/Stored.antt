-- ===== src/Wal/Stored.antt =====
-- Recovery of storage/wal.rs undoes the writing of its frames.
use apex_store.Base.{
  ℕ, ◌+◌, ◌^◌, ◌<◌, ◌≤◌, ◌≡◌, refl, ap, ◌∙◌, Bool, true, false, Option, none, some, List, [], ◌∷◌,
  ◌++◌, length, ltb, if◌then◌else◌, ◌==◌, nat_eq, arith, length-append, append_assoc, subst,
  nat_beq_iff,
}
use apex_store.Base.Bytes.{Bytes}
use apex_store.Base.Words.{le_bytes, of_le_bytes, length-le_bytes, of_le_bytes-le_bytes}
use apex_store.Error.{Result, ok, err, ◌>>=◌}
use apex_store.Record.{LogRecord}
use apex_store.Encryption.{Aes, Encryptor, encrypt_block, decrypt_for_recovery}
use apex_store.Encryption.Laws.{OpensSealed, decrypt_for_recovery-encrypt_block}
use apex_store.Wal.{
  Formats, with_version, max_wal_record_bytes, coded, payload_of, frame, frame_bytes,
  wal_frame_version_v2, wal_frame_version_v3_encrypted,
}
use apex_store.Wal.Recover.{
  Reader, fill_buf, ends, skips, yields, tolerated, or_fails, deserialized, checked, pass,
}
use apex_store.Wal.Frames.{pass-frame, if_true, if_false}

-- What `postcard`, `crc32fast` and `aes-gcm` document.
pub record Reliable (f : Formats) (aes : Aes) : Type 0 where
  pub decodes :
      (r : LogRecord) (bytes : Bytes) → f.to_bytes r ≡ some bytes → f.from_bytes bytes ≡ some r
  pub sums : (bytes : Bytes) → f.crc32 bytes < 2 ^ 32
  pub opens : OpensSealed aes

-- A log of frames, and the records that were written to it: whole frames, frames whose length field
-- is intact but whose checksum is not that of their bytes, and at the end up to three bytes of a torn
-- length. A frame whose length field is damaged, where the reader looks for the next one, is not one
-- of these.
pub data Stored (f : Formats) (aes : Aes) (e : Encryptor) : Bytes → List LogRecord → Type 0 where
  torn : (t : Bytes) → length t ≤ 3 → Stored f aes e t []
  written :
      (r : LogRecord) (iv : Option Bytes) (bytes b : Bytes) (rs : List LogRecord)
      → ((n : Bytes) → iv ≡ some n → length n ≡ 12)
      → frame f aes e (r, iv) ≡ ok bytes
      → Stored f aes e b rs
      → Stored f aes e (bytes ++ b) (r ∷ rs)
  damaged :
      (payload sum b : Bytes) (v : ℕ) (rs : List LogRecord)
      → length sum ≡ 4
      → (of_le_bytes sum == f.crc32 (le_bytes 4 (1 + length payload) ++ (v ∷ payload))) ≡ false
      → Stored f aes e b rs
      → Stored f aes e (le_bytes 4 (1 + length payload) ++ (v ∷ (payload ++ (sum ++ b)))) rs

-- The checksum's bytes in a frame, where the length does not wrap around.
abbrev sum_of : Formats → Bytes → ℕ → Bytes
sum_of f payload v = le_bytes 4 (f.crc32 (le_bytes 4 (1 + length payload) ++ (v ∷ payload)))

module _ (f : Formats) (aes : Aes) (reliable : Reliable f aes) (e : Encryptor) where
  deserialized-v2 :
      (r : LogRecord) (payload : Bytes) (pos : ℕ) (reader : Reader)
      → f.to_bytes r ≡ some payload
      → deserialized f aes e wal_frame_version_v2 payload pos reader ≡ yields r pos reader
  unfolding deserialized tolerated
  deserialized-v2 r payload pos reader k = ap (tolerated pos reader) (reliable.decodes r payload k)

  deserialized-v3 :
      (r : LogRecord) (serialized payload : Bytes) (pos : ℕ) (reader : Reader)
      → f.to_bytes r ≡ some serialized
      → decrypt_for_recovery aes e payload ≡ ok serialized
      → deserialized f aes e wal_frame_version_v3_encrypted payload pos reader ≡ yields r pos reader
  unfolding deserialized or_fails coded
  deserialized-v3 r serialized payload pos reader k h =
      ap
        (λ (b : Result Bytes).
          or_fails pos reader (b >>= (λ decrypted. coded (f.from_bytes decrypted))))
        h
      ∙ ap (λ (o : Option LogRecord). or_fails pos reader (coded o))
          (reliable.decodes r serialized k)

  -- The payload that a record is written with, taken apart.
  abbrev Written : LogRecord → Bytes → ℕ → Type 0
  Written r payload version =
      (pos : ℕ) (reader : Reader)
      → deserialized f aes e version payload pos reader ≡ yields r pos reader

  encrypted-Written :
      (r : LogRecord) (iv : Option Bytes) (serialized payload : Bytes) (version : ℕ)
      (o : Result Bytes)
      → ((n : Bytes) → iv ≡ some n → length n ≡ 12)
      → f.to_bytes r ≡ some serialized
      → e.enabled ≡ true
      → encrypt_block aes e iv serialized ≡ o
      → with_version wal_frame_version_v3_encrypted o ≡ ok (payload, version)
      → Written r payload version
  encrypted-Written r iv serialized payload version (err error) twelve k on h g = cc g
  encrypted-Written r iv serialized payload version (ok encrypted) twelve k on h g =
      subst (λ (p : Bytes × ℕ). Written r p.0 p.1) (cc g)
        (λ pos reader. deserialized-v3 r serialized encrypted pos reader k (
          decrypt_for_recovery-encrypt_block aes e serialized iv encrypted reliable.opens twelve on
            h))

  payload_of-Written :
      (r : LogRecord) (iv : Option Bytes) (payload : Bytes) (version : ℕ)
      → ((n : Bytes) → iv ≡ some n → length n ≡ 12)
      → payload_of f aes e (r, iv) ≡ ok (payload, version)
      → Written r payload version
  unfolding payload_of coded
  payload_of-Written r iv payload version twelve h = by_bytes (f.to_bytes r) e.enabled refl refl h
    where
      by_bytes :
          (o : Option Bytes) (b : Bool)
          → f.to_bytes r ≡ o
          → e.enabled ≡ b
          → ◌>>=◌ {T = Bytes × ℕ} (coded o) (λ serialized.
            if b
            then with_version wal_frame_version_v3_encrypted (encrypt_block aes e iv serialized)
            else ok (serialized, wal_frame_version_v2))
            ≡ ok (payload, version)
          → Written r payload version
      by_bytes none b k on h = cc h
      by_bytes (some serialized) true k on h =
          encrypted-Written r iv serialized payload version (encrypt_block aes e iv serialized)
            twelve k on refl h
      by_bytes (some serialized) false k off h =
          subst (λ (p : Bytes × ℕ). Written r p.0 p.1) (cc h)
            (λ pos reader. deserialized-v2 r serialized pos reader k)

  -- A frame is its payload's and version's bytes.
  pub frame-split :
      (r : LogRecord × Option Bytes) (bytes : Bytes)
      → frame f aes e r ≡ ok bytes
      → (p : Bytes × ℕ) × (payload_of f aes e r ≡ ok p) × (bytes ≡ frame_bytes f p.0 p.1)
  unfolding frame
  frame-split r bytes h = by_result (payload_of f aes e r) refl h
    where
      by_result :
          (o : Result (Bytes × ℕ))
          → payload_of f aes e r ≡ o
          → (o >>= (λ p. ok (frame_bytes f p.0 p.1))) ≡ ok bytes
          → (p : Bytes × ℕ) × (payload_of f aes e r ≡ ok p) × (bytes ≡ frame_bytes f p.0 p.1)
      by_result (err error) k h = cc h
      by_result (ok p) k h = (p, k, cc h)

  frame_bytes-append :
      (payload b : Bytes) (v : ℕ)
      → 1 + length payload ≤ max_wal_record_bytes
      → frame_bytes f payload v ++ b
        ≡ le_bytes 4 (1 + length payload) ++ (v ∷ (payload ++ (sum_of f payload v ++ b)))
  unfolding frame_bytes
  frame_bytes-append payload b v small =
      ap
        (λ (n : ℕ).
          (le_bytes 4 n ++ (v ∷ (payload ++ le_bytes 4 (f.crc32 (le_bytes 4 n ++ (v ∷ payload))))))
          ++ b)
        (omega (arith, small))
      ∙ append_assoc (le_bytes 4 (1 + length payload)) (v ∷ (payload ++ sum_of f payload v)) b
      ∙ ap (λ (t : Bytes). le_bytes 4 (1 + length payload) ++ (v ∷ t))
          (append_assoc payload (sum_of f payload v) b)

  pub length-laid :
      (n : ℕ) (payload sum : Bytes) (v : ℕ)
      → length sum ≡ 4
      → length (le_bytes 4 n ++ (v ∷ (payload ++ sum))) ≡ length payload + 9
  length-laid n payload sum v four = omega (
    arith,
    four,
    length-append (le_bytes 4 n) (v ∷ (payload ++ sum)),
    length-append payload sum,
    length-le_bytes 4 n,
  )

  pub length-frame_bytes :
      (payload : Bytes) (v : ℕ) → length (frame_bytes f payload v) ≡ length payload + 9
  unfolding frame_bytes
  length-frame_bytes payload v = length-laid _ payload _ v (length-le_bytes 4 _)

  checked_sound :
      (payload : Bytes) (v pos : ℕ) (reader : Reader)
      → checked f aes e
          (le_bytes 4 (1 + length payload))
          (v ∷ [])
          payload
          (sum_of f payload v)
          pos
          reader
        ≡ deserialized f aes e v payload pos reader
  unfolding checked of_le_bytes
  checked_sound payload v pos reader =
      if_true
        (of_le_bytes (sum_of f payload v)
          == f.crc32 (le_bytes 4 (1 + length payload) ++ (v ∷ payload)))
        (deserialized f aes e (of_le_bytes (v ∷ [])) payload pos reader) (skips pos reader) same
      ∙ ap (λ (n : ℕ). deserialized f aes e n payload pos reader) one
    where
      same :
          (of_le_bytes (sum_of f payload v)
            == f.crc32 (le_bytes 4 (1 + length payload) ++ (v ∷ payload)))
          ≡ true
      same = (nat_beq_iff _ _).1 (
          of_le_bytes-le_bytes 4 (f.crc32 (le_bytes 4 (1 + length payload) ++ (v ∷ payload)))
            (reliable.sums _))

      one : of_le_bytes (v ∷ []) ≡ v
      one = omega arith

  -- A written frame yields its record, whatever follows it.
  pub pass-written :
      (r : LogRecord) (iv : Option Bytes) (bytes b rest : Bytes) (file_size pos : ℕ)
      → ((n : Bytes) → iv ≡ some n → length n ≡ 12)
      → frame f aes e (r, iv) ≡ ok bytes
      → pos + length bytes ≤ file_size
      → length bytes ≤ max_wal_record_bytes
      → pass f aes e file_size pos (record { buffered = bytes ++ b; rest = rest })
        ≡ yields r (pos + length bytes) (record { buffered = b; rest = rest })
  pass-written r iv bytes b rest file_size pos twelve h fits small =
      ap (λ (t : Bytes). pass f aes e file_size pos (record { buffered = t; rest = rest }))
        (ap (λ (t : Bytes). t ++ b) split.2 ∙ frame_bytes-append payload b v small')
      ∙ pass-frame f aes e file_size pos payload (sum_of f payload v) b rest v small'
          (length-le_bytes 4 _) (omega (arith, fits, long))
      ∙ checked_sound payload v (pos + 4 + (1 + length payload) + 4)
          (record { buffered = b; rest = rest })
      ∙ payload_of-Written r iv payload v twelve split.1 (pos + 4 + (1 + length payload) + 4)
          (record { buffered = b; rest = rest })
      ∙ ap (λ (n : ℕ). yields r n (record { buffered = b; rest = rest })) (omega (arith, long))
    where
      split :
          (p : Bytes × ℕ) × (payload_of f aes e (r, iv) ≡ ok p) × (bytes ≡ frame_bytes f p.0 p.1)
      split = frame-split (r, iv) bytes h

      payload : Bytes
      payload = split.0.0

      v : ℕ
      v = split.0.1

      long : length bytes ≡ length payload + 9
      long = ap length split.2 ∙ length-frame_bytes payload v

      small' : 1 + length payload ≤ max_wal_record_bytes
      small' = omega (arith, long, small)

  pub pass-damaged :
      (payload sum b rest : Bytes) (v file_size pos : ℕ)
      → length sum ≡ 4
      → (of_le_bytes sum == f.crc32 (le_bytes 4 (1 + length payload) ++ (v ∷ payload))) ≡ false
      → pos + (length payload + 9) ≤ file_size
      → 1 + length payload ≤ max_wal_record_bytes
      → pass f aes e file_size pos (record {
        buffered = le_bytes 4 (1 + length payload) ++ (v ∷ (payload ++ (sum ++ b)));
        rest = rest;
      })
        ≡ skips (pos + (length payload + 9)) (record { buffered = b; rest = rest })
  unfolding checked
  pass-damaged payload sum b rest v file_size pos four bad fits small =
      pass-frame f aes e file_size pos payload sum b rest v small four (omega (arith, fits))
      ∙ if_false (of_le_bytes sum == f.crc32 (le_bytes 4 (1 + length payload) ++ (v ∷ payload)))
          (deserialized f aes e (of_le_bytes (v ∷ [])) payload (pos + 4 + (1 + length payload) + 4)
            (record { buffered = b; rest = rest }))
          (skips (pos + 4 + (1 + length payload) + 4) (record { buffered = b; rest = rest })) bad
      ∙ ap (λ (n : ℕ). skips n (record { buffered = b; rest = rest })) (omega arith)

  pub pass-torn :
      (t : Bytes) (file_size pos : ℕ)
      → length t ≤ 3
      → pass f aes e file_size pos (record { buffered = t; rest = [] }) ≡ ends
  unfolding pass fill_buf
  pass-torn [] file_size pos h = refl
  pass-torn (x ∷ xs) file_size pos h = if_true (ltb (length (x ∷ xs)) 4) ends _ (ground (arith, h))

  pub length-frame :
      (r : LogRecord × Option Bytes) (bytes : Bytes) → frame f aes e r ≡ ok bytes → 9 ≤ length bytes
  length-frame r bytes h =
      let parts = frame-split r bytes h in
      omega (arith, ap length parts.2, length-frame_bytes parts.0.0 parts.0.1)
