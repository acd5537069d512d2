-- ===== src/Encryption/Laws.antt =====
-- Round trips of storage/encryption.rs.
use apex_store.Base.{
  ◌≡◌, refl, ap, ◌∙◌, subst, Bool, true, false, Option, none, some, ◌++◌, take, drop, length, arith,
  ltb, take-append, drop-append, length-append, if◌then◌else◌, ◌≢◌, ◌↔◌,
}
use apex_store.Base.Bytes.{Bytes}
use apex_store.Error.{
  Result, ok, err, legacy_encryption_migration_required, encryption_key_required,
}
use apex_store.Encryption.{
  EncryptionConfig, Aes, Encryptor, new, encrypt_block, sealed, decrypt_block, decrypt_for_recovery,
  diagnosed, legacy, unsealed,
}

-- What AES-GCM documents: what was sealed under a key and a nonce is opened by the same.
abbrev pub OpensSealed : Aes → Type 0
OpensSealed aes =
    (key iv plaintext ciphertext : Bytes)
    → aes.seal key iv plaintext ≡ some ciphertext
    → aes.unseal key iv ciphertext ≡ some plaintext

split_nonce :
    (iv c : Bytes)
    → length iv ≡ 12
    → (take 12 (iv ++ c) ≡ iv) × (drop 12 (iv ++ c) ≡ c) × (ltb (length (iv ++ c)) 12 ≡ false)
split_nonce iv c h = (
  ap (λ n. take n (iv ++ c)) (h') ∙ take-append iv c,
  ap (λ n. drop n (iv ++ c)) (h') ∙ drop-append iv c,
  ground (arith, length-append iv c),
)
  where
    h' : 12 ≡ length iv
    h' = omega (arith, h)

decrypt-sealed :
    (aes : Aes) (key iv plaintext : Bytes) (o : Option Bytes) (bytes : Bytes)
    → OpensSealed aes
    → length iv ≡ 12
    → aes.seal key iv plaintext ≡ o
    → sealed iv o ≡ ok bytes
    → decrypt_block aes (record { cipher = some key; enabled = true }) bytes ≡ ok plaintext
unfolding sealed decrypt_block
decrypt-sealed aes key iv plaintext none bytes opens twelve s e = cc e
decrypt-sealed aes key iv plaintext (some c) bytes opens twelve s e =
    subst
      (λ (b : Bytes).
        decrypt_block aes (record { cipher = some key; enabled = true }) b ≡ ok plaintext)
      whole
      (unfold decrypt_block in
        rw (parts.2) (rw (parts.0, parts.1) (rw (opens key iv plaintext c s) refl)))
  where
    whole : iv ++ c ≡ bytes
    whole = cc e

    parts : (take 12 (iv ++ c) ≡ iv) × (drop 12 (iv ++ c) ≡ c) × (ltb (length (iv ++ c)) 12 ≡ false)
    parts = split_nonce iv c twelve

decrypt-encrypt-enabled :
    (aes : Aes) (key plaintext : Bytes) (iv : Option Bytes) (bytes : Bytes)
    → OpensSealed aes
    → ((n : Bytes) → iv ≡ some n → length n ≡ 12)
    → encrypt_block aes (record { cipher = some key; enabled = true }) iv plaintext ≡ ok bytes
    → decrypt_block aes (record { cipher = some key; enabled = true }) bytes ≡ ok plaintext
unfolding encrypt_block
decrypt-encrypt-enabled aes key plaintext none bytes opens twelve e = cc e
decrypt-encrypt-enabled aes key plaintext (some n) bytes opens twelve e =
    decrypt-sealed aes key n plaintext (aes.seal key n plaintext) bytes opens (twelve n refl) refl e

decrypt-encrypt-by :
    (aes : Aes) (cipher : Option Bytes) (enabled : Bool) (plaintext : Bytes) (iv : Option Bytes)
    (bytes : Bytes)
    → OpensSealed aes
    → ((n : Bytes) → iv ≡ some n → length n ≡ 12)
    → encrypt_block aes (record { cipher = cipher; enabled = enabled }) iv plaintext ≡ ok bytes
    → decrypt_block aes (record { cipher = cipher; enabled = enabled }) bytes ≡ ok plaintext
unfolding encrypt_block decrypt_block
decrypt-encrypt-by aes (some key) true plaintext iv bytes opens twelve e =
    decrypt-encrypt-enabled aes key plaintext iv bytes opens twelve e
decrypt-encrypt-by aes none true plaintext iv bytes opens twelve e = cc e
decrypt-encrypt-by aes cipher false plaintext iv bytes opens twelve e = cc e

pub decrypt-encrypt_block :
    (aes : Aes) (e : Encryptor) (plaintext : Bytes) (iv : Option Bytes) (bytes : Bytes)
    → OpensSealed aes
    → ((n : Bytes) → iv ≡ some n → length n ≡ 12)
    → encrypt_block aes e iv plaintext ≡ ok bytes
    → decrypt_block aes e bytes ≡ ok plaintext
decrypt-encrypt_block aes e = decrypt-encrypt-by aes e.cipher e.enabled

-- With encryption on, what was encrypted is recovered.
pub decrypt_for_recovery-encrypt_block :
    (aes : Aes) (e : Encryptor) (plaintext : Bytes) (iv : Option Bytes) (bytes : Bytes)
    → OpensSealed aes
    → ((n : Bytes) → iv ≡ some n → length n ≡ 12)
    → e.enabled ≡ true
    → encrypt_block aes e iv plaintext ≡ ok bytes
    → decrypt_for_recovery aes e bytes ≡ ok plaintext
unfolding decrypt_for_recovery diagnosed
decrypt_for_recovery-encrypt_block aes e plaintext iv bytes opens twelve on h =
    ap
      (λ (b : Bool).
        diagnosed aes bytes (if b then decrypt_block aes e bytes else err encryption_key_required))
      on
    ∙ ap (diagnosed aes bytes) (decrypt-encrypt_block aes e plaintext iv bytes opens twelve h)

-- `decrypt_block` has no migration error.
decrypt_block-error :
    (aes : Aes) (e : Encryptor) (bytes : Bytes)
    → decrypt_block aes e bytes ≢ err legacy_encryption_migration_required
unfolding decrypt_block unsealed
decrypt_block-error aes e bytes = ground arith

diagnosed-ok :
    (aes : Aes) (bytes p : Bytes) (r : Result Bytes) → diagnosed aes bytes r ≡ ok p → r ≡ ok p
unfolding diagnosed
diagnosed-ok aes bytes p (ok q) h = h
diagnosed-ok aes bytes p (err error) h = ground (arith, h)

diagnosed-legacy :
    (aes : Aes) (bytes : Bytes) (r : Result Bytes)
    → r ≢ err legacy_encryption_migration_required
    → diagnosed aes bytes r ≡ err legacy_encryption_migration_required
    → (q : Bytes) × (decrypt_block aes legacy bytes ≡ ok q)
unfolding diagnosed
diagnosed-legacy aes bytes (ok q) n h = cc h
diagnosed-legacy aes bytes (err error) n h = by_legacy (decrypt_block aes legacy bytes) refl
  where
    by_legacy :
        (r : Result Bytes)
        → decrypt_block aes legacy bytes ≡ r
        → (q : Bytes) × (decrypt_block aes legacy bytes ≡ ok q)
    by_legacy (ok q) k = (q, k)
    by_legacy (err other) k = ground (arith, k, h, n)

-- A block is recovered exactly where encryption is on and its key opens the block, as it is opened
-- elsewhere: the zero key never gives its plaintext away. The migration error is returned only where
-- the zero key opens the block.
pub decrypt_for_recovery_iff :
    (aes : Aes) (e : Encryptor) (bytes p : Bytes)
    → ((decrypt_for_recovery aes e bytes ≡ ok p)
        ↔ ((e.enabled ≡ true) × (decrypt_block aes e bytes ≡ ok p)))
      × (decrypt_for_recovery aes e bytes ≡ err legacy_encryption_migration_required
          → (q : Bytes) × (decrypt_block aes legacy bytes ≡ ok q))
unfolding decrypt_for_recovery diagnosed
decrypt_for_recovery_iff aes e bytes p = by_switch e.enabled
  where
    by_switch :
        (b : Bool)
        → ((diagnosed aes bytes
                (if b then decrypt_block aes e bytes else err encryption_key_required)
              ≡ ok p)
            ↔ ((b ≡ true) × (decrypt_block aes e bytes ≡ ok p)))
          × (diagnosed aes bytes
                  (if b then decrypt_block aes e bytes else err encryption_key_required)
                ≡ err legacy_encryption_migration_required
              → (q : Bytes) × (decrypt_block aes legacy bytes ≡ ok q))
    by_switch true = (
      (
        (λ h. (refl, diagnosed-ok aes bytes p (decrypt_block aes e bytes) h)),
        (λ h. ap (diagnosed aes bytes) h.1),
      ),
      diagnosed-legacy aes bytes (decrypt_block aes e bytes) (decrypt_block-error aes e bytes),
    )
    by_switch false = (
      ((λ h. cc (diagnosed-ok aes bytes p (err encryption_key_required) h)), (λ h. cc h.0)),
      diagnosed-legacy aes bytes (err encryption_key_required) (ground arith),
    )

-- Whatever a configuration encrypts, with encryption on or off, it decrypts to the same bytes, if the
-- cipher opens what it sealed and the generator's nonces have 12 bytes.
pub decrypt-encrypt :
    (aes : Aes) (config : EncryptionConfig) (plaintext : Bytes) (iv : Option Bytes) (bytes : Bytes)
    → OpensSealed aes
    → ((n : Bytes) → iv ≡ some n → length n ≡ 12)
    → encrypt_block aes (new config) iv plaintext ≡ ok bytes
    → decrypt_block aes (new config) bytes ≡ ok plaintext
decrypt-encrypt aes config plaintext iv bytes opens twelve e =
    decrypt-encrypt_block aes (new config) plaintext iv bytes opens twelve e
