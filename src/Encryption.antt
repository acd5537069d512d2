-- ===== src/Encryption.antt =====
-- storage/encryption.rs: encryption at rest. The `aes-gcm` crate is a record of its two functions on
-- a key and a nonce, and the random nonce is an argument, `none` where the generator fails.
pub mod Laws
use apex_store.Base.{
  ℕ, ◌≡◌, Bool, true, false, Option, none, some, List, [], ◌∷◌, ◌++◌, take, drop, length, ltb,
  if◌then◌else◌,
}
use apex_store.Base.Bytes.{Bytes}
use apex_store.Error.{
  LsmError, Result, ok, err, corrupted_data, compaction_failed, encryption_key_required,
  encryption_authentication_failed, legacy_encryption_migration_required,
}

pub record EncryptionConfig : Type 0 where
  pub key : Bytes
  pub enabled : Bool

-- `Aes256Gcm::encrypt` and `decrypt`.
pub record Aes : Type 0 where
  pub seal : Bytes → Bytes → Bytes → Option Bytes
  pub unseal : Bytes → Bytes → Bytes → Option Bytes

-- The cipher is its key.
pub record Encryptor : Type 0 where
  pub cipher : Option Bytes
  pub enabled : Bool

unfoldable pub new : EncryptionConfig → Encryptor
new config = record {
  cipher = if config.enabled then some config.key else none;
  enabled = config.enabled;
}

unfoldable pub disabled : Encryptor
disabled = record { cipher = none; enabled = false }

unfoldable pub sealed : Bytes → Option Bytes → Result Bytes
sealed iv none = err compaction_failed
sealed iv (some ciphertext) = ok (iv ++ ciphertext)

unfoldable pub encrypt_block : Aes → Encryptor → Option Bytes → Bytes → Result Bytes
unfolding sealed
encrypt_block aes e iv plaintext =
    if e.enabled
    then elim e.cipher [
      | none ↦ err compaction_failed
      | some key ↦ elim iv [
        | none ↦ err compaction_failed
        | some n ↦ sealed n (aes.seal key n plaintext)
      ]
    ]
    else ok plaintext

unfoldable pub unsealed : Option Bytes → Result Bytes
unsealed none = err encryption_authentication_failed
unsealed (some plaintext) = ok plaintext

unfoldable pub decrypt_block : Aes → Encryptor → Bytes → Result Bytes
unfolding unsealed
decrypt_block aes e bytes =
    if e.enabled
    then elim e.cipher [
      | none ↦ err compaction_failed
      | some key ↦
          if ltb (length bytes) 12
          then err corrupted_data
          else unsealed (aes.unseal key (take 12 bytes) (drop 12 bytes))
    ]
    else ok bytes

abbrev pub zero_key : Bytes
zero_key =
    0 ∷ 0 ∷ 0 ∷ 0 ∷ 0 ∷ 0 ∷ 0 ∷ 0 ∷ 0 ∷ 0 ∷ 0 ∷ 0 ∷ 0 ∷ 0 ∷ 0 ∷ 0 ∷ 0 ∷ 0 ∷ 0 ∷ 0 ∷ 0 ∷ 0 ∷ 0 ∷ 0
    ∷ 0 ∷ 0 ∷ 0 ∷ 0 ∷ 0 ∷ 0 ∷ 0 ∷ 0 ∷ []

abbrev pub legacy : Encryptor
legacy = record { cipher = some zero_key; enabled = true }

-- The zero key is tried only to tell what went wrong.
unfoldable pub diagnosed : Aes → Bytes → Result Bytes → Result Bytes
unfolding decrypt_block
diagnosed aes bytes (ok plaintext) = ok plaintext
diagnosed aes bytes (err e) = elim (decrypt_block aes legacy bytes) [
  | ok plaintext ↦ err legacy_encryption_migration_required
  | err other ↦ err e
]

unfoldable pub decrypt_for_recovery : Aes → Encryptor → Bytes → Result Bytes
unfolding diagnosed decrypt_block
decrypt_for_recovery aes e bytes =
    diagnosed aes bytes
      (if e.enabled then decrypt_block aes e bytes else err encryption_key_required)
