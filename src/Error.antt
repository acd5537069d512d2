-- ===== src/Error.antt =====
-- infra/error.rs: the errors, without their message texts, and the `Result` alias with the
-- `?` operator.
use apex_store.Base.{Bool, true, false}

pub data LsmError : Type 0 where
  io codec json_error time : LsmError
  invalid_sstable_format corrupted_data decompression_failed : LsmError
  legacy_encryption_migration_required encryption_key_required : LsmError
  encryption_authentication_failed wal_corruption : LsmError
  not_found compaction_failed lock_poisoned concurrent_modification : LsmError
  invalid_argument : LsmError
  invalid_block_size invalid_cache_size invalid_index_interval invalid_bloom_rate : LsmError
  invalid_memtable_size invalid_compaction_config config_validation : LsmError

pub data Result {ℓ} (T : Type ℓ) : Type ℓ where
  err : LsmError → Result T
  ok : T → Result T

-- `if !test { return Err(e) }`
abbrev pub guard : Bool → LsmError → Result (Unit {0})
guard test e = elim test [ true ↦ ok tt | false ↦ err e ]

-- The `?` operator.
infixl 4 ◌>>=◌ ◌>>◌
abbrev pub ◌>>=◌ {ℓ κ} : {S : Type ℓ} {T : Type κ} → Result S → (S → Result T) → Result T
r >>= rest = elim r [ err e ↦ err e | ok s ↦ rest s ]

abbrev pub ◌>>◌ {κ} : {T : Type κ} → Result (Unit {0}) → Result T → Result T
r >> rest = r >>= (λ done. rest)
