-- ===== src/Block/Prefix.antt =====
-- storage/prefix_compression.rs: the keys of a block by what they share with the key before. `none`
-- is a panic, an index out of range.
use apex_store.Base.{
  ℕ, suc, ◌+◌, ◌%◌, ◌^◌, Option, none, some, List, [], ◌∷◌, ◌++◌, length, take, drop, leb, ltb,
  if◌then◌else◌, ◌==◌, nat_eq,
}
use apex_store.Base.Bytes.{Bytes}
use apex_store.Base.Words.{le_bytes, of_le_bytes}
use apex_store.Error.{Result, ok, err, corrupted_data, invalid_argument}

abbrev pub max_shared_prefix : ℕ
max_shared_prefix = 255

-- `(n as u16).to_le_bytes()` and `(n as u32).to_le_bytes()`
unfoldable pub u16 : ℕ → Bytes
u16 n = le_bytes 2 (n % 2 ^ 16)

unfoldable pub u32 : ℕ → Bytes
u32 n = le_bytes 4 (n % 2 ^ 32)

-- `data[start..start + len]`, and what is done with it.
unfoldable pub sliced {ℓ} : {T : Type ℓ} → ℕ → ℕ → Bytes → (Bytes → Option T) → Option T
sliced start len data_bytes next =
    if leb (start + len) (length data_bytes) then next (take len (drop start data_bytes)) else none

unfoldable pub shared_prefix_len : Bytes → Bytes → ℕ
shared_prefix_len [] b = 0
shared_prefix_len (x ∷ a) [] = 0
shared_prefix_len (x ∷ a) (y ∷ b) =
    let rest = shared_prefix_len a b in if x == y then suc rest else 0

-- A key after another.
unfoldable pub suffixed : Bytes → Bytes → Result Bytes
unfolding shared_prefix_len u16
suffixed prev key =
    let shared = shared_prefix_len prev key in
    if ltb max_shared_prefix shared
    then err invalid_argument
    else ok (shared % 256 ∷ (u16 (length (drop shared key)) ++ drop shared key))

unfoldable pub compressed_key : Bytes → Bytes → Result Bytes
unfolding suffixed u16
compressed_key [] key = ok (u16 (length key) ++ key)
compressed_key (x ∷ prev) key = suffixed (x ∷ prev) key

-- The offset of an entry before those of the entries after it.
unfoldable pub with_offset : ℕ → Option (Result (Bytes × List ℕ)) → Option (Result (Bytes × List ℕ))
with_offset n none = none
with_offset n (some (err e)) = some (err e)
with_offset n (some (ok (bytes, offsets))) = some (ok (bytes, n % 2 ^ 32 ∷ offsets))

-- The value after an entry's key, as the two loops read it.
unfoldable pub read_value {ℓ} : {T : Type ℓ} → ℕ → Bytes → (Bytes → Option T) → Option T
unfolding sliced
read_value start data_bytes next =
    sliced start 2 data_bytes (λ val_len. sliced (start + 2) (of_le_bytes val_len) data_bytes next)

-- A key with its length and then the value.
unfoldable pub read_entry {ℓ} : {T : Type ℓ} → ℕ → Bytes → (Bytes → Bytes → Option T) → Option T
unfolding sliced read_value
read_entry start data_bytes next = sliced start 2 data_bytes (λ key_len.
    sliced (start + 2) (of_le_bytes key_len) data_bytes
      (λ key. read_value (start + 2 + of_le_bytes key_len) data_bytes (next key)))

-- The loop of `compress_block_data`, with the output so far.
unfoldable pub compress_from : Bytes → Bytes → List ℕ → Bytes → Option (Result (Bytes × List ℕ))
unfolding read_entry compressed_key with_offset u16
compress_from data_bytes prev [] out = some (ok (out, []))
compress_from data_bytes prev (o ∷ os) out = read_entry o data_bytes (λ key value.
    elim (compressed_key prev key) [
      | err e ↦ some (err e)
      | ok bytes ↦
          with_offset (length out)
            (compress_from data_bytes key os (out ++ (bytes ++ (u16 (length value) ++ value))))
    ])

unfoldable pub compress_block_data : Bytes → List ℕ → Option (Result (Bytes × List ℕ))
unfolding compress_from
compress_block_data data_bytes offsets = compress_from data_bytes [] offsets []

-- A key and a value in the standard format.
unfoldable pub entry_bytes : Bytes → Bytes → Bytes
unfolding u16
entry_bytes key value = u16 (length key) ++ (key ++ (u16 (length value) ++ value))

-- The loop of `decompress_block_data` after the first entry.
unfoldable pub decompress_from : Bytes → Bytes → List ℕ → Bytes → Option (Result (Bytes × List ℕ))
unfolding sliced read_value entry_bytes with_offset
decompress_from data_bytes prev [] out = some (ok (out, []))
decompress_from data_bytes prev (o ∷ os) out =
    if ltb (length data_bytes) (o + 1 + 2)
    then some (err corrupted_data)
    else sliced o 1 data_bytes (λ shared_byte. sliced (o + 1) 2 data_bytes (λ suffix_len.
      if ltb (length data_bytes) (o + 1 + 2 + of_le_bytes suffix_len + 2)
      then some (err corrupted_data)
      else sliced (o + 1 + 2) (of_le_bytes suffix_len) data_bytes (λ suffix.
        sliced 0 (of_le_bytes shared_byte) prev (λ shared.
          read_value (o + 1 + 2 + of_le_bytes suffix_len) data_bytes (λ value.
            with_offset (length out) (
              decompress_from data_bytes (shared ++ suffix) os
                (out ++ entry_bytes (shared ++ suffix) value)))))))

unfoldable pub decompress_block_data : Bytes → List ℕ → Option (Result (Bytes × List ℕ))
unfolding sliced read_entry entry_bytes with_offset decompress_from
decompress_block_data data_bytes [] = some (ok ([], []))
decompress_block_data data_bytes (o ∷ os) =
    if ltb (length data_bytes) (o + 2)
    then some (err corrupted_data)
    else sliced o 2 data_bytes (λ key_len.
      if ltb (length data_bytes) (o + 2 + of_le_bytes key_len + 2)
      then some (err corrupted_data)
      else read_entry o data_bytes
          (λ key value. with_offset 0 (decompress_from data_bytes key os (entry_bytes key value))))
