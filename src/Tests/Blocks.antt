-- ===== src/Tests/Blocks.antt =====
-- Blocks at concrete inputs.
use apex_store.Base.{
  ℕ, zero, suc, ◌%◌, ◌^◌, ◌≤◌, ◌≡◌, refl, Option, none, some, List, [], ◌∷◌, length, arith,
}
use apex_store.Base.Bytes.{Bytes}
use apex_store.Base.Words.{le_bytes}
use apex_store.Error.{ok}
use apex_store.Block
use apex_store.Block.{Block, add, compress_keys, encode, decode, default_block_size}
use apex_store.Block.Prefix.{shared_prefix_len}
use apex_store.Block.Built.{add_all}
use apex_store.Block.RoundTrip.{length-encode_built, decode-encode_built, decode-compress_keys}
use apex_store.Block.Panics.{compress_keys-panics}

abbrev count_sum : Bytes → ℕ
count_sum bytes = length bytes % 2 ^ 32

abbrev two_entries : List (Bytes × Bytes)
two_entries = (7 ∷ 7 ∷ 1 ∷ [], 5 ∷ []) ∷ (7 ∷ 7 ∷ 2 ∷ [], 6 ∷ 6 ∷ []) ∷ []

abbrev built_block : Block
built_block = record {
  data_bytes = 3 ∷ 0 ∷ 7 ∷ 7 ∷ 1 ∷ 1 ∷ 0 ∷ 5 ∷ 3 ∷ 0 ∷ 7 ∷ 7 ∷ 2 ∷ 2 ∷ 0 ∷ 6 ∷ 6 ∷ [];
  offsets = 0 ∷ 8 ∷ [];
  block_size = 100;
  flags = 0;
}

length-encode_built_example : length (encode count_sum built_block) ≤ 100
unfolding add Block.new le_bytes
length-encode_built_example =
    length-encode_built count_sum 100 two_entries built_block (λ bytes. omega arith) (omega arith)
      (omega arith) refl

decode-encode_built_example :
    decode count_sum (encode count_sum built_block)
    ≡ some (ok (record built_block { block_size = default_block_size }))
unfolding add Block.new le_bytes
decode-encode_built_example =
    decode-encode_built count_sum 100 two_entries built_block (λ bytes. omega arith) (omega arith)
      refl

decode-compress_keys_example :
    (c : Block) × (compress_keys built_block ≡ some c)
    × (decode count_sum (encode count_sum c)
        ≡ some (ok (record built_block { block_size = default_block_size; flags = 1 })))
unfolding add Block.new le_bytes shared_prefix_len
decode-compress_keys_example =
    decode-compress_keys count_sum 100 (7 ∷ 7 ∷ 1 ∷ []) (5 ∷ []) ((7 ∷ 7 ∷ 2 ∷ [], 6 ∷ 6 ∷ []) ∷ [])
      built_block (λ bytes. omega arith) (omega arith) refl (omega arith, tt)
      (omega arith, (omega arith, tt))

-- A key of zeros.
zeros : ℕ → Bytes
zeros zero = []
zeros (suc n) = 0 ∷ zeros n

abbrev long_block : Option Block
long_block = add_all ((zeros 256, []) ∷ (zeros 257, []) ∷ []) (Block.new 4096)

abbrev block_of : Option Block → Block
block_of none = record { data_bytes = []; offsets = []; block_size = 0; flags = 0 }
block_of (some b) = b

compress_keys-panics_example : compress_keys (block_of long_block) ≡ none
unfolding add Block.new le_bytes shared_prefix_len zeros
compress_keys-panics_example =
    compress_keys-panics 4096 (zeros 256) [] ((zeros 257, []) ∷ []) (block_of long_block)
      (omega arith) refl (omega arith, (omega arith, tt)) (λ few. omega (arith, few.0))
