-- ===== src/Block/Encoded.antt =====
-- `decode` of storage/block.rs reads what `encode` wrote.
use apex_store.Base.{
  ℕ, ◌+◌, ◌-◌, ◌*◌, ◌^◌, ◌<◌, ◌≡◌, refl, sym, ap, ◌∙◌, Bool, true, false, Option, none, some, List,
  [], ◌∷◌, ◌++◌, length, take, drop, ltb, if◌then◌else◌, ◌==◌, nat_eq, arith, length-append,
  take-append, drop-append, append_assoc, append-nil, All, nat_beq_iff,
}
use apex_store.Base.Bytes.{Bytes}
use apex_store.Base.Words.{le_bytes, of_le_bytes, length-le_bytes, of_le_bytes-le_bytes}
use apex_store.Error.{Result, err, corrupted_data}
use apex_store.Block.{Block, words, body, encode, read_words, decoded, split_offsets, decode}
use apex_store.Block.Prefix.{u32, sliced}
use apex_store.Block.Layout.{length-u32, of_le_bytes-u32, sliced-append}

abbrev pub FitsWord : ℕ → Type 0
FitsWord n = n < 2 ^ 32

pub length-words : (ns : List ℕ) → length (words ns) ≡ length ns * 4
unfolding words
length-words [] = refl
length-words (n ∷ ns) =
    omega (arith, length-append (u32 n) (words ns), length-u32 n, length-words ns)

read_words-words :
    (ns : List ℕ) (rest : Bytes)
    → All FitsWord ns
    → read_words (length ns) (words ns ++ rest) ≡ some ns
unfolding read_words words
read_words-words [] rest h = refl
read_words-words (n ∷ ns) rest h =
    sliced-append 0 4 (u32 n ++ words ns ++ rest) [] (u32 n) (words ns ++ rest) more
      (append_assoc (u32 n) (words ns) rest) refl (sym (length-u32 n))
    ∙ ap (λ (b : Bytes). with_first (u32 n) (read_words (length ns) b)) past
    ∙ ap (with_first (u32 n)) (read_words-words ns rest h.1)
    ∙ ap (λ (m : ℕ). some (m ∷ ns)) (of_le_bytes-u32 n h.0)
  where
    with_first : Bytes → Option (List ℕ) → Option (List ℕ)
    with_first word o = elim o [ none ↦ none | some ns ↦ some (of_le_bytes word ∷ ns) ]

    more : Bytes → Option (List ℕ)
    more word = with_first word (read_words (length ns) (drop 4 (u32 n ++ words ns ++ rest)))

    past : drop 4 (u32 n ++ words ns ++ rest) ≡ words ns ++ rest
    past =
        ap (drop 4) (append_assoc (u32 n) (words ns) rest)
        ∙ ap (λ (m : ℕ). drop m (u32 n ++ (words ns ++ rest))) (sym (length-u32 n))
        ∙ drop-append (u32 n) (words ns ++ rest)

of_le_bytes-one : (n : ℕ) → of_le_bytes (n ∷ []) ≡ n
unfolding of_le_bytes
of_le_bytes-one n = omega arith

module _ (crc32 : Bytes → ℕ) (sums : (bytes : Bytes) → crc32 bytes < 2 ^ 32) (b : Block) where
  -- After the checksum was read, and after the flags were.
  abbrev after_flags : ℕ → Bytes → Bytes → Option (Result Block)
  after_flags n without flags =
      sliced (n - 1 - 4) 4 without
        (λ count. split_offsets without (n - 1 - 4) (of_le_bytes count) (of_le_bytes flags))

  abbrev after_checksum : ℕ → Bytes → Bytes → Option (Result Block)
  after_checksum n without stored =
      if of_le_bytes stored == crc32 without
      then sliced (n - 1) 1 without (after_flags n without)
      else some (err corrupted_data)

  -- The bytes that precede the flags' and the counter's.
  body-parts :
      body b ≡ b.data_bytes ++ (words b.offsets ++ (u32 (length b.offsets) ++ b.flags ∷ []))
  unfolding body
  body-parts = refl

  length-body : length (body b) ≡ length b.data_bytes + length b.offsets * 4 + 5
  length-body =
      ap length body-parts
      ∙ omega (
        arith,
        length-append b.data_bytes (words b.offsets ++ (u32 (length b.offsets) ++ b.flags ∷ [])),
        length-append (words b.offsets) (u32 (length b.offsets) ++ b.flags ∷ []),
        length-append (u32 (length b.offsets)) (b.flags ∷ []),
        length-words b.offsets,
        length-u32 (length b.offsets),
      )

  split_offsets-body :
      (stop : ℕ)
      → stop ≡ length b.data_bytes + length b.offsets * 4
      → All FitsWord b.offsets
      → split_offsets (body b) stop (length b.offsets) b.flags
        ≡ decoded b.data_bytes b.offsets b.flags
  unfolding split_offsets
  split_offsets-body stop h words_fit =
      ap (λ (t : Bool). if t then none else with_offsets (stop - length b.offsets * 4) (body b))
        fits
      ∙ ap (λ (n : ℕ). with_offsets n (body b)) start
      ∙ ap (with_offsets (length b.data_bytes)) body-parts
      ∙ ap
          (λ (t : Bytes).
            found (read_words (length b.offsets) t)
              (take (length b.data_bytes) (b.data_bytes ++ tail)))
          (drop-append b.data_bytes tail)
      ∙ ap (λ (o : Option (List ℕ)). found o (take (length b.data_bytes) (b.data_bytes ++ tail)))
          (read_words-words b.offsets (u32 (length b.offsets) ++ b.flags ∷ []) words_fit)
      ∙ ap (λ (t : Bytes). decoded t b.offsets b.flags) (take-append b.data_bytes tail)
    where
      tail : Bytes
      tail = words b.offsets ++ (u32 (length b.offsets) ++ b.flags ∷ [])

      found : Option (List ℕ) → Bytes → Option (Result Block)
      found o raw_data = elim o [ none ↦ none | some offsets ↦ decoded raw_data offsets b.flags ]

      with_offsets : ℕ → Bytes → Option (Result Block)
      with_offsets n bytes = found (read_words (length b.offsets) (drop n bytes)) (take n bytes)

      fits : ltb stop (length b.offsets * 4) ≡ false
      fits = ground (arith, h)

      start : stop - length b.offsets * 4 ≡ length b.data_bytes
      start = omega (arith, h)

  after_checksum-body :
      All FitsWord b.offsets
      → length b.offsets < 2 ^ 32
      → sliced (length (body b) - 1) 1 (body b) (after_flags (length (body b)) (body b))
        ≡ decoded b.data_bytes b.offsets b.flags
  after_checksum-body words_fit count_fits =
      sliced-append (length (body b) - 1) 1 (body b)
        (b.data_bytes ++ (words b.offsets ++ u32 (length b.offsets))) (b.flags ∷ []) []
        (after_flags (length (body b)) (body b)) (body-parts ∙ simp append_assoc refl)
        (omega (
          arith,
          length-body,
          length-append b.data_bytes (words b.offsets ++ u32 (length b.offsets)),
          length-append (words b.offsets) (u32 (length b.offsets)),
          length-words b.offsets,
          length-u32 (length b.offsets),
        ))
        refl
      ∙ sliced-append (length (body b) - 1 - 4) 4 (body b) (b.data_bytes ++ words b.offsets)
          (u32 (length b.offsets)) (b.flags ∷ [])
          (λ count.
            split_offsets (body b) (length (body b) - 1 - 4) (of_le_bytes count)
              (of_le_bytes (b.flags ∷ [])))
          (body-parts ∙ simp append_assoc refl)
          (omega (
            arith,
            length-body,
            length-append b.data_bytes (words b.offsets),
            length-words b.offsets,
          ))
          (sym (length-u32 (length b.offsets)))
      ∙ ap
          (λ (n : ℕ).
            split_offsets (body b) (length (body b) - 1 - 4) n (of_le_bytes (b.flags ∷ [])))
          (of_le_bytes-u32 (length b.offsets) count_fits)
      ∙ ap (split_offsets (body b) (length (body b) - 1 - 4) (length b.offsets))
          (of_le_bytes-one b.flags)
      ∙ split_offsets-body (length (body b) - 1 - 4) (omega (arith, length-body)) words_fit

  encode-parts : encode crc32 b ≡ body b ++ le_bytes 4 (crc32 (body b))
  unfolding encode
  encode-parts = refl

  pub length-encode : length (encode crc32 b) ≡ length b.data_bytes + length b.offsets * 4 + 9
  length-encode =
      ap length encode-parts
      ∙ omega (
        arith,
        length-append (body b) (le_bytes 4 (crc32 (body b))),
        length-body,
        length-le_bytes 4 (crc32 (body b)),
      )

  pub decode-encode_block :
      All FitsWord b.offsets
      → length b.offsets < 2 ^ 32
      → decode crc32 (encode crc32 b) ≡ decoded b.data_bytes b.offsets b.flags
  unfolding decode
  decode-encode_block words_fit count_fits =
      ap (λ (t : Bool). if t then some (err corrupted_data) else read (length whole - 4) whole) long
      ∙ ap (λ (n : ℕ). read n whole) start
      ∙ sliced-append (length (body b)) 4 whole (body b) (le_bytes 4 (crc32 (body b))) []
          (after_checksum (length (body b)) (take (length (body b)) whole))
          (encode-parts
            ∙ ap (λ (t : Bytes). body b ++ t) (sym (append-nil (le_bytes 4 (crc32 (body b))))))
          refl (sym (length-le_bytes 4 (crc32 (body b))))
      ∙ ap (λ (t : Bytes). after_checksum (length (body b)) t (le_bytes 4 (crc32 (body b)))) taken
      ∙ ap
          (λ (t : Bool).
            if t
            then sliced (length (body b) - 1) 1 (body b) (after_flags (length (body b)) (body b))
            else some (err corrupted_data))
          same
      ∙ after_checksum-body words_fit count_fits
    where
      whole : Bytes
      whole = encode crc32 b

      read : ℕ → Bytes → Option (Result Block)
      read n bytes = sliced n 4 bytes (after_checksum n (take n bytes))

      long : ltb (length (encode crc32 b)) 9 ≡ false
      long = ground (arith, length-encode)

      start : length (encode crc32 b) - 4 ≡ length (body b)
      start = omega (arith, length-encode, length-body)

      taken : take (length (body b)) (encode crc32 b) ≡ body b
      taken =
          ap (take (length (body b))) encode-parts
          ∙ take-append (body b) (le_bytes 4 (crc32 (body b)))

      same : (of_le_bytes (le_bytes 4 (crc32 (body b))) == crc32 (body b)) ≡ true
      same =
          (nat_beq_iff (of_le_bytes (le_bytes 4 (crc32 (body b)))) (crc32 (body b))).1
            (of_le_bytes-le_bytes 4 (crc32 (body b)) (sums (body b)))
