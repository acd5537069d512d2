-- ===== src/Block/Built.antt =====
-- Blocks of storage/block.rs that are built entry by entry.
use apex_store.Base.{
  ℕ, ◌+◌, ◌-◌, ◌*◌, ◌%◌, ◌^◌, ◌<◌, ◌≤◌, ◌≡◌, refl, sym, ap, ◌∙◌, subst, Bool, true, false, Option,
  none, some, List, [], ◌∷◌, ◌++◌, length, ltb, if◌then◌else◌, arith, length-append, length-drop,
  append_assoc, append-nil, All, Bool-cases, inl, inr,
}
use apex_store.Base.Bytes.{Bytes}
use apex_store.Block
use apex_store.Block.{Block, current_size, entry_size, metadata_size, add}
use apex_store.Block.Prefix.{u16, entry_bytes, shared_prefix_len}
use apex_store.Block.Layout.{standard, starts, length-entry_bytes, length-u16}
use apex_store.Block.Compressed.{IsSmall, compact, compact_starts, short_entry, short_key, suffix}
use apex_store.Block.Encoded.{FitsWord}

-- Entries added to a block one after another, `none` where one is refused.
abbrev pub add_all : List (Bytes × Bytes) → Block → Option Block
add_all [] b = some b
add_all ((k, v) ∷ es) b = elim (add k v b).0 [ true ↦ add_all es (add k v b).1 | false ↦ none ]

-- A block of some entries in the standard format that keeps to a size.
pub record Holds (size : ℕ) (es : List (Bytes × Bytes)) (b : Block) : Type 0 where
  pub entries : b.data_bytes ≡ standard es
  pub positions : b.offsets ≡ starts 0 es
  pub plain : b.flags ≡ 0
  pub limit : b.block_size ≡ size
  pub fits : length b.data_bytes + length b.offsets * 4 ≤ size - 9

standard-append :
    (es : List (Bytes × Bytes)) (k v : Bytes)
    → standard (es ++ (k, v) ∷ []) ≡ standard es ++ entry_bytes k v
standard-append [] k v = append-nil (entry_bytes k v)
standard-append ((j, w) ∷ es) k v =
    ap (λ (t : Bytes). entry_bytes j w ++ t) (standard-append es k v)
    ∙ sym (append_assoc (entry_bytes j w) (standard es) (entry_bytes k v))

starts-snoc :
    (n : ℕ) (es : List (Bytes × Bytes)) (k v : Bytes)
    → starts n (es ++ (k, v) ∷ []) ≡ starts n es ++ (n + length (standard es)) ∷ []
starts-snoc n [] k v = let same : n ≡ n + 0 = omega arith in ap (λ (m : ℕ). m ∷ []) same
starts-snoc n ((j, w) ∷ es) k v =
    let same : n + length (entry_bytes j w) + length (standard es)
        ≡ n + length (entry_bytes j w ++ standard es) =
      omega (arith, length-append (entry_bytes j w) (standard es)) in
    ap (λ (t : List ℕ). n ∷ t) (starts-snoc (n + length (entry_bytes j w)) es k v)
    ∙ ap (λ (m : ℕ). n ∷ (starts (n + length (entry_bytes j w)) es ++ m ∷ [])) same

length-snoc {ℓ} : {A : Type ℓ} (xs : List A) (x : A) → length (xs ++ x ∷ []) ≡ length xs + 1
length-snoc xs x = length-append xs (x ∷ [])

abbrev is_full : Bytes → Bytes → Block → Bool
is_full k v b = ltb b.block_size (current_size b + entry_size k v + 4)

abbrev added : Bytes → Bytes → Block → Block
added k v b = record b {
  data_bytes = b.data_bytes ++ entry_bytes k v;
  offsets = b.offsets ++ length b.data_bytes % 2 ^ 32 ∷ [];
}

add-by :
    (k v : Bytes) (b : Block)
    → add k v b ≡ (if is_full k v b then (false, b) else (true, added k v b))
unfolding add entry_bytes
add-by k v b = refl

added-Holds :
    (size : ℕ) (es : List (Bytes × Bytes)) (b : Block) (k v : Bytes)
    → size ≤ 65536
    → Holds size es b
    → is_full k v b ≡ false
    → Holds size (es ++ (k, v) ∷ []) (added k v b)
unfolding current_size metadata_size entry_size
added-Holds size es b k v small h room = record {
  entries = ap (λ (t : Bytes). t ++ entry_bytes k v) h.entries ∙ sym (standard-append es k v);
  positions =
      ap (λ (n : ℕ). b.offsets ++ n ∷ []) place
      ∙ ap (λ (t : List ℕ). t ++ (0 + length (standard es)) ∷ []) h.positions
      ∙ sym (starts-snoc 0 es k v);
  plain = h.plain;
  limit = h.limit;
  fits = omega (
    arith,
    length-append b.data_bytes (entry_bytes k v),
    length-entry_bytes k v,
    length-snoc b.offsets (length b.data_bytes % 2 ^ 32),
    space,
    h.limit,
  );
}
  where
    place : length b.data_bytes % 2 ^ 32 ≡ 0 + length (standard es)
    place = omega (arith, h.fits, small, ap length h.entries)

    space :
        length b.data_bytes + (length b.offsets * 4 + 4 + 1) + 4 + (2 + length k + 2 + length v) + 4
        ≤ b.block_size
    space = ground (arith, room)

add_all-Holds :
    (size : ℕ) (es done : List (Bytes × Bytes)) (b c : Block)
    → size ≤ 65536
    → Holds size done b
    → add_all es b ≡ some c
    → Holds size (done ++ es) c
add_all-Holds size [] done b c small h e =
    let same : b ≡ c = cc e in
    subst (λ (x : Block). Holds size (done ++ []) x) same
      (subst (λ (x : List (Bytes × Bytes)). Holds size x b) (sym (append-nil done)) h)
add_all-Holds size ((k, v) ∷ es) done b c small h e =
    let next =
      λ (g : Holds size (done ++ (k, v) ∷ []) (added k v b))
          (e : add_all es (added k v b) ≡ some c).
        add_all-Holds size es (done ++ (k, v) ∷ []) (added k v b) c small g e in
    elim (Bool-cases (is_full k v b)) [
      | inl full ↦ refused full
      | inr room ↦
          subst (λ (x : List (Bytes × Bytes)). Holds size x c) (append_assoc done ((k, v) ∷ []) es)
            (next (added-Holds size done b k v small h room) (accepted room))
    ]
  where
    after : Bool × Block → Option Block
    after p = elim p.0 [ true ↦ add_all es p.1 | false ↦ none ]

    by : after (if is_full k v b then (false, b) else (true, added k v b)) ≡ some c
    by = ap after (sym (add-by k v b)) ∙ e

    refused : is_full k v b ≡ true → Holds size (done ++ (k, v) ∷ es) c
    refused full =
        let no_block : none ≡ some c =
          ap (λ (t : Bool). after (if t then (false, b) else (true, added k v b))) (sym full)
          ∙ by in
        cc no_block

    accepted : is_full k v b ≡ false → add_all es (added k v b) ≡ some c
    accepted room =
        ap (λ (t : Bool). after (if t then (false, b) else (true, added k v b))) (sym room) ∙ by

pub built-Holds :
    (size : ℕ) (es : List (Bytes × Bytes)) (b : Block)
    → size ≤ 65536
    → add_all es (Block.new size) ≡ some b
    → Holds size es b
unfolding Block.new
built-Holds size es b small e =
    add_all-Holds size es [] (Block.new size) b small
      (record { entries = refl; positions = refl; plain = refl; limit = refl; fits = omega arith })
      e

-- What the entries of a small block are.
pub standard-IsSmall : (es : List (Bytes × Bytes)) → length (standard es) < 65536 → All IsSmall es
standard-IsSmall [] h = tt
standard-IsSmall ((k, v) ∷ es) h =
    ((omega (arith, h, long), omega (arith, h, long)), standard-IsSmall es (omega (arith, h, long)))
  where
    long : length (entry_bytes k v ++ standard es) ≡ 4 + length k + length v + length (standard es)
    long = omega (arith, length-append (entry_bytes k v) (standard es), length-entry_bytes k v)

pub length-short_entry :
    (prev k v : Bytes) → length (short_entry prev k v) ≤ 5 + length k + length v
length-short_entry prev k v = omega (
  arith,
  length-append (short_key prev k) (u16 (length v) ++ v),
  length-append (u16 (length v)) v,
  length-u16 (length v),
  length-append (u16 (length (suffix prev k))) (suffix prev k),
  length-u16 (length (suffix prev k)),
  length-drop (shared_prefix_len prev k) k,
)

pub length-compact :
    (prev : Bytes) (es : List (Bytes × Bytes)) → length (compact prev es) ≤ 2 * length (standard es)
length-compact prev [] = omega arith
length-compact prev ((k, v) ∷ es) = omega (
  arith,
  length-compact k es,
  length-append (short_entry prev k v) (compact k es),
  length-append (entry_bytes k v) (standard es),
  length-entry_bytes k v,
  length-short_entry prev k v,
)

pub starts-FitsWord :
    (n : ℕ) (es : List (Bytes × Bytes))
    → n + length (standard es) < 2 ^ 32
    → All FitsWord (starts n es)
starts-FitsWord n [] h = tt
starts-FitsWord n ((k, v) ∷ es) h = (
  omega (arith, h),
  starts-FitsWord (n + length (entry_bytes k v)) es
      (omega (arith, h, length-append (entry_bytes k v) (standard es))),
)

pub compact_starts-FitsWord :
    (n : ℕ) (prev : Bytes) (es : List (Bytes × Bytes))
    → n + length (compact prev es) < 2 ^ 32
    → All FitsWord (compact_starts n prev es)
compact_starts-FitsWord n prev [] h = tt
compact_starts-FitsWord n prev ((k, v) ∷ es) h = (
  omega (arith, h),
  compact_starts-FitsWord (n + length (short_entry prev k v)) k es
      (omega (arith, h, length-append (short_entry prev k v) (compact k es))),
)

pub length-compact_starts :
    (n : ℕ) (prev : Bytes) (es : List (Bytes × Bytes))
    → length (compact_starts n prev es) ≤ length (standard es)
length-compact_starts n prev [] = omega arith
length-compact_starts n prev ((k, v) ∷ es) = omega (
  arith,
  length-compact_starts (n + length (short_entry prev k v)) k es,
  length-append (entry_bytes k v) (standard es),
  length-entry_bytes k v,
)
