-- ===== src/Engine/Prefix.antt =====
-- `prefix_end` of core/engine/mod.rs: the bound of a prefix scan.
use apex_store.Base.{
  ℕ, ◌+◌, ◌<◌, ◌≡◌, refl, ◌&&◌, Option, none, some, [], ◌∷◌, ◌++◌, arith, map, ltb, All,
  if◌then◌else◌, nat_eq,
}
use apex_store.Base.Bytes.{Bytes, bytes_lt, bytes_le}
use apex_store.Engine.Flush.{starts_with}

-- The loop from the last byte: the bytes past the one that is incremented are set to 0.
unfoldable pub increment_last : Bytes → Option Bytes
increment_last [] = none
increment_last (b ∷ bs) = elim (increment_last bs) [
  | some bs' ↦ some (b ∷ bs')
  | none ↦ if ltb b 255 then some ((b + 1) ∷ map (λ x. 0) bs) else none
]

unfoldable pub prefix_end : Bytes → Option Bytes
unfolding increment_last
prefix_end [] = none
prefix_end (b ∷ bs) = elim (increment_last (b ∷ bs)) [
  | some end ↦ some end
  | none ↦ some (map (λ x. 0) (b ∷ bs) ++ 0 ∷ [])
]

-- The bytes with the last one incremented.
abbrev next_prefix : ℕ → Bytes → Bytes
next_prefix b [] = (b + 1) ∷ []
next_prefix b (c ∷ bs) = b ∷ next_prefix c bs

increment_last-below :
    (b : ℕ) (bs : Bytes)
    → All (λ x. x < 255) (b ∷ bs)
    → increment_last (b ∷ bs) ≡ some (next_prefix b bs)
unfolding increment_last
increment_last-below b [] h = ground (arith, h.0)
increment_last-below b (c ∷ bs) h = rw (increment_last-below c bs h.1, increment_last) refl

starts_with-between :
    (b : ℕ) (bs k : Bytes)
    → starts_with (b ∷ bs) k ≡ (bytes_le (b ∷ bs) k && bytes_lt k (next_prefix b bs))
unfolding starts_with bytes_lt
starts_with-between b [] [] = ground arith
starts_with-between b (c ∷ bs) [] = ground arith
starts_with-between b [] (x ∷ []) = ground arith
starts_with-between b [] (x ∷ y ∷ k) = ground arith
starts_with-between b (c ∷ bs) (x ∷ k) = ground (arith, starts_with-between c bs k)

-- For a prefix of bytes below 255, as those of UTF-8 text are, a key starts with the prefix exactly if
-- it is at least the prefix and below its end.
pub starts_with-prefix_end :
    (b : ℕ) (bs : Bytes) (k : Bytes)
    → All (λ x. x < 255) (b ∷ bs)
    → (stop : Bytes) × (prefix_end (b ∷ bs) ≡ some stop)
      × (starts_with (b ∷ bs) k ≡ (bytes_le (b ∷ bs) k && bytes_lt k stop))
unfolding prefix_end
starts_with-prefix_end b bs k h = (
  next_prefix b bs,
  rw (increment_last-below b bs h, prefix_end) refl,
  starts_with-between b bs k,
)
