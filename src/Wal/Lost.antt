-- ===== src/Wal/Lost.antt =====
-- The end of the read buffer in `recover_locked` of storage/wal.rs.
use apex_store.Base.{
  ℕ, zero, suc, ◌+◌, ◌-◌, ◌≤◌, ◌≡◌, refl, sym, ap, ◌∙◌, Option, some, [], ◌∷◌, ◌++◌, length, take,
  drop, ltb, arith, length-append, length-take,
}
use apex_store.Base.Bytes.{Bytes}
use apex_store.Error.{ok}
use apex_store.Record.{LogRecord}
use apex_store.Encryption.{Aes, Encryptor}
use apex_store.Wal.{Formats, frame}
use apex_store.Wal.Recover.{Reader, fill_buf, capacity, ends, yields, pass, recover_from, read_log}
use apex_store.Wal.Frames.{fill_buf-full, if_true}
use apex_store.Wal.Stored.{Reliable, pass-written}
use apex_store.Wal.Recovered.{recover_from-pass, after_record, pass-fill}

take-past : (n k : ℕ) (a b : Bytes) → n ≡ length a + k → take n (a ++ b) ≡ a ++ take k b
take-past n k [] b h = let e : n ≡ k = omega (arith, h) in ap (λ (m : ℕ). take m b) e
take-past zero k (x ∷ a) b h = ground (arith, h)
take-past (suc n) k (x ∷ a) b h = ap (λ (t : Bytes). x ∷ t) (take-past n k a b (omega (arith, h)))

drop-past : (n k : ℕ) (a b : Bytes) → n ≡ length a + k → drop n (a ++ b) ≡ drop k b
drop-past n k [] b h = let e : n ≡ k = omega (arith, h) in ap (λ (m : ℕ). drop m b) e
drop-past zero k (x ∷ a) b h = ground (arith, h)
drop-past (suc n) k (x ∷ a) b h = drop-past n k a b (omega (arith, h))

-- The first read takes the frame and `k` bytes of what follows.
fill_buf-past :
    (a b : Bytes) (k : ℕ)
    → 1 ≤ length a
    → length a + k ≡ capacity
    → fill_buf (record { buffered = []; rest = a ++ b })
      ≡ fill_buf (record { buffered = a ++ take k b; rest = drop k b })
unfolding fill_buf
fill_buf-past a b k one h =
    ap (λ (t : Bytes). record { buffered = t; rest = drop capacity (a ++ b) })
      (take-past capacity k a b (sym h))
    ∙ ap (λ (t : Bytes). record { buffered = a ++ take k b; rest = t })
        (drop-past capacity k a b (sym h))
    ∙ sym
        (fill_buf-full (a ++ take k b) (drop k b) (omega (arith, one, length-append a (take k b))))

-- One to three buffered bytes end the loop.
pass-short :
    (f : Formats) (aes : Aes) (e : Encryptor) (file_size pos k : ℕ) (b : Bytes)
    → 1 ≤ k
    → k ≤ 3
    → pass f aes e file_size pos (record { buffered = take k b; rest = drop k b }) ≡ ends
unfolding pass fill_buf
pass-short f aes e file_size pos zero b h k = ground (arith, h)
pass-short f aes e file_size pos (suc n) [] h k = refl
pass-short f aes e file_size pos (suc n) (x ∷ xs) h k =
    if_true (ltb (length (x ∷ take n xs)) 4) ends _ (ground (arith, k, length-take n xs))

-- Where the first frame of a log ends one to three bytes before the read buffer does, recovery
-- returns its record alone, without an error, whatever records follow it.
pub read_log-loses :
    (f : Formats) (aes : Aes) (e : Encryptor) (r : LogRecord) (iv : Option Bytes)
    (bytes more : Bytes)
    → Reliable f aes
    → ((n : Bytes) → iv ≡ some n → length n ≡ 12)
    → frame f aes e (r, iv) ≡ ok bytes
    → 8189 ≤ length bytes
    → length bytes ≤ 8191
    → read_log f aes e (bytes ++ more) ≡ some (ok (r ∷ []))
unfolding read_log
read_log-loses f aes e r iv bytes more reliable twelve framed low high =
    recover_from-pass f aes reliable e n n 0 (record { buffered = []; rest = bytes ++ more })
      (yields r (0 + length bytes) after)
      (pass-fill f aes reliable e n 0 (record { buffered = []; rest = bytes ++ more })
          (record { buffered = bytes ++ take k more; rest = drop k more })
          (fill_buf-past bytes more k (omega (arith, low)) (omega (arith, high)))
        ∙ pass-written f aes reliable e r iv bytes (take k more) (drop k more) n 0 twelve framed
            (omega (arith, length-append bytes more)) (omega (arith, high)))
    ∙ ap (λ (m : ℕ). after_record r (recover_from f aes e n m (0 + length bytes) after)) some_fuel
    ∙ ap (after_record r) (
        recover_from-pass f aes reliable e n (n - 1) (0 + length bytes) after ends (
          pass-short f aes e n (0 + length bytes) k more (omega (arith, high))
            (omega (arith, low))))
  where
    n : ℕ
    n = length (bytes ++ more)

    k : ℕ
    k = capacity - length bytes

    after : Reader
    after = record { buffered = take k more; rest = drop k more }

    some_fuel : n ≡ suc (n - 1)
    some_fuel = omega (arith, low, length-append bytes more)
