-- ===== src/Engine/Flushed/File.antt =====
-- The file that `flush_memtable_impl` of core/engine/mod.rs writes.
use apex_store.Base.{
  ℕ, ◌+◌, ◌≤◌, ltb, length, arith, subst, ◌≡◌, refl, ap, ◌∙◌, Bool, true, false, Option, none, some,
  [], ◌∷◌, map, keep, All, if◌then◌else◌, ◌==◌, string_eq, pair_eq, nat_eq,
}
use apex_store.Base.Bytes.{Bytes, bytes_eq}
use apex_store.Base.Dict
use apex_store.Base.Dict.{Dict, get-insert_self}
use apex_store.Base.Sorted.{
  Above, IsAscending, Unique, insert_sorted, sort_by_key, sort_by_key-IsAscending,
  sort_by_key_again, sort_by_key-All,
}
use apex_store.Error.{ok, guard, compaction_failed, ◌>>=◌}
use apex_store.Block
use apex_store.Wal.{coded}
use apex_store.Record.{LogRecord, is_expired_at}
use apex_store.MemTable.{MemTable}
use apex_store.Version.{SstFile, Table, first_key, last_key, is_empty}
use apex_store.Engine.{Env}
use apex_store.Engine.Flush.{
  ttl_prefix, ttl_key, ttl_record, starts_with, with_ttl_entries, combined_records, placed,
  comes_after, add_entries, raw_values, insert_ttl_values, flush_path, build_file,
}

-- A record without an expiry, its key outside the TTL side table, with no value if it is a tombstone.
pub record IsLasting (p : Bytes × LogRecord) : Type 0 where
  pub forever : p.1.expires_at ≡ none
  pub own_key : starts_with ttl_prefix p.0 ≡ false
  pub bare : p.1.is_deleted ≡ true → p.1.value ≡ []

pub is_expired_at-lasting :
    (r : LogRecord) (now : ℕ) → r.expires_at ≡ none → is_expired_at r now ≡ false
unfolding is_expired_at
is_expired_at-lasting r now h = rw h refl

with_ttl_entries-lasting :
    (env : Env) (m : Dict Bytes LogRecord) → All IsLasting m → with_ttl_entries env m ≡ m
unfolding with_ttl_entries
with_ttl_entries-lasting env [] a = refl
with_ttl_entries-lasting env ((k, r) ∷ m) a =
    step (is_expired_at r env.now_flush) r.expires_at
      (is_expired_at-lasting r env.now_flush a.0.forever) a.0.forever
    ∙ ap (λ (l : Dict Bytes LogRecord). (k, r) ∷ l) (with_ttl_entries-lasting env m a.1)
  where
    step :
        (b : Bool) (o : Option ℕ)
        → b ≡ false
        → o ≡ none
        → (if b then with_ttl_entries env m else elim o [
          | none ↦ (k, r) ∷ with_ttl_entries env m
          | some e ↦ (k, r) ∷ (ttl_key env k, ttl_record env k e) ∷ with_ttl_entries env m
        ])
          ≡ (k, r) ∷ with_ttl_entries env m
    step b o p q = rw (p, q) refl

-- The record's encoding and its key have a place in an empty block.
pub record Fits (env : Env) (p : Bytes × LogRecord) : Type 0 where
  pub encoded : (bytes : Bytes) × (env.encode_record p.1 ≡ some bytes)
  pub small : 17 + (length p.0 + length encoded.0) ≤ env.block_size

add-empty :
    (key value : Bytes) (size : ℕ)
    → 17 + (length key + length value) ≤ size
    → (Block.add key value (Block.new size)).0 ≡ true
unfolding Block.add Block.new Block.current_size Block.metadata_size Block.entry_size
add-empty key value size h = rw too_large refl
  where
    too_large : ltb size (9 + (2 + length key + 2 + length value) + 4) ≡ false
    too_large = ground (arith, h)

placed-Fits :
    (env : Env) (key : Bytes) (r : LogRecord) → Fits env (key, r) → placed env key r ≡ ok tt
unfolding placed coded
placed-Fits env key r h =
    ap
      (λ (o : Option Bytes).
        coded o
        >>= (λ value. guard (Block.add key value (Block.new env.block_size)).0 compaction_failed))
      h.encoded.1
    ∙ ap (λ (b : Bool). guard b compaction_failed)
        (add-empty key h.encoded.0 env.block_size h.small)

add_entries-ascending :
    (env : Env) (before : Option Bytes) (m : Dict Bytes LogRecord)
    → ((k : Bytes) → before ≡ some k → Above k m)
    → IsAscending m
    → All (Fits env) m
    → add_entries env before m ≡ ok tt
unfolding add_entries comes_after
add_entries-ascending env before [] h a f = refl
add_entries-ascending env before ((k, r) ∷ m) h a f =
    rw (after before h, placed-Fits env k r f.0)
      (add_entries-ascending env (some k) m (λ j q. subst (λ (b : Bytes). Above b m) (cc q) a.0) a.1
        f.1)
  where
    after :
        (o : Option Bytes)
        → ((j : Bytes) → o ≡ some j → Above j ((k, r) ∷ m))
        → comes_after o k ≡ true
    after none h = refl
    after (some j) h = (h j refl).0

unfoldable pub value_of : Option LogRecord → Option Bytes
value_of none = none
value_of (some r) = some r.value

pub raw_values-lasting :
    (env : Env) (k : Bytes) (m : Dict Bytes LogRecord)
    → All IsLasting m
    → Dict.get k (raw_values env m) ≡ value_of (Dict.get k m)
unfolding raw_values Dict.get is_expired_at value_of
raw_values-lasting env k [] a = refl
raw_values-lasting env k ((j, r) ∷ m) a =
    rw (is_expired_at-lasting r env.now_flush a.0.forever, keep)
      (split (j == k) (raw_values-lasting env k m a.1))
  where
    split :
        (b : Bool)
        → Dict.get k (raw_values env m) ≡ value_of (Dict.get k m)
        → (if b then some r.value else Dict.get k (raw_values env m))
          ≡ value_of (if b then some r else Dict.get k m)
    split true h = refl
    split false h = h

pub insert_ttl_values-lasting :
    (rs : Dict Bytes LogRecord) (m : Dict Bytes Bytes)
    → All IsLasting rs
    → insert_ttl_values rs m ≡ m
unfolding insert_ttl_values
insert_ttl_values-lasting [] m a = refl
insert_ttl_values-lasting ((k, r) ∷ rs) m a = rw a.0.own_key (insert_ttl_values-lasting rs m a.1)

-- A memtable that a flush writes as it is.
pub record IsPlain (mem : MemTable) : Type 0 where
  pub unique : Unique mem.data_map
  pub lasting : All IsLasting mem.data_map

combined_records-plain :
    (env : Env) (mem : MemTable) → IsPlain mem → combined_records env mem ≡ sort_by_key mem.data_map
unfolding combined_records
combined_records-plain env mem h =
    ap sort_by_key (
      with_ttl_entries-lasting env (sort_by_key mem.data_map)
        (sort_by_key-All IsLasting mem.data_map h.lasting))
    ∙ sort_by_key_again (sort_by_key mem.data_map) (sort_by_key-IsAscending mem.data_map h.unique)

is_empty-insert_sorted :
    (k : Bytes) (r : LogRecord) (m : Dict Bytes LogRecord) → is_empty (insert_sorted k r m) ≡ false
unfolding insert_sorted
is_empty-insert_sorted k r [] = refl
is_empty-insert_sorted k r ((j, w) ∷ m) = ground arith

is_empty-sorted : (m : Dict Bytes LogRecord) → is_empty m ≡ false → is_empty (sort_by_key m) ≡ false
unfolding sort_by_key
is_empty-sorted [] h = cc h
is_empty-sorted ((k, r) ∷ m) h = is_empty-insert_sorted k r (sort_by_key m)

-- The file that the flush of a memtable writes, and its table.
abbrev pub file_of : Env → MemTable → SstFile
file_of env mem = record {
  records = sort_by_key mem.data_map;
  bloom = env.new_bloom (map (λ p. p.0) (sort_by_key mem.data_map));
}

abbrev pub table_of : Env → MemTable → Table
table_of env mem = record {
  data_map = raw_values env mem.data_map;
  level = 0;
  path = some (flush_path env);
  min_key = first_key (sort_by_key mem.data_map);
  max_key = last_key (sort_by_key mem.data_map);
  bloom_filter = (file_of env mem).bloom;
}

pub build_file-plain :
    (env : Env) (mem : MemTable)
    → IsPlain mem
    → is_empty mem.data_map ≡ false
    → All (Fits env) mem.data_map
    → env.sst_create ≡ ok tt
    → env.sst_write ≡ ok tt
    → build_file env (combined_records env mem) ≡ ok (file_of env mem)
unfolding build_file
build_file-plain env mem h full fits created written =
    ap (build_file env) (combined_records-plain env mem h)
    ∙ rw
        (
          created,
          add_entries-ascending env none (sort_by_key mem.data_map) (λ k q. absurd (cc q))
              (sort_by_key-IsAscending mem.data_map h.unique)
              (sort_by_key-All (Fits env) mem.data_map fits),
          is_empty-sorted mem.data_map full,
          written,
        )
        refl
