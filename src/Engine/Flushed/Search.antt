-- ===== src/Engine/Flushed/Search.antt =====
-- Lookups of core/engine/version_set.rs in the table of a flushed memtable.
use apex_store.Base.{
  ℕ, ◌≡◌, refl, sym, ap, ◌∙◌, subst, Bool, true, false, Option, none, some, List, [], ◌∷◌, arith,
  map, All, if◌then◌else◌, ◌==◌, string_eq, Bool-cases, inl, inr, pair_eq, nat_eq,
}
use apex_store.Base.Bytes.{Bytes, bytes_eq, bytes_beq_iff}
use apex_store.Base.Dict
use apex_store.Base.Dict.{Dict, get-insert_self}
use apex_store.Base.Sorted.{sort_by_key, get-sort_by_key, sort_by_key-IsAscending}
use apex_store.Error.{ok}
use apex_store.Record.{LogRecord, is_expired_at}
use apex_store.MemTable.{MemTable}
use apex_store.Version.{
  Files, Table, VersionSet, is_quarantined, outside_both, bloom_rejects, probe, probe_data,
  probe_file, after_read, search_tables, Probe, next_table, returns, put_cached, read_file,
}
use apex_store.Version.Newest.{
  HasNoFalseNegatives, first_key-le, le-last_key, keys_contain, rejects_none,
}
use apex_store.Engine.{Env}
use apex_store.Engine.Flush.{raw_values, flush_path}
use apex_store.Engine.Flushed.File.{
  IsLasting, IsPlain, is_expired_at-lasting, raw_values-lasting, file_of, table_of, value_of,
}

-- What a table says of a key that it has a record for.
abbrev pub answer_of : LogRecord → Option Bytes
answer_of r = if r.is_deleted then none else some r.value

answer_of-live : (r : LogRecord) → r.is_deleted ≡ false → answer_of r ≡ some r.value
answer_of-live r h = rw h refl

answer_of-deleted : (r : LogRecord) → r.is_deleted ≡ true → answer_of r ≡ none
answer_of-deleted r h = rw h refl

pub get-IsLasting :
    (k : Bytes) (r : LogRecord) (m : Dict Bytes LogRecord)
    → All IsLasting m
    → Dict.get k m ≡ some r
    → IsLasting (k, r)
unfolding Dict.get
get-IsLasting k r [] a h = absurd (cc h)
get-IsLasting k r ((j, q) ∷ m) a h = elim (Bool-cases (j == k)) [
  | inl same ↦ subst IsLasting (ground (arith, h, same, (bytes_beq_iff j k).0 same)) a.0
  | inr other ↦ get-IsLasting k r m a.1 (ground (arith, h, other))
]

pub if_false {ℓ} : {A : Type ℓ} (b : Bool) (x y : A) → b ≡ false → (if b then x else y) ≡ y
if_false b x y h = rw h refl

pub if_true {ℓ} : {A : Type ℓ} (b : Bool) (x y : A) → b ≡ true → (if b then x else y) ≡ x
if_true b x y h = rw h refl

-- What the loop of a lookup answers after a round.
abbrev outcome : Files → ℕ → Bytes → List Table → Probe → Option Bytes
outcome files now k ts (next_table vs') = (search_tables files now k ts vs').0
outcome files now k ts (returns o vs') = o

search-outcome :
    (files : Files) (now : ℕ) (k : Bytes) (t : Table) (ts : List Table) (vs : VersionSet)
    → (search_tables files now k (t ∷ ts) vs).0 ≡ outcome files now k ts (probe files now k t vs)
unfolding search_tables
search-outcome files now k t ts vs = split (probe files now k t vs)
  where
    split :
        (p : Probe)
        → (elim p as (λ q. Option Bytes × VersionSet) [
          | next_table vs' ↦ search_tables files now k ts vs'
          | returns found vs' ↦ (found, vs')
        ]).0
          ≡ outcome files now k ts p
    split (next_table vs') = refl
    split (returns o vs') = refl

module _ (env : Env) (mem : MemTable) (plain : IsPlain mem)
    (sound : HasNoFalseNegatives env.new_bloom) (k : Bytes) (r : LogRecord)
    (found : Dict.get k mem.data_map ≡ some r) where
  sorted_found : Dict.get k (sort_by_key mem.data_map) ≡ some r
  sorted_found = get-sort_by_key k mem.data_map ∙ found

  table-in_range : outside_both (table_of env mem) k ≡ false
  unfolding outside_both
  table-in_range = ground (
    arith,
    first_key-le k r (sort_by_key mem.data_map) (sort_by_key-IsAscending mem.data_map plain.unique)
        sorted_found,
    le-last_key k r (sort_by_key mem.data_map) (sort_by_key-IsAscending mem.data_map plain.unique)
        sorted_found,
  )

  table-accepted : bloom_rejects (table_of env mem) k ≡ false
  unfolding bloom_rejects
  table-accepted = rejects_none k (file_of env mem).bloom (λ check q.
      sound (map (λ p. p.0) (sort_by_key mem.data_map)) check q k
        (keys_contain k r (sort_by_key mem.data_map) sorted_found))

  value_found : Dict.get k (raw_values env mem.data_map) ≡ some r.value
  unfolding value_of
  value_found = raw_values-lasting env k mem.data_map plain.lasting ∙ ap value_of found

  module _ (files : Files) (now : ℕ) (vs : VersionSet)
      (on_disk : files (flush_path env) ≡ ok (file_of env mem))
      (trusted : is_quarantined vs (flush_path env) ≡ false)
      (readable : vs.has_block_cache ≡ true) where
    read-flushed : read_file files (flush_path env) k ≡ ok (some r)
    unfolding read_file
    read-flushed = rw on_disk (ap ok sorted_found)

    after_read-flushed :
        (ts : List Table)
        → outcome files now k ts (after_read now k (flush_path env) (ok (some r)) vs) ≡ answer_of r
    unfolding after_read put_cached
    after_read-flushed ts = elim (Bool-cases r.is_deleted) [
      | inl gone ↦
          ap (outcome files now k ts) (
            if_true r.is_deleted (returns none vs)
              (if is_expired_at r now
                then next_table vs
                else returns (some r.value) (put_cached k r.value vs))
              gone)
          ∙ sym (answer_of-deleted r gone)
      | inr live ↦
          ap (outcome files now k ts) (
            if_false r.is_deleted (returns none vs)
              (if is_expired_at r now
                then next_table vs
                else returns (some r.value) (put_cached k r.value vs))
              live
            ∙ if_false (is_expired_at r now) (next_table vs)
                (returns (some r.value) (put_cached k r.value vs))
                (is_expired_at-lasting r now
                  (get-IsLasting k r mem.data_map plain.lasting found).forever))
          ∙ sym (answer_of-live r live)
    ]

    probe_file-read :
        probe_file files now k (some (flush_path env)) vs
        ≡ after_read now k (flush_path env) (ok (some r)) vs
    unfolding probe_file
    probe_file-read =
        if_false (is_quarantined vs (flush_path env)) (next_table vs)
          (if vs.has_block_cache
            then after_read now k (flush_path env) (read_file files (flush_path env) k) vs
            else next_table vs)
          trusted
        ∙ if_true vs.has_block_cache
            (after_read now k (flush_path env) (read_file files (flush_path env) k) vs)
            (next_table vs) readable
        ∙ ap (λ o. after_read now k (flush_path env) o vs) read-flushed

    probe_data-flushed :
        (ts : List Table) (v : Bytes)
        → r.value ≡ v
        → outcome files now k ts (probe_data files now k (table_of env mem) (some v) vs)
          ≡ answer_of r
    unfolding probe_data
    probe_data-flushed ts [] e = ap (outcome files now k ts) probe_file-read ∙ after_read-flushed ts
    probe_data-flushed ts (b ∷ bs) e = elim (Bool-cases r.is_deleted) [
      | inl gone ↦ absurd (cc (e, (get-IsLasting k r mem.data_map plain.lasting found).bare gone))
      | inr live ↦ sym (answer_of-live r live ∙ ap some e)
    ]

    probe-data :
        probe files now k (table_of env mem) vs
        ≡ probe_data files now k (table_of env mem) (some r.value) vs
    unfolding probe
    probe-data =
        if_false (outside_both (table_of env mem) k) (next_table vs)
          (if bloom_rejects (table_of env mem) k
            then next_table vs
            else probe_data files now k (table_of env mem)
                (Dict.get k (raw_values env mem.data_map)) vs)
          table-in_range
        ∙ if_false (bloom_rejects (table_of env mem) k) (next_table vs)
            (probe_data files now k (table_of env mem) (Dict.get k (raw_values env mem.data_map))
              vs)
            table-accepted
        ∙ ap (λ o. probe_data files now k (table_of env mem) o vs) value_found

    pub search-flushed :
        (ts : List Table) → (search_tables files now k (table_of env mem ∷ ts) vs).0 ≡ answer_of r
    search-flushed ts =
        search-outcome files now k (table_of env mem) ts vs
        ∙ ap (outcome files now k ts) probe-data
        ∙ probe_data-flushed ts r.value refl
