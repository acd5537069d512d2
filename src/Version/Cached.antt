-- ===== src/Version/Cached.antt =====
-- Lookups of core/engine/version_set.rs once the cache has an answer.
use apex_store.Base.{
  ℕ, String, ◌≡◌, ◌∙◌, Bool, true, false, Option, none, some, List, [], ◌∷◌, Option-cases, inl, inr,
  if◌then◌else◌,
}
use mathlib.Core.List.{reverse}
use apex_store.Base.Bytes.{Bytes, bytes_eq}
use apex_store.Base.Dict
use apex_store.Base.Dict.{Dict}
use apex_store.Error.{Result, ok, err}
use apex_store.Record.{LogRecord, is_expired_at}
use apex_store.Version.{
  Files, SstPath, Table, VersionSet, Probe, next_table, returns, tables_of, get_cached, put_cached,
  after_read, probe_file, probe_data, probe, search_tables, get, is_quarantined, read_file,
  outside_both, bloom_rejects,
}

-- The cache holds each value that is put in it, until the next.
abbrev pub Admits : VersionSet → Type 0
Admits vs =
    (key v : Bytes) (m : Dict Bytes Bytes) → Dict.get key (vs.evicts (Dict.insert key v m)) ≡ some v

-- A probe that returns a value has put it in the cache.
abbrev Caches : Bytes → Probe → Type 0
Caches key (next_table vs) = Admits vs
Caches key (returns none vs) = Unit
Caches key (returns (some v) vs) = get_cached vs key ≡ some v

put-Caches :
    (key v : Bytes) (vs : VersionSet)
    → Admits vs
    → Caches key (returns (some v) (put_cached key v vs))
unfolding get_cached put_cached
put-Caches key v vs a = a key v vs.kv_cache

Caches-if :
    (key : Bytes) (b : Bool) (x y : Probe)
    → Caches key x
    → Caches key y
    → Caches key (if b then x else y)
Caches-if key true x y h k = h
Caches-if key false x y h k = k

after_read-Caches :
    (now : ℕ) (key : Bytes) (path : SstPath) (r : Result (Option LogRecord)) (vs : VersionSet)
    → Admits vs
    → Caches key (after_read now key path r vs)
unfolding after_read
after_read-Caches now key path (err e) vs a = a
after_read-Caches now key path (ok none) vs a = a
after_read-Caches now key path (ok (some r)) vs a =
    Caches-if key r.is_deleted (returns none vs)
      (if is_expired_at r now
        then next_table vs
        else returns (some r.value) (put_cached key r.value vs))
      tt
      (Caches-if key (is_expired_at r now) (next_table vs)
        (returns (some r.value) (put_cached key r.value vs)) a (put-Caches key r.value vs a))

probe_file-Caches :
    (files : Files) (now : ℕ) (key : Bytes) (path : Option SstPath) (vs : VersionSet)
    → Admits vs
    → Caches key (probe_file files now key path vs)
unfolding probe_file
probe_file-Caches files now key none vs a = a
probe_file-Caches files now key (some path) vs a =
    Caches-if key (is_quarantined vs path) (next_table vs)
      (if vs.has_block_cache
        then after_read now key path (read_file files path key) vs
        else next_table vs)
      a
      (Caches-if key vs.has_block_cache (after_read now key path (read_file files path key) vs)
        (next_table vs) (after_read-Caches now key path (read_file files path key) vs a) a)

empty-Caches :
    (files : Files) (now : ℕ) (key : Bytes) (path : Option SstPath) (vs : VersionSet)
    → Admits vs
    → Caches key
        (elim path [ none ↦ returns none vs | some p ↦ probe_file files now key (some p) vs ])
empty-Caches files now key none vs a = tt
empty-Caches files now key (some p) vs a = probe_file-Caches files now key (some p) vs a

probe_data-Caches :
    (files : Files) (now : ℕ) (key : Bytes) (t : Table) (o : Option Bytes) (vs : VersionSet)
    → Admits vs
    → Caches key (probe_data files now key t o vs)
unfolding probe_data
probe_data-Caches files now key t none vs a = probe_file-Caches files now key t.path vs a
probe_data-Caches files now key t (some []) vs a = empty-Caches files now key t.path vs a
probe_data-Caches files now key t (some (b ∷ bs)) vs a = put-Caches key (b ∷ bs) vs a

probe-Caches :
    (files : Files) (now : ℕ) (key : Bytes) (t : Table) (vs : VersionSet)
    → Admits vs
    → Caches key (probe files now key t vs)
unfolding probe
probe-Caches files now key t vs a =
    Caches-if key (outside_both t key) (next_table vs)
      (if bloom_rejects t key
        then next_table vs
        else probe_data files now key t (Dict.get key t.data_map) vs)
      a
      (Caches-if key (bloom_rejects t key) (next_table vs)
        (probe_data files now key t (Dict.get key t.data_map) vs) a
        (probe_data-Caches files now key t (Dict.get key t.data_map) vs a))

-- What a search of the tables found is in the cache after it.
abbrev Remembers : Bytes → Option Bytes × VersionSet → Type 0
Remembers key r = (v : Bytes) → r.0 ≡ some v → get_cached r.1 key ≡ some v

resume-Remembers :
    (key : Bytes) (p : Probe) (rest : VersionSet → Option Bytes × VersionSet)
    → Caches key p
    → ((vs : VersionSet) → Admits vs → Remembers key (rest vs))
    → Remembers key (elim p [ next_table vs ↦ rest vs | returns found vs ↦ (found, vs) ])
resume-Remembers key (next_table vs) rest c h = h vs c
resume-Remembers key (returns none vs) rest c h = λ v q. cc
resume-Remembers key (returns (some w) vs) rest c h = λ v q. c ∙ q

search_tables-Remembers :
    (files : Files) (now : ℕ) (key : Bytes) (ts : List Table) (vs : VersionSet)
    → Admits vs
    → Remembers key (search_tables files now key ts vs)
unfolding search_tables
search_tables-Remembers files now key [] vs a = λ v q. cc
search_tables-Remembers files now key (t ∷ ts) vs a =
    resume-Remembers key (probe files now key t vs) (search_tables files now key ts)
      (probe-Caches files now key t vs a)
      (λ vs' a'. search_tables-Remembers files now key ts vs' a')

get-hit :
    (files : Files) (now : ℕ) (cf : String) (key : Bytes) (b : ℕ) (bs : Bytes) (vs : VersionSet)
    → get_cached vs key ≡ some (b ∷ bs)
    → get files now cf key vs ≡ (some (b ∷ bs), vs)
unfolding get
get-hit files now cf key b bs vs h = rw (h, get)

pub get-miss :
    (files : Files) (now : ℕ) (cf : String) (key : Bytes) (vs : VersionSet)
    → get_cached vs key ≡ none
    → get files now cf key vs ≡ search_tables files now key (reverse (tables_of vs cf)) vs
unfolding get
get-miss files now cf key vs h = rw (h, get)

get-empty_hit :
    (files : Files) (now : ℕ) (cf : String) (key : Bytes) (vs : VersionSet)
    → get_cached vs key ≡ some []
    → get files now cf key vs ≡ (none, vs)
unfolding get
get-empty_hit files now cf key vs h = rw (h, get)

get-Remembers :
    (files : Files) (now : ℕ) (cf : String) (key : Bytes) (vs : VersionSet)
    → Admits vs
    → Remembers key (get files now cf key vs)
get-Remembers files now cf key vs a = elim (Option-cases (get_cached vs key)) [
  | inl miss ↦
      rw (get-miss files now cf key vs miss)
        (search_tables-Remembers files now key (reverse (tables_of vs cf)) vs a)
  | inr (c, hit) ↦ hit-Remembers c hit
]
  where
    hit-Remembers :
        (c : Bytes) → get_cached vs key ≡ some c → Remembers key (get files now cf key vs)
    hit-Remembers [] hit = rw (get-empty_hit files now cf key vs hit) (λ v q. cc)
    hit-Remembers (b ∷ bs) hit = rw (get-hit files now cf key b bs vs hit) (λ v q. hit ∙ q)

-- The value as the cache hands it out: an empty one stands for a deletion there.
abbrev pub cached_answer : Bytes → Option Bytes
cached_answer [] = none
cached_answer (b ∷ bs) = some (b ∷ bs)

-- Once a lookup in one column family has found a value for a key, where the cache admits each value
-- that is put in it and drops none before the next lookup, a lookup of that key in any column family,
-- at any later time and with any files on disk, is answered by that value, or by nothing where the
-- value is empty, and changes nothing.
pub get-repeat :
    (files files' : Files) (now now' : ℕ) (cf cf' : String) (key v : Bytes) (vs : VersionSet)
    → Admits vs
    → (get files now cf key vs).0 ≡ some v
    → get files' now' cf' key (get files now cf key vs).1
      ≡ (cached_answer v, (get files now cf key vs).1)
get-repeat files files' now now' cf cf' key [] vs a h =
    get-empty_hit files' now' cf' key (get files now cf key vs).1
      (get-Remembers files now cf key vs a [] h)
get-repeat files files' now now' cf cf' key (b ∷ bs) vs a h =
    get-hit files' now' cf' key b bs (get files now cf key vs).1
      (get-Remembers files now cf key vs a (b ∷ bs) h)
