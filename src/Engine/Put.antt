-- ===== src/Engine/Put.antt =====
-- A read after a put or a delete of core/engine/mod.rs that does not fill the memtable.
use apex_store.Base.{
  ℕ, ◌+◌, ◌≤◌, ◌<◌, String, ◌≡◌, refl, sym, ap, ◌∙◌, subst, Bool, true, false, ◌&&◌, Option, none,
  some, [], ◌∷◌, ◌++◌, length, if◌then◌else◌, ◌==◌, string_eq,
}
use apex_store.Base.Bytes.{Bytes, bytes_eq, bytes_beq_iff}
use text.Mathlib.TextEquality.{eq_iff}
use apex_store.Error.{Result, ok}
use apex_store.Record
use apex_store.Record.{LogRecord, RangeTombstone, is_expired_at}
use apex_store.Engine.{EngineOptions, EngineCore, Env, write_buffer_limit, bytes_of, log_of}
use apex_store.Engine.Write.{
  max_key_size, with_default_ttl, max_value_size, put_record, flush_if_full, logged,
  put_cf_with_ttl_inner, delete_cf, in_family,
}
use apex_store.Engine.Read.{hides, covering_range_tombstone_ts, visible_value, get_cf}
use apex_store.Engine.Lookup.{get_cf-same}
use apex_store.Engine.Logged.{WalWorks, SameData, logged_core, logged_core-SameData, log_of-logged}
use apex_store.Engine.Deleted.{delete_cf-ran, get_cf-tombstone, looked_up_core}
use apex_store.Engine.Same.{
  ltb-fits, bytes_of-SameData, covering-SameData, SameData-SameRead, bytes_of-insert_point,
  write_point-ran, log_of-insert_point,
}
use apex_store.Engine.Point.{insert_point, covering-point, get_cf-insert_point}

-- What a write of a record of some bytes promises: no flush, one record more in the log, the bytes
-- counted, the range tombstones as before, and its key's reads in its column family answered by the
-- record that went to the memtable; all other reads as before.
pub record IsWritten (cf : String) (logged_record r : LogRecord) (n : ℕ) (core : EngineCore)
    (out : Result Bool × EngineCore) : Type 0 where
  pub result : out.0 ≡ ok false
  pub log : log_of out.1 cf ≡ log_of core cf ++ logged_record ∷ []
  pub bytes : bytes_of out.1 cf ≡ bytes_of core cf + n
  pub covering :
      (key : Bytes)
      → covering_range_tombstone_ts out.1 cf key ≡ covering_range_tombstone_ts core cf key
  pub reads :
      (env : Env) (cf' : String) (key : Bytes)
      → (get_cf env cf' key out.1).0 ≡ (
          if cf == cf' && r.key == key
          then ok (visible_value (covering_range_tombstone_ts core cf key) env.now r)
          else (get_cf env cf' key core).0)

write_point-IsWritten :
    (opts : EngineOptions) (env : Env) (cf : String) (l r : LogRecord) (n : ℕ) (core : EngineCore)
    → WalWorks env
    → bytes_of core cf + n < write_buffer_limit opts
    → IsWritten cf l r n core (
        logged env cf
          (l ∷ [])
          (λ core'. flush_if_full opts env cf (insert_point cf r n core'))
          core)
write_point-IsWritten opts env cf l r n core works room =
    subst (λ out. IsWritten cf l r n core out)
      (sym (write_point-ran opts env cf l r n core works room))
      (record {
        result = refl;
        log = log_of-insert_point cf cf r n start ∙ log_of-logged cf (l ∷ []) core;
        bytes =
            bytes_of-insert_point cf r n start
            ∙ ap (λ b. b + n) (bytes_of-SameData cf start core same);
        covering =
            λ key. covering-point cf r n start key ∙ covering-SameData cf key start core same;
        reads = λ env' cf' key.
            get_cf-insert_point cf cf' r n start env' key
            ∙ ap
                (λ (o : Option ℕ).
                  if cf == cf' && r.key == key
                  then ok (visible_value o env'.now r)
                  else (get_cf env' cf' key start).0)
                (covering-SameData cf key start core same)
            ∙ ap
                (λ (g : Result (Option Bytes)).
                  if cf == cf' && r.key == key
                  then ok (visible_value (covering_range_tombstone_ts core cf key) env'.now r)
                  else g)
                (get_cf-same env' cf' key start core (SameData-SameRead cf' key start core same));
      })
  where
    start : EngineCore
    start = logged_core cf (l ∷ []) core

    same : SameData start core
    same = logged_core-SameData cf (l ∷ []) core

-- The state that a put leaves.
pub put-ran :
    (opts : EngineOptions) (env : Env) (cf : String) (key value : Bytes) (ttl : Option ℕ)
    (core : EngineCore)
    → length key ≤ max_key_size
    → length value ≤ max_value_size
    → WalWorks env
    → bytes_of core cf + (length key + length value) < write_buffer_limit opts
    → put_cf_with_ttl_inner opts env cf key value ttl core ≡ (
      ok false,
      insert_point cf
          (put_record opts env cf key value ttl)
          (length key + length value)
          (logged_core cf (put_record opts env cf key value ttl ∷ []) core),
    )
unfolding put_cf_with_ttl_inner insert_point
put-ran opts env cf key value ttl core key_fits value_fits works room =
    rw (ltb-fits (length key) max_key_size key_fits, put_cf_with_ttl_inner)
      (rw (ltb-fits (length value) max_value_size value_fits, put_cf_with_ttl_inner)
        (write_point-ran opts env cf (put_record opts env cf key value ttl)
          (put_record opts env cf key value ttl) (length key + length value) core works room))

-- The part of a put under the locks, of a key and a value within the size limits, with a log that
-- takes appends and room in the memtable, writes its record.
pub put-IsWritten :
    (opts : EngineOptions) (env : Env) (cf : String) (key value : Bytes) (ttl : Option ℕ)
    (core : EngineCore)
    → length key ≤ max_key_size
    → length value ≤ max_value_size
    → WalWorks env
    → bytes_of core cf + (length key + length value) < write_buffer_limit opts
    → IsWritten cf
        (put_record opts env cf key value ttl)
        (put_record opts env cf key value ttl)
        (length key + length value)
        core
        (put_cf_with_ttl_inner opts env cf key value ttl core)
unfolding put_cf_with_ttl_inner insert_point
put-IsWritten opts env cf key value ttl core key_fits value_fits works room =
    rw (ltb-fits (length key) max_key_size key_fits, put_cf_with_ttl_inner)
      (rw (ltb-fits (length value) max_value_size value_fits, put_cf_with_ttl_inner)
        (write_point-IsWritten opts env cf (put_record opts env cf key value ttl)
          (put_record opts env cf key value ttl) (length key + length value) core works room))

get_cf-written :
    (cf : String) (l r : LogRecord) (n : ℕ) (core : EngineCore) (out : Result Bool × EngineCore)
    (env : Env) (key : Bytes)
    → IsWritten cf l r n core out
    → r.key ≡ key
    → (get_cf env cf key out.1).0
      ≡ ok (visible_value (covering_range_tombstone_ts core cf key) env.now r)
get_cf-written cf l r n core out env key written same =
    written.reads env cf key
    ∙ both (cf == cf) (r.key == key) ((eq_iff cf cf).1 refl) ((bytes_beq_iff r.key key).1 same)
  where
    both :
        (a b : Bool)
        → a ≡ true
        → b ≡ true
        → (if a && b
            then ok (visible_value (covering_range_tombstone_ts core cf key) env.now r)
            else (get_cf env cf key core).0)
          ≡ ok (visible_value (covering_range_tombstone_ts core cf key) env.now r)
    both a b p q = rw (p, q) refl

visible_value-live :
    (o : Option ℕ) (now : ℕ) (r : LogRecord)
    → hides o r.timestamp ≡ false
    → r.is_deleted ≡ false
    → r.expires_at ≡ none
    → visible_value o now r ≡ some r.value
unfolding visible_value is_expired_at
visible_value-live o now r shown live forever = rw shown (rw live (rw forever refl))

put_record-plain :
    (opts : EngineOptions) (env : Env) (cf : String) (key value : Bytes)
    → opts.default_ttl ≡ none
    → put_record opts env cf key value none ≡ in_family cf (Record.new env.now key value)
unfolding put_record with_default_ttl Record.new
put_record-plain opts env cf key value h = rw h refl

-- After a put without a time to live, with a log that takes appends, room in the memtable and no
-- range tombstone later than the put over the key, the key reads as the value.
pub get_cf-put :
    (opts : EngineOptions) (env env' : Env) (cf : String) (key value : Bytes) (core : EngineCore)
    → length key ≤ max_key_size
    → length value ≤ max_value_size
    → WalWorks env
    → bytes_of core cf + (length key + length value) < write_buffer_limit opts
    → opts.default_ttl ≡ none
    → hides (covering_range_tombstone_ts core cf key) env.now ≡ false
    → (get_cf env' cf key (put_cf_with_ttl_inner opts env cf key value none core).1).0
      ≡ ok (some value)
unfolding Record.new
get_cf-put opts env env' cf key value core key_fits value_fits works room no_ttl bare =
    get_cf-written cf (put_record opts env cf key value none)
      (put_record opts env cf key value none) (length key + length value) core
      (put_cf_with_ttl_inner opts env cf key value none core) env' key
      (put-IsWritten opts env cf key value none core key_fits value_fits works room)
      (ap (λ (r : LogRecord). r.key) plain)
    ∙ ap
        (λ (r : LogRecord). ok (visible_value (covering_range_tombstone_ts core cf key) env'.now r))
        plain
    ∙ ap ok (
        visible_value-live (covering_range_tombstone_ts core cf key) env'.now
          (in_family cf (Record.new env.now key value)) bare refl refl)
  where
    plain : put_record opts env cf key value none ≡ in_family cf (Record.new env.now key value)
    plain = put_record-plain opts env cf key value no_ttl

-- After a delete with a log that takes appends and room in the memtable, the key reads as absent.
pub get_cf-delete :
    (opts : EngineOptions) (env env' : Env) (cf : String) (key : Bytes) (core : EngineCore)
    → WalWorks env
    → bytes_of core cf + length key < write_buffer_limit opts
    → (get_cf env' cf key (delete_cf opts env cf key core).1).0 ≡ ok none
get_cf-delete opts env env' cf key core works room =
    ap (λ (p : Result Bool × EngineCore). (get_cf env' cf key p.1).0)
      (delete_cf-ran opts env cf key core works room)
    ∙ get_cf-tombstone cf key env.second_now (length key) (looked_up_core opts env cf key core) env'
