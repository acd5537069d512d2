-- ===== src/Crdt.antt =====
-- infra/crdt.rs: a last-writer-wins map and two counters. A map is walked in the order of its pairs.
pub mod Laws
use apex_store.Base.{
  ℕ, ◌+◌, ◌-◌, ◌^◌, ◌%◌, min, max, String, Bool, Option, none, some, List, [], ◌∷◌, map, length,
  leb, if◌then◌else◌, string_eq,
}
use apex_store.Base.Bytes.{Bytes, bytes_eq}
use apex_store.Base.Dict
use apex_store.Base.Dict.{Dict}

abbrev pub u64_max : ℕ
u64_max = 2 ^ 64 - 1

pub record CrdtEntry : Type 0 where
  pub key : Bytes
  pub value : Bytes
  pub timestamp : ℕ

pub record CrdtEngine : Type 0 where
  pub state : Dict Bytes (Bytes × ℕ)

-- `match self.state.get(&key)`
unfoldable pub merge_over : Option (Bytes × ℕ) → Bytes → Bytes → ℕ → CrdtEngine → CrdtEngine
unfolding Dict.insert
merge_over none key value timestamp e = record {
  state = Dict.insert key (value, timestamp) e.state;
}
merge_over (some (old, existing_ts)) key value timestamp e =
    if leb timestamp existing_ts
    then e
    else record { state = Dict.insert key (value, timestamp) e.state }

unfoldable pub merge : Bytes → Bytes → ℕ → CrdtEngine → CrdtEngine
unfolding merge_over Dict.get
merge key value timestamp e = merge_over (Dict.get key e.state) key value timestamp e

unfoldable pub get_state : Bytes → CrdtEngine → Option (Bytes × ℕ)
unfolding Dict.get
get_state key e = Dict.get key e.state

unfoldable pub resolve_conflicts : Bytes → CrdtEngine → Option CrdtEntry
unfolding Dict.get
resolve_conflicts key e = elim (Dict.get key e.state) [
  | none ↦ none
  | some (v, ts) ↦ some (record { key = key; value = v; timestamp = ts })
]

unfoldable pub get_all_entries : CrdtEngine → List CrdtEntry
get_all_entries e =
    map (λ (p : Bytes × (Bytes × ℕ)). record { key = p.0; value = p.1.0; timestamp = p.1.1 })
      e.state

pub record GCounter : Type 0 where
  pub counters : Dict String ℕ

abbrev pub count_in : String → Dict String ℕ → ℕ
unfolding Dict.get
count_in node m = elim (Dict.get node m) [ none ↦ 0 | some n ↦ n ]

unfoldable pub increment : String → ℕ → GCounter → GCounter
unfolding Dict.insert count_in
increment node amount c = record {
  counters = Dict.insert node (min (count_in node c.counters + amount) u64_max) c.counters;
}

abbrev pub sum : Dict String ℕ → ℕ
sum [] = 0
sum ((node, n) ∷ m) = n + sum m

-- The sum wraps around in a release build.
unfoldable pub value : GCounter → ℕ
value c = sum c.counters % 2 ^ 64

unfoldable pub merge_counts : Dict String ℕ → Dict String ℕ → Dict String ℕ
unfolding Dict.insert count_in
merge_counts [] m = m
merge_counts ((node, n) ∷ other) m =
    merge_counts other (Dict.insert node (max (count_in node m) n) m)

unfoldable pub merge_counter : GCounter → GCounter → GCounter
unfolding merge_counts
merge_counter other c = record { counters = merge_counts other.counters c.counters }

pub record PnCounter : Type 0 where
  pub positive : GCounter
  pub negative : GCounter

unfoldable pub increment_pn : String → ℕ → PnCounter → PnCounter
unfolding increment
increment_pn node amount c = record c { positive = increment node amount c.positive }

unfoldable pub decrement_pn : String → ℕ → PnCounter → PnCounter
unfolding increment
decrement_pn node amount c = record c { negative = increment node amount c.negative }

unfoldable pub merge_pn : PnCounter → PnCounter → PnCounter
unfolding merge_counter
merge_pn other c = record {
  positive = merge_counter other.positive c.positive;
  negative = merge_counter other.negative c.negative;
}
