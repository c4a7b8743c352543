-- ===== src/Crdt/Updatable.antt =====
-- crdt/updatable.go: a store that keeps every version of a value under `<category>/<time>`, where
-- the time is the base64 of a binary UTC instant. The clock's reading is an argument.
pub mod Answers
pub mod Latest
pub mod Stamped
use Prim.Native.Nat.{Ordering}
use p2p_verse.Common.{
  ℕ, ◌≡◌, refl, Bool, true, false, not, ◌&&◌, Option, none, some, List, [], ◌∷◌, ◌++◌, arith, Bytes,
  Error, no_valid_data, Result, ok, err, ◌>>=◌, length, ltb, if◌then◌else◌, bytes_eq, keep,
}
use p2p_verse.Std.Base64.{encode, decode}
use p2p_verse.Std.Text.{slash, join, compare_bytes, last_part, init_parts}
use p2p_verse.Std.Time
use p2p_verse.Std.Time.{Time, equal, after, before, is_utc, to_utc}
use p2p_verse.External.Datastore.{Datastore, Entry, Query, Order, empty_query}
use p2p_verse.Crdt.Filters.{parts}
use p2p_verse.Crdt.Base
use p2p_verse.Crdt.Base.{BaseStore, query_of, one_key}

-- `len(keys) >= 2`
unfoldable pub is_full : Entry → Bool
is_full e = not (ltb (length (parts e.key)) 2)

-- The key without its last part.
unfoldable pub category : Entry → Bytes
category e = join (init_parts (parts e.key))

-- `categoryOrder.Compare`
unfoldable pub category_order : Order
unfolding is_full
category_order a b =
    if not (is_full a)
    then Ordering.gt
    else if not (is_full b)
    then Ordering.lt
    else compare_bytes (category a) (category b)

compare_times : Result Time → Result Time → Ordering
compare_times (err e) tb = Ordering.gt
compare_times (ok ta) (err e) = Ordering.lt
compare_times (ok ta) (ok tb) =
    if equal (to_utc ta) (to_utc tb)
    then Ordering.eq
    else if after (to_utc ta) (to_utc tb)
    then Ordering.lt
    else Ordering.gt

compare_stamps : Result Bytes → Result Bytes → Ordering
compare_stamps (err e) mb = Ordering.gt
compare_stamps (ok ma) (err e) = Ordering.lt
compare_stamps (ok ma) (ok mb) = compare_times (Time.unmarshal ma) (Time.unmarshal mb)

-- `updatableOrder.Compare`: the newer entry comes first.
unfoldable pub updatable_order : Order
unfolding compare_stamps compare_times
updatable_order a b =
    compare_stamps (decode (last_part (parts a.key))) (decode (last_part (parts b.key)))

unfoldable pub in_past : Time → Result Time → Bool
in_past now (err e) = false
in_past now (ok t) = is_utc t && before t (to_utc now)

-- `updatableValidator.Validate` round another validator.
unfoldable pub validate : (Bytes → Bytes → Bool) → Time → Bytes → Bytes → Bool
unfolding in_past
validate inner now key val =
    if inner key val then in_past now (decode (last_part (parts key)) >>= Time.unmarshal) else false

-- `key + "/" + tKey`
unfoldable pub stamped_key : Time → Bytes → Result Bytes
stamped_key now key = do tb ← Time.marshal (to_utc now); ok (key ++ (slash ∷ encode tb))

-- The first result of a query, unless its value is nil.
first_value : List Entry → Result Bytes
first_value [] = err no_valid_data
first_value (r ∷ rs) = elim r.value [ none ↦ err no_valid_data | some v ↦ ok v ]

first_size : List Entry → Result ℕ
first_size [] = err no_valid_data
first_size (r ∷ rs) = elim r.value [ none ↦ err no_valid_data | some v ↦ ok r.size ]

-- The category to go on with, if `Query` sends the result.
turn : Bytes → Entry → Option Bytes
turn c_key r =
    if not (is_full r)
    then none
    else if not (bytes_eq c_key (category r))
    then some (category r)
    else none

-- The loop of `Query`
unfoldable pub latest : Bytes → List Entry → List Entry
unfolding turn
latest c_key [] = []
latest c_key (r ∷ rs) = elim (turn c_key r) [
  | none ↦ latest c_key rs
  | some c_key2 ↦ r ∷ latest c_key2 rs
]

abbrev pub newest_first : Query → Query
newest_first q = record q { orders = q.orders ++ (category_order ∷ updatable_order ∷ []) }

abbrev under : Bytes → Query
under key = record empty_query { prefix = slash ∷ key; orders = updatable_order ∷ []; limit = 1 }

module _ (d : Datastore) where
  put_stamped : BaseStore d → Bytes → Result Bytes → BaseStore d × Option Error
  put_stamped s val (err e) = (s, some e)
  put_stamped s val (ok key) = Base.put d s key val

  unfoldable pub put : Time → BaseStore d → Bytes → Bytes → BaseStore d × Option Error
  unfolding put_stamped
  put now s key val = put_stamped s val (stamped_key now key)

  unfoldable pub get : BaseStore d → Bytes → Result Bytes
  unfolding first_value
  get s key = Base.query d s (under key ∷ []) >>= first_value

  unfoldable pub get_size : BaseStore d → Bytes → Result ℕ
  unfolding first_size
  get_size s key = Base.query d s (record (under key) { returns_sizes = true } ∷ []) >>= first_size

  unfoldable pub has : BaseStore d → Bytes → Result Bool
  has s key = do
    rs ← Base.query d s (record (under key) { keys_only = true } ∷ [])
    ok (ltb 0 (length rs))

  unfoldable pub base_query : BaseStore d → List Query → Result (List Entry)
  base_query s qs = Base.query d s (newest_first (query_of qs) ∷ [])

  unfoldable pub query : BaseStore d → List Query → Result (List Entry)
  query s qs = do rs ← base_query s qs; ok (latest [] rs)

  unfoldable pub query_all : BaseStore d → List Query → Result (List Entry)
  query_all s qs = do rs ← base_query s qs; ok (keep is_full rs)

  unfoldable pub init_put : Time → BaseStore d → BaseStore d × Option Error
  init_put now s = put now s s.name s.name

  unfoldable pub load_check : BaseStore d → Bool
  load_check s = if not s.in_time then true else Base.is_present (query s (one_key ∷ []))
