-- ===== src/External/Datastore.antt =====
-- The replicated datastore of go-ds-crdt, with `ds.NewKey` and the queries of go-datastore.
use Prim.Native.Nat.{Ordering}
use p2p_verse.Common.{
  ℕ, ◌≡◌, Bool, true, false, Option, none, some, List, [], ◌∷◌, Bytes, Error, Result, ok,
  if◌then◌else◌, bytes_eq, In, keep,
}
use p2p_verse.Std.Text.{slash, IsClean}

-- `query.Entry`; `value` is `none` for a nil slice, as in the results of a query for keys only.
pub record Entry : Type 0 where
  pub key : Bytes
  pub value : Option Bytes
  pub size : ℕ

abbrev pub Filter : Type 0
Filter = Entry → Bool

-- `lt`, `eq` and `gt` are -1, 0 and 1.
abbrev pub Order : Type 0
Order = Entry → Entry → Ordering

-- `query.Query`; `limit` 0 is no limit.
pub record Query : Type 0 where
  pub prefix : Bytes
  pub filters : List Filter
  pub orders : List Order
  pub limit : ℕ
  pub offset : ℕ
  pub keys_only : Bool
  pub returns_sizes : Bool

-- `query.Query{}`
abbrev pub empty_query : Query
empty_query = record {
  prefix = [];
  filters = [];
  orders = [];
  limit = 0;
  offset = 0;
  keys_only = false;
  returns_sizes = false;
}

abbrev pub value_bytes : Option Bytes → Bytes
value_bytes none = []
value_bytes (some v) = v

-- The results of a query are delivered whole, or the query fails.
pub record Datastore : Type 1 where
  pub State : Type 0
  pub new_key : Bytes → Bytes
  pub put : State → Bytes → Bytes → State × Option Error
  pub get : State → Bytes → Result (Option Bytes)
  pub get_size : State → Bytes → Result ℕ
  pub has : State → Bytes → Result Bool
  pub query : State → Query → Result (List Entry)
  pub sync : State → Bytes → State × Option Error
  -- `query.NaiveFilter` and `query.NaiveQueryApply`
  pub naive_filter : List Entry → Filter → List Entry
  pub naive_query_apply : Query → List Entry → List Entry

-- All filters pass.
abbrev pub passes : List Filter → Entry → Bool
passes [] e = true
passes (f ∷ fs) e = if f e then passes fs e else false

-- The documented behaviour that the stores rely on.
pub record IsLawful (d : Datastore) : Type 0 where
  -- `NewKey` puts a slash in front of a clean name.
  pub new_key_clean : (k : Bytes) → IsClean k → d.new_key k ≡ slash ∷ k
  -- A read sees the writes that succeeded.
  pub get-put :
      (s : d.State) (k v j : Bytes)
      → (d.put s k v).1 ≡ none
      → d.get (d.put s k v).0 j ≡ (if bytes_eq j k then ok (some v) else d.get s j)
  pub has-put :
      (s : d.State) (k v j : Bytes)
      → (d.put s k v).1 ≡ none
      → d.has (d.put s k v).0 j ≡ (if bytes_eq j k then ok true else d.has s j)
  pub has_of_get : (s : d.State) (k v : Bytes) → d.get s k ≡ ok (some v) → d.has s k ≡ ok true
  -- With no keys-only flag a query returns stored entries that pass the filters.
  pub query_sound :
      (s : d.State) (q : Query) (es : List Entry) (e : Entry)
      → d.query s q ≡ ok es
      → q.keys_only ≡ false
      → In e es
      → (d.get s e.key ≡ ok e.value) × (passes q.filters e ≡ true)
  -- With no prefix, limit or offset it returns all of them.
  pub query_complete :
      (s : d.State) (fs : List Filter) (es : List Entry) (k v : Bytes)
      → d.query s (record empty_query { filters = fs }) ≡ ok es
      → d.get s k ≡ ok (some v)
      → ((n : ℕ) → passes fs (record { key = k; value = some v; size = n }) ≡ true)
      → (e : Entry) × In e es × (e.key ≡ k) × (e.value ≡ some v)
  pub naive_filter_lem : (es : List Entry) (f : Filter) → d.naive_filter es f ≡ keep f es
  -- `NaiveQueryApply` leaves out what does not pass the filters, and adds nothing.
  pub naive_query_apply_sound :
      (q : Query) (es : List Entry) (e : Entry)
      → In e (d.naive_query_apply q es)
      → In e es × (passes q.filters e ≡ true)
