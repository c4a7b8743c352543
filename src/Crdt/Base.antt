-- ===== src/Crdt/Base.antt =====
-- crdt/crdtverse.go: `baseStore` and `baseValidator`. The host, the routing table, the context and
-- the two handles of the replicated datastore are its `State`; a store that has been closed is one
-- whose datastore answers with errors.
pub mod AppendOnly
pub mod Deadline
pub mod Refinement
pub mod Running
use p2p_verse.Common.{
  ◌≡◌, ◌≢◌, refl, Bool, true, false, not, Option, none, some, List, [], ◌∷◌, arith, Bytes, Error,
  already_exist, no_valid_data, Result, ok, err, ◌>>=◌, length, ltb, if◌then◌else◌, ℕ,
}
use p2p_verse.Std.Text.{slash}
use p2p_verse.Std.Time.{Time, zero_time, before, equal}
use p2p_verse.External.Datastore.{Datastore, Query, Entry, empty_query}

pub record BaseStore (d : Datastore) : Type 0 where
  pub name : Bytes
  pub time_limit : Time
  pub in_time : Bool
  pub dt : d.State

-- `ok && err == nil`
abbrev pub is_true : Result Bool → Bool
is_true (ok b) = b
is_true (err e) = false

abbrev pub non_nil : Option Bytes → Result Bytes
non_nil none = err no_valid_data
non_nil (some b) = ok b

abbrev pub is_present : Result (List Entry) → Bool
is_present (ok es) = ltb 0 (length es)
is_present (err e) = false

abbrev pub one_key : Query
one_key = record empty_query { keys_only = true; limit = 1 }

abbrev pub query_of : List Query → Query
query_of [] = empty_query
query_of (q ∷ qs) = q

module _ (d : Datastore) where
  unfoldable pub has : BaseStore d → Bytes → Result Bool
  has s key = d.has s.dt (d.new_key key)

  unfoldable pub put : BaseStore d → Bytes → Bytes → BaseStore d × Option Error
  unfolding has
  put s key val =
      if is_true (has s key)
      then (s, some already_exist)
      else (let (dt, e) = d.put s.dt (d.new_key key) val in (record s { dt = dt }, e))

  unfoldable pub get : BaseStore d → Bytes → Result Bytes
  get s key = d.get s.dt (d.new_key key) >>= non_nil

  pub get_size : BaseStore d → Bytes → Result ℕ
  get_size s key = d.get_size s.dt (d.new_key key)

  unfoldable pub query : BaseStore d → List Query → Result (List Entry)
  query s qs = d.query s.dt (query_of qs)

  unfoldable pub init_put : BaseStore d → BaseStore d × Option Error
  init_put s = put s s.name s.name

  -- `len(resList) > 0 && err == nil`
  pub load_check : BaseStore d → Bool
  unfolding query
  load_check s = if not s.in_time then true else is_present (query s (one_key ∷ []))

  -- `baseValidator.Validate`
  unfoldable pub validate : BaseStore d → Bytes → Bytes → Bool
  validate s key val = s.in_time

  -- The part of `setTimeLimit` before its goroutine; the flag says that the goroutine is started.
  unfoldable pub set_time_limit : Time → BaseStore d → BaseStore d × Bool
  set_time_limit now s =
      if not s.in_time
      then (s, false)
      else if equal s.time_limit zero_time
      then (s, false)
      else if before s.time_limit now
      then (record s { in_time = false }, false)
      else (s, true)

  -- What the goroutine does at the deadline, unless the store's context ended first.
  unfoldable pub deadline : BaseStore d → BaseStore d
  deadline s = record s { dt = (d.sync s.dt (d.new_key (slash ∷ []))).0; in_time = false }

  unfoldable pub sync : BaseStore d → BaseStore d × Option Error
  sync s =
      if not s.in_time
      then (s, none)
      else (let (dt, e) = d.sync s.dt (d.new_key (slash ∷ [])) in (record s { dt = dt }, e))
