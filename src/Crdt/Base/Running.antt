-- ===== src/Crdt/Base/Running.antt =====
-- The goroutines of a store that is open: those that `setTimeLimit` and `autoSync` of
-- crdt/crdtverse.go start. A round of one is a case of its `select`, which may be taken when its
-- channel is ready.
pub mod Rounds
use p2p_verse.Common.{
  ℕ, zero, suc, ◌+◌, ◌-◌, ◌<◌, ◌≡◌, refl, ◌⊎◌, inl, inr, Bool, true, false, not, Option, none, some,
  arith, Bytes, Error, if◌then◌else◌, ◌∙◌, Option-cases, Bool-cases, ap,
}
use p2p_verse.Std.Time.{Time, zero_time, before, equal}
use p2p_verse.External.Datastore.{Datastore}
use p2p_verse.Crdt.Base
use p2p_verse.Crdt.Base.{BaseStore, put, deadline, sync}

-- The store, whether its context is done, and how many goroutines wait for the deadline and how
-- many sync at every tick.
pub record Running (d : Datastore) : Type 0 where
  pub base : BaseStore d
  pub done : Bool
  pub waiting : ℕ
  pub syncing : ℕ

abbrev is_nil : Option Error → Bool
is_nil none = true
is_nil (some e) = false

module _ (d : Datastore) where
  -- `setTimeLimit`, with the start of its goroutine
  unfoldable pub set_time_limit : Time → Running d → Running d
  set_time_limit now r =
      let (b, started) = Base.set_time_limit d now r.base in
      record r { base = b; waiting = if started then suc r.waiting else r.waiting }

  -- The goroutine of `setTimeLimit`: the deadline, or the end of the store's context.
  unfoldable pub time_up : Running d → Running d
  time_up r = record r { base = deadline d r.base; waiting = r.waiting - 1 }

  unfoldable pub give_up : Running d → Running d
  give_up r = record r { waiting = r.waiting - 1 }

  -- `autoSync`, with the start of its goroutine
  unfoldable pub auto_sync : Running d → Running d
  auto_sync r =
      let (b, e) = sync d r.base in
      if not r.base.in_time
      then r
      else record r { base = b; syncing = if is_nil e then suc r.syncing else r.syncing }

  -- The goroutine of `autoSync`: a tick, or the end of the store's context.
  unfoldable pub tick : Running d → Running d
  tick r =
      let (b, e) = sync d r.base in
      if not r.base.in_time
      then record r { syncing = r.syncing - 1 }
      else record r { base = b; syncing = if is_nil e then r.syncing else r.syncing - 1 }

  unfoldable pub stop : Running d → Running d
  stop r = record r { syncing = r.syncing - 1 }

  -- `s.cancel()` in `Cancel`
  unfoldable pub cancel_context : Running d → Running d
  cancel_context r = record r { done = true }

  -- A case of the `select` of a goroutine.
  pub data Round : Running d → Running d → Type 0 where
    times_up : (r : Running d) → 0 < r.waiting → Round r (time_up r)
    gives_up : (r : Running d) → 0 < r.waiting → r.done ≡ true → Round r (give_up r)
    ticks : (r : Running d) → 0 < r.syncing → Round r (tick r)
    stops : (r : Running d) → 0 < r.syncing → r.done ≡ true → Round r (stop r)

  -- What the users of the store do meanwhile.
  pub data Act : Running d → Running d → Type 0 where
    writes :
        (r : Running d) (key val : Bytes) → Act r (record r { base = (put d r.base key val).0 })
    syncs : (r : Running d) → Act r (record r { base = (sync d r.base).0 })
    limits : (r : Running d) (now : Time) → Act r (set_time_limit now r)
    keeps_in_sync : (r : Running d) → Act r (auto_sync r)
    cancels : (r : Running d) → Act r (cancel_context r)

  -- A run with so many rounds.
  pub data Run (r : Running d) : ℕ → Running d → Type 0 where
    here : Run r 0 r
    act : {n : ℕ} {s t : Running d} → Run r n s → Act s t → Run r n t
    round : {n : ℕ} {s t : Running d} → Run r n s → Round s t → Run r (suc n) t
