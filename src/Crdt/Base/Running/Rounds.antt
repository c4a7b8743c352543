-- ===== src/Crdt/Base/Running/Rounds.antt =====
-- How the goroutines of a store end, and that one waits for the deadline.
use p2p_verse.Common.{ℕ, suc, ◌+◌, ◌<◌, ◌≡◌, refl, ◌⊎◌, inl, inr, true, false, arith, ◌∙◌}
use p2p_verse.Std.Time.{Time, zero_time, equal}
use p2p_verse.External.Datastore.{Datastore}
use p2p_verse.Crdt.Base
use p2p_verse.Crdt.Base.{BaseStore, put, deadline, sync}
use p2p_verse.Crdt.Base.Running.{
  Running, set_time_limit, time_up, give_up, auto_sync, tick, stop, cancel_context, Round, times_up,
  gives_up, ticks, stops, Act, writes, syncs, limits, keeps_in_sync, cancels, Run, here, act, round,
}

-- What a step leaves of a store's time.
record Ages {d : Datastore} (r s : Running d) : Type 0 where
  late : r.base.in_time ≡ false → s.base.in_time ≡ false
  limit : s.base.time_limit ≡ r.base.time_limit

-- The store is out of time, its context is done, or a goroutine waits for the deadline.
abbrev pub IsGuarded : {d : Datastore} → Running d → Type 0
IsGuarded r = (r.base.in_time ≡ false) ⊎ (r.done ≡ true) ⊎ (0 < r.waiting)

module _ (d : Datastore) where
  Round-Ages : {r s : Running d} → Round d r s → Ages r s
  unfolding time_up give_up tick stop deadline sync
  Round-Ages (times_up r h) = ground arith
  Round-Ages (gives_up r h k) = ground arith
  Round-Ages (ticks r h) = ground arith
  Round-Ages (stops r h k) = ground arith

  Act-Ages : {r s : Running d} → Act d r s → Ages r s
  unfolding set_time_limit auto_sync cancel_context Base.set_time_limit put sync
  Act-Ages (writes r key val) = ground arith
  Act-Ages (syncs r) = ground arith
  Act-Ages (limits r now) = ground arith
  Act-Ages (keeps_in_sync r) = ground arith
  Act-Ages (cancels r) = ground arith

  -- Out of time, a round ends its goroutine, and nothing starts one.
  Round-late :
      {r s : Running d}
      → Round d r s
      → r.base.in_time ≡ false
      → suc (s.waiting + s.syncing) ≡ r.waiting + r.syncing
  unfolding time_up give_up tick stop
  Round-late (times_up r h) late = ground arith
  Round-late (gives_up r h k) late = ground arith
  Round-late (ticks r h) late = ground arith
  Round-late (stops r h k) late = ground arith

  Act-late :
      {r s : Running d}
      → Act d r s
      → r.base.in_time ≡ false
      → s.waiting + s.syncing ≡ r.waiting + r.syncing
  unfolding set_time_limit auto_sync cancel_context Base.set_time_limit
  Act-late (writes r key val) late = refl
  Act-late (syncs r) late = refl
  Act-late (limits r now) late = ground arith
  Act-late (keeps_in_sync r) late = ground arith
  Act-late (cancels r) late = refl

  late-Run :
      {r s : Running d} {n : ℕ}
      → Run d r n s
      → r.base.in_time ≡ false
      → (s.base.in_time ≡ false) × (n + (s.waiting + s.syncing) ≡ r.waiting + r.syncing)
  late-Run here late = (late, omega arith)
  late-Run (act run a) late =
      let (still, count) = late-Run run late in
      ((Act-Ages a).late still, omega (arith, Act-late a still))
  late-Run (round run m) late =
      let (still, count) = late-Run run late in
      ((Round-Ages m).late still, omega (arith, Round-late m still))

  -- Once the time limit has passed, no goroutine is started any more and each has one round left:
  -- whatever is done with the store, the rounds of a run and the goroutines left after it are
  -- together the goroutines there were.
  pub Run-late :
      {r s : Running d} {n : ℕ}
      → r.base.in_time ≡ false
      → Run d r n s
      → n + (s.waiting + s.syncing) ≡ r.waiting + r.syncing
  Run-late late run = (late-Run run late).1

  set_time_limit-IsGuarded :
      (r : Running d) (now : Time)
      → equal r.base.time_limit zero_time ≡ false
      → IsGuarded (set_time_limit d now r)
  unfolding set_time_limit Base.set_time_limit
  set_time_limit-IsGuarded r now h = ground arith

  Round-IsGuarded : {r s : Running d} → Round d r s → IsGuarded r → IsGuarded s
  unfolding time_up give_up tick stop deadline sync
  Round-IsGuarded (times_up r h) g = inl refl
  Round-IsGuarded (gives_up r h k) g = inr (inl k)
  Round-IsGuarded (ticks r h) g = ground arith
  Round-IsGuarded (stops r h k) g = inr (inl k)

  Act-IsGuarded : {r s : Running d} → Act d r s → IsGuarded r → IsGuarded s
  unfolding set_time_limit auto_sync cancel_context Base.set_time_limit put sync
  Act-IsGuarded (writes r key val) g = ground arith
  Act-IsGuarded (syncs r) g = ground arith
  Act-IsGuarded (limits r now) g = ground arith
  Act-IsGuarded (keeps_in_sync r) g = ground arith
  Act-IsGuarded (cancels r) g = inr (inl refl)

  -- After `setTimeLimit` of a store with a time limit, in every run, the limit stays, and as long as
  -- the store is in time and its context is not done, a goroutine waits for the deadline.
  pub Run-IsGuarded :
      (r : Running d) (now : Time) {s : Running d} {n : ℕ}
      → equal r.base.time_limit zero_time ≡ false
      → Run d (set_time_limit d now r) n s
      → IsGuarded s × (s.base.time_limit ≡ r.base.time_limit)
  Run-IsGuarded r now h here = (set_time_limit-IsGuarded r now h, (Act-Ages (limits r now)).limit)
  Run-IsGuarded r now h (act run a) =
      let (g, same) = Run-IsGuarded r now h run in (Act-IsGuarded a g, (Act-Ages a).limit ∙ same)
  Run-IsGuarded r now h (round run m) =
      let (g, same) = Run-IsGuarded r now h run in
      (Round-IsGuarded m g, (Round-Ages m).limit ∙ same)
