-- ===== src/Tests/Rounds.antt =====
-- The goroutines of a store with a time limit.
use p2p_verse.Common.{◌+◌, ◌<◌, ◌≡◌, refl, true, false, [], codes, arith}
use p2p_verse.Std.Time.{Time, utc, zero_time, equal, before}
use p2p_verse.Sample.Memory.{memory}
use p2p_verse.Crdt.Base
use p2p_verse.Crdt.Base.{BaseStore}
use p2p_verse.Crdt.Base.Running.{
  Running, set_time_limit, time_up, auto_sync, tick, here, act, round, keeps_in_sync, times_up,
  ticks,
}
use p2p_verse.Crdt.Base.Running.Rounds.{Run-late, IsGuarded, Run-IsGuarded}

abbrev noon : Time
noon = record { sec = 100; nsec = 0; zone = utc }

abbrev store : BaseStore memory
store = record { name = codes "lg"; time_limit = noon; in_time = true; dt = [] }

abbrev opened : Running memory
opened = record { base = store; done = false; waiting = 0; syncing = 0 }

abbrev early : Time
early = record { sec = 90; nsec = 0; zone = utc }

-- Opened in time, and kept in sync.
abbrev kept : Running memory
kept = auto_sync memory (set_time_limit memory early opened)

limited : equal noon zero_time ≡ false
unfolding equal
limited = refl

is_syncing : 0 < kept.syncing
unfolding auto_sync set_time_limit Base.set_time_limit Base.sync before equal
is_syncing = omega arith

Run-IsGuarded_example : IsGuarded (tick memory kept) × ((tick memory kept).base.time_limit ≡ noon)
Run-IsGuarded_example =
    Run-IsGuarded memory opened early limited (
      round (act here (keeps_in_sync (set_time_limit memory early opened))) (ticks kept is_syncing))

-- Past its limit, with both goroutines still there.
abbrev past : Running memory
past = record { base = record store { in_time = false }; done = false; waiting = 1; syncing = 1 }

still_syncing : 0 < (time_up memory past).syncing
unfolding time_up
still_syncing = omega arith

Run-late_example :
    2 + ((tick memory (time_up memory past)).waiting + (tick memory (time_up memory past)).syncing)
    ≡ 1 + 1
Run-late_example =
    Run-late memory refl
      (round (round here (times_up past (omega arith))) (ticks (time_up memory past) still_syncing))
