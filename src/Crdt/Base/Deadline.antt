-- ===== src/Crdt/Base/Deadline.antt =====
-- The time limit: a store that has run out of time stays so, and its validator accepts nothing.
use p2p_verse.Common.{◌≡◌, refl, true, false, arith, Bytes, not, ◌∙◌}
use p2p_verse.Std.Time.{Time, zero_time, before, equal}
use p2p_verse.External.Datastore.{Datastore}
use p2p_verse.Crdt.Base.{BaseStore, put, init_put, set_time_limit, deadline, sync, validate}

-- What can happen to a store between two looks at it: a write, a first write, the check of the time
-- limit at some instant, the deadline, a synchronisation.
pub data Step (d : Datastore) : BaseStore d → BaseStore d → Type 0 where
  write : (s : BaseStore d) (key val : Bytes) → Step d s (put d s key val).0
  first_write : (s : BaseStore d) → Step d s (init_put d s).0
  check : (s : BaseStore d) (now : Time) → Step d s (set_time_limit d now s).0
  expire : (s : BaseStore d) → Step d s (deadline d s)
  exchange : (s : BaseStore d) → Step d s (sync d s).0

pub data Reach (d : Datastore) (s : BaseStore d) : BaseStore d → Type 0 where
  here : Reach d s s
  next : {t u : BaseStore d} → Reach d s t → Step d t u → Reach d s u

-- What no step changes, and what a step changes one way only.
record Ages {d : Datastore} (s t : BaseStore d) : Type 0 where
  late : s.in_time ≡ false → t.in_time ≡ false
  name : t.name ≡ s.name
  time_limit : t.time_limit ≡ s.time_limit

module _ (d : Datastore) where
  put-Ages : (s : BaseStore d) (key val : Bytes) → Ages s (put d s key val).0
  unfolding put
  put-Ages s key val = ground arith

  Step-Ages : {s t : BaseStore d} → Step d s t → Ages s t
  unfolding init_put set_time_limit deadline sync
  Step-Ages (write s key val) = put-Ages s key val
  Step-Ages (first_write s) = put-Ages s s.name s.name
  Step-Ages (check s now) = ground arith
  Step-Ages (expire s) = ground arith
  Step-Ages (exchange s) = ground arith

  -- Once the time limit has passed, whatever happens to the store, its validator refuses every
  -- entry, and the name and the time limit are still the same.
  pub validate_late :
      {s t : BaseStore d} (key val : Bytes)
      → s.in_time ≡ false
      → Reach d s t
      → (validate d t key val ≡ false) × (t.name ≡ s.name) × (t.time_limit ≡ s.time_limit)
  unfolding validate
  validate_late key val h here = (h, refl, refl)
  validate_late key val h (next r st) =
      let (late, name, limit) = validate_late key val h r in
      let ages = Step-Ages st in (ages.late late, ages.name ∙ name, ages.time_limit ∙ limit)

  -- A limit that lies before the current instant ends the store's time at once and starts no
  -- timer; one that does not, and is not the zero time, leaves it in time and starts the timer.
  pub set_time_limit_lem :
      (now : Time) (s : BaseStore d)
      → s.in_time ≡ true
      → equal s.time_limit zero_time ≡ false
      → ((set_time_limit d now s).0.in_time ≡ not (before s.time_limit now))
        × ((set_time_limit d now s).1 ≡ not (before s.time_limit now))
  unfolding set_time_limit
  set_time_limit_lem now s h k = ground arith
