-- ===== src/Tests/Stores.antt =====
-- The base, hash and signature stores.
use p2p_verse.Common.{◌≡◌, refl, true, none, [], ◌∷◌, ok, codes, bytes_eq}
use p2p_verse.Std.Time.{zero_time}
use p2p_verse.Sample.Memory.{memory, memory-IsLawful, lookup}
use p2p_verse.Crdt.Base.{BaseStore, put, get}
use p2p_verse.Crdt.Base.AppendOnly.{put_keeps}

abbrev empty : BaseStore memory
empty = record { name = codes "lg"; time_limit = zero_time; in_time = true; dt = [] }

abbrev one : BaseStore memory
one = record empty { dt = (codes "/a", codes "1") ∷ [] }

one_put : (put memory one (codes "b") (codes "2")).1 ≡ none
unfolding put lookup bytes_eq
one_put = refl

one_get : get memory one (codes "a") ≡ ok (codes "1")
unfolding get lookup bytes_eq
one_get = refl

put_keeps_example :
    get memory (put memory one (codes "b") (codes "2")).0 (codes "a") ≡ ok (codes "1")
put_keeps_example =
    put_keeps memory memory-IsLawful one (codes "b") (codes "2") (codes "a") (codes "1") one_put
      one_get
