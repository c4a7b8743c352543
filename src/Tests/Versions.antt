-- ===== src/Tests/Versions.antt =====
-- The updatable store: two categories, one of them with two versions.
use Prim.Native.String.{String}
use p2p_verse.Common.{
  ℕ, ◌+◌, ◌≡◌, refl, true, some, List, [], ◌∷◌, ◌++◌, ok, codes, Bytes, keep, bytes_eq,
}
use p2p_verse.Std.Text.{
  slash, split, trim_slash, has_prefix, compare_bytes, join, init_parts, last_part,
}
use p2p_verse.Std.Base64.{encode, decode}
use p2p_verse.Std.Time.{Time, utc, zero_time, equal, before, after, marshal, unmarshal}
use p2p_verse.External.Datastore.{Entry}
use p2p_verse.Sample.Memory.{memory, lookup, entries, answer}
use p2p_verse.Crdt.Filters.{parts}
use p2p_verse.Crdt.Base.{BaseStore}
use p2p_verse.Crdt.Base
use p2p_verse.Crdt.Updatable.{
  put, query, query_all, base_query, is_full, category, category_order, updatable_order, latest,
  stamped_key,
}

abbrev empty : BaseStore memory
empty = record { name = codes "us"; time_limit = zero_time; in_time = true; dt = [] }

abbrev at : ℕ → Time
at n = record { sec = 63800000000 + n; nsec = 0; zone = utc }

-- To unfold this is to unfold what a run of an updatable store calls.
runs : BaseStore memory → BaseStore memory
unfolding put query query_all base_query is_full category category_order updatable_order latest
    stamped_key Base.put Base.query marshal unmarshal equal before after encode decode lookup
    entries answer parts split trim_slash has_prefix compare_bytes join init_parts last_part keep
    bytes_eq
runs s = s

abbrev puts : BaseStore memory
puts =
    let s1 = (put memory (at 2) empty (codes "bb") (codes "1")).0 in
    let s2 = (put memory (at 1) s1 (codes "aa") (codes "2")).0 in
    (put memory (at 3) s2 (codes "aa") (codes "3")).0

-- The key of a version.
abbrev version : String → ℕ → String → Entry
version c n v = record {
  key = slash ∷ (codes c ++ (slash ∷ encode (stamp n)));
  value = some (codes v);
  size = 1;
}
  where
    stamp : ℕ → Bytes
    stamp n = 1 ∷ 0 ∷ 0 ∷ 0 ∷ 14 ∷ 218 ∷ 198 ∷ 190 ∷ n ∷ 0 ∷ 0 ∷ 0 ∷ 0 ∷ 255 ∷ 255 ∷ []

abbrev answered : List Entry
answered = version "aa" 3 "3" ∷ version "aa" 1 "2" ∷ version "bb" 2 "1" ∷ []

newest_of_each : query memory puts [] ≡ ok (version "aa" 3 "3" ∷ version "bb" 2 "1" ∷ [])
unfolding runs
newest_of_each = refl
