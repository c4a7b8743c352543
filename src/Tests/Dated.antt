-- ===== src/Tests/Dated.antt =====
-- A copy of an updatable signature store that writes one version and receives another.
use p2p_verse.Common.{
  ℕ, ◌+◌, ◌≡◌, ◌≢◌, refl, In, inl, inr, none, some, true, [], ◌∷◌, ◌++◌, codes, Bytes, bytes_eq,
  arith, keep,
}
use p2p_verse.Std.Base64.{encode, decode}
use p2p_verse.Std.Text.{slash, split, join, trim_slash, first_part, last_part, IsClean}
use p2p_verse.Std.Time.{Time, utc, zero_time, before, marshal, unmarshal}
use p2p_verse.Std.Time.RoundTrip.{IsValid}
use p2p_verse.External.Crypto.{PubKey, PrivKey}
use p2p_verse.Sample.Crypto.{toy, toy-IsLawful, toy-IsPair, raise, lower}
use p2p_verse.Sample.Fields.{write_fields, read_fields, seal_bytes}
use p2p_verse.Sample.Memory.{memory, memory-IsLawful, lookup}
use p2p_verse.Sample.Paths.{canon, walk}
use p2p_verse.Sample.Replicas.{chain, chain-IsLawful, holds, write_all}
use p2p_verse.Crdt.Filters.{parts}
use p2p_verse.Crdt.Base
use p2p_verse.Crdt.Base.{BaseStore}
use p2p_verse.Crdt.Crypto.{pub_key_to_str, str_to_pub_key}
use p2p_verse.Crdt.Signature
use p2p_verse.Crdt.Signature.{seal}
use p2p_verse.Crdt.Setup
use p2p_verse.Crdt.Setup.{
  Element, Delta, msg_to_deltas, msg_to_crdt_heads, fetch_deltas, value_key, validator_func,
}
use p2p_verse.Crdt.Updatable
use p2p_verse.Crdt.Updatable.{stamped_key, in_past}
use p2p_verse.Crdt.UpdatableSignature
use p2p_verse.Crdt.Replication.{
  Replica, IsKey, elements_of, IsHeld, IsRead, receive, here, next, writes, receives,
}
use p2p_verse.Crdt.Replication.Kept.{Keeps, AllFit}
use p2p_verse.Crdt.Replication.Dated
use p2p_verse.Crdt.Replication.Dated.{IsVersion, owned, replicate-IsVersion}

abbrev store : BaseStore memory
store = record { name = codes "us"; time_limit = zero_time; in_time = true; dt = [] }

abbrev at : ℕ → Time
at n = record { sec = 63800000000 + n; nsec = 0; zone = utc }

abbrev stamp : ℕ → Bytes
stamp n = encode (1 ∷ 0 ∷ 0 ∷ 0 ∷ 14 ∷ 218 ∷ 198 ∷ 190 ∷ n ∷ 0 ∷ 0 ∷ 0 ∷ 0 ∷ 255 ∷ 255 ∷ [])

abbrev alice : PubKey
alice = record { raw = codes "alice" }

abbrev alice_priv : PrivKey
alice_priv = record { raw = codes "alice" }

abbrev first_put : BaseStore memory
first_put =
    (UpdatableSignature.put toy memory (at 1) (owned alice_priv alice store) (codes "aaa")
      (codes "v")).0.base

first_wrote :
    (UpdatableSignature.put toy memory
      (at 1)
      (owned alice_priv alice store)
      (codes "aaa")
      (codes "v")).1
    ≡ none
unfolding UpdatableSignature.put Updatable.put Base.put stamped_key marshal encode lookup seal
    pub_key_to_str raise seal_bytes write_fields
first_wrote = refl

-- The version of time `n`, as it is kept.
abbrev version_key : ℕ → Bytes
version_key n =
    slash ∷ (pub_key_to_str toy (some alice) ++ (slash ∷ (codes "aaa" ++ (slash ∷ stamp n))))

abbrev message : Bytes → Bytes
message val = write_fields (val ∷ (codes "alice" ++ val) ∷ [])

-- What another peer's store puts at the time 2.
abbrev second_delta : Bytes → Delta
second_delta m = record {
  elements = record { key = version_key 2; value = message (codes "w") } ∷ [];
  tombstones = [];
}

abbrev replica : Replica memory
replica = chain second_delta (λ m. [])

reads_all : (s : BaseStore memory) (msg : Bytes) → IsRead replica s.dt msg
unfolding msg_to_deltas msg_to_crdt_heads fetch_deltas
reads_all s msg = (second_delta msg ∷ [], refl, λ delta m. m)

abbrev received : ℕ → BaseStore memory
received n =
    receive replica (λ u. UpdatableSignature.validate toy memory u (at n)) (codes "b") (codes "m")
      first_put

nothing_held : AllFit (IsVersion toy) store
unfolding lookup
nothing_held key val h = cc

other_peer : codes "a" ≢ codes "b"
other_peer e = absurd (ground arith)

aaa-IsClean : IsClean (codes "aaa")
unfolding split
aaa-IsClean = ((λ e. cc, λ e. cc, λ e. cc), tt)

in_range : IsValid (at 1)
in_range = record { sec_fits = omega arith; nsec_fits = omega arith }

second-IsKey : IsKey (version_key 2)
unfolding split pub_key_to_str raise encode
second-IsKey =
    IsKey.path (
      (λ e. cc, λ e. cc, λ e. cc),
      ((λ e. cc, λ e. cc, λ e. cc), ((λ e. cc, λ e. cc, λ e. cc), tt)),
    )

all_spelled :
    (s : BaseStore memory) (msg : Bytes) (e : Element)
    → In e (elements_of (replica.brings s.dt msg))
    → IsKey e.key
all_spelled s msg e (inl same) = rw same second-IsKey
all_spelled s msg e (inr m) = absurd m

replicate-IsVersion_example : Keeps store (received 3) × AllFit (IsVersion toy) (received 3)
replicate-IsVersion_example =
    replicate-IsVersion toy memory toy-IsLawful memory-IsLawful replica (chain-IsLawful _ _)
      nothing_held
      (next
        (next here (
          writes (
            Dated.puts (at 1) store alice_priv alice (codes "aaa") (codes "v") in_range
              (toy-IsPair (codes "alice")) aaa-IsClean first_wrote)))
        (receives (at 3) first_put (codes "b") (codes "m") other_peer
          (reads_all first_put (codes "m")) (all_spelled first_put (codes "m"))))

runs : BaseStore memory → BaseStore memory
unfolding receive validator_func msg_to_deltas msg_to_crdt_heads fetch_deltas Setup.validate
    value_key UpdatableSignature.validate UpdatableSignature.put Updatable.validate Updatable.put
    in_past stamped_key Signature.validate Signature.checks Base.validate Base.put marshal unmarshal
    before encode decode parts first_part last_part split trim_slash seal pub_key_to_str
    str_to_pub_key raise lower seal_bytes write_fields read_fields bytes_eq canon walk join holds
    write_all lookup keep
runs s = s

-- At the time 3 the other version is taken, and both are held.
second_taken : IsHeld memory (received 3).dt (version_key 2) (message (codes "w"))
unfolding runs
second_taken = refl

-- At its own time it is not yet in the past.
second_early : received 2 ≡ first_put
unfolding runs
second_early = refl
