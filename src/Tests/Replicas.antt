-- ===== src/Tests/Replicas.antt =====
-- Copies of a hash store and of a signature store that write and receive.
use p2p_verse.Common.{
  ◌≡◌, ◌≢◌, refl, inl, inr, true, none, List, [], ◌∷◌, ◌++◌, some, ok, codes, Bytes, In, bytes_eq,
  arith,
}
use p2p_verse.Std.Text.{slash, split, join, trim_slash, IsClean}
use p2p_verse.Std.Time.{zero_time}
use p2p_verse.Std.Base64.{encode}
use p2p_verse.External.Crypto.{PubKey, PrivKey}
use p2p_verse.Sample.Crypto.{toy, toy-IsLawful, toy-IsPair, raise, total, fill}
use p2p_verse.Sample.Fields.{write_fields, read_fields, seal_bytes}
use p2p_verse.Sample.Memory.{memory, memory-IsLawful, lookup}
use p2p_verse.Sample.Paths.{canon, walk}
use p2p_verse.Sample.Replicas.{chain, chain-IsLawful, holds, write_all}
use p2p_verse.Crdt.Base
use p2p_verse.Crdt.Base.{BaseStore}
use p2p_verse.Crdt.Crypto.{pub_key_to_str}
use p2p_verse.Crdt.Hash
use p2p_verse.Crdt.Hash.{make_hash_key}
use p2p_verse.Crdt.Hash.Stored.{IsHashed}
use p2p_verse.Crdt.Signature
use p2p_verse.Crdt.Signature.{seal}
use p2p_verse.Crdt.Signature.Valid.{IsSigned}
use p2p_verse.Crdt.Setup
use p2p_verse.Crdt.Setup.{
  Element, Delta, msg_to_deltas, msg_to_crdt_heads, fetch_deltas, value_key, validator_func,
}
use p2p_verse.Crdt.Replication.{
  Replica, IsKey, IsHeld, IsRead, elements_of, receive, here, next, writes, receives,
}
use p2p_verse.Crdt.Replication.Kept.{Keeps, AllFit}
use p2p_verse.Crdt.Replication.Hashed
use p2p_verse.Crdt.Replication.Hashed.{replicate-IsHashed}
use p2p_verse.Crdt.Replication.Signed
use p2p_verse.Crdt.Replication.Signed.{owned, replicate-IsSigned}
use p2p_verse.Crdt.Replication.Refused.{receive_held}

abbrev store : BaseStore memory
store = record { name = codes "st"; time_limit = zero_time; in_time = true; dt = [] }

nothing_held : (Fits : Bytes → Bytes → Type 0) → AllFit Fits store
unfolding lookup
nothing_held Fits key val h = cc

-- What another peer's hash store puts under "bbb".
abbrev bbb_delta : Bytes → Delta
bbb_delta m = record {
  elements =
      record {
        key = slash ∷ make_hash_key toy (codes "bbb") (codes "salt");
        value = write_fields (codes "bbb" ∷ codes "salt" ∷ codes "w" ∷ []);
      }
      ∷ [];
  tombstones = [];
}

abbrev alone : Bytes → List Delta
alone m = []

abbrev heads_only : Replica memory
heads_only = chain bbb_delta alone

aaa_put :
    (Hash.put toy memory (record { base = store; salt = codes "salt" }) (codes "aaa") (codes "v")).1
    ≡ none
unfolding Hash.put Base.put lookup make_hash_key encode fill total seal_bytes write_fields
aaa_put = refl

abbrev after_put : BaseStore memory
after_put =
    (Hash.put toy memory (record { base = store; salt = codes "salt" }) (codes "aaa")
      (codes "v")).0.base

reads_all : (s : BaseStore memory) (msg : Bytes) → IsRead heads_only s.dt msg
unfolding msg_to_deltas msg_to_crdt_heads fetch_deltas
reads_all s msg = (bbb_delta msg ∷ [], refl, λ delta m. m)

other_peer : codes "a" ≢ codes "b"
other_peer e = absurd (ground arith)

replicate-IsHashed_example :
    Keeps store (receive heads_only (Hash.validate toy memory) (codes "b") (codes "m") after_put)
    × AllFit
        (IsHashed toy)
        (receive heads_only (Hash.validate toy memory) (codes "b") (codes "m") after_put)
replicate-IsHashed_example =
    replicate-IsHashed toy memory toy-IsLawful memory-IsLawful heads_only (codes "salt")
      (chain-IsLawful bbb_delta alone) (nothing_held (IsHashed toy))
      (next (next here (writes (Hashed.puts store (codes "aaa") (codes "v") aaa_put))) (
        receives zero_time after_put (codes "b") (codes "m") other_peer
          (reads_all after_put (codes "m")) (λ e m. tt)))

-- The message is taken: its entry is held afterwards.
bbb_taken :
    IsHeld memory
      (receive heads_only (Hash.validate toy memory) (codes "b") (codes "m") store).dt
      (slash ∷ make_hash_key toy (codes "bbb") (codes "salt"))
      (write_fields (codes "bbb" ∷ codes "salt" ∷ codes "w" ∷ []))
unfolding receive validator_func msg_to_deltas msg_to_crdt_heads fetch_deltas Setup.validate
    value_key Hash.validate Base.validate make_hash_key encode fill total write_fields read_fields
    trim_slash bytes_eq holds write_all lookup canon walk split join
bbb_taken = refl

abbrev alice : PubKey
alice = record { raw = codes "alice" }

abbrev alice_priv : PrivKey
alice_priv = record { raw = codes "alice" }

signed_put :
    (Signature.put toy memory (owned alice_priv alice store) (codes "aaa") (codes "v")).1 ≡ none
unfolding Signature.put Base.put lookup seal pub_key_to_str raise seal_bytes write_fields
signed_put = refl

aaa-IsClean : IsClean (codes "aaa")
unfolding split
aaa-IsClean = ((λ e. cc, λ e. cc, λ e. cc), tt)

abbrev after_signed : BaseStore memory
after_signed =
    (Signature.put toy memory (owned alice_priv alice store) (codes "aaa") (codes "v")).0.base

-- What another peer's signature store puts under "ccc" of alice.
abbrev ccc_key : Bytes
ccc_key = slash ∷ (pub_key_to_str toy (some alice) ++ (slash ∷ codes "ccc"))

abbrev ccc_delta : Bytes → Delta
ccc_delta m = record {
  elements = record { key = ccc_key; value = write_fields (codes "w" ∷ codes "alicew" ∷ []) } ∷ [];
  tombstones = [];
}

abbrev signers : Replica memory
signers = chain ccc_delta alone

signers-IsRead : (s : BaseStore memory) (msg : Bytes) → IsRead signers s.dt msg
unfolding msg_to_deltas msg_to_crdt_heads fetch_deltas
signers-IsRead s msg = (ccc_delta msg ∷ [], refl, λ delta m. m)

ccc-IsKey : IsKey ccc_key
unfolding split pub_key_to_str raise
ccc-IsKey = IsKey.path ((λ e. cc, λ e. cc, λ e. cc), ((λ e. cc, λ e. cc, λ e. cc), tt))

signers_spell :
    (s : BaseStore memory) (msg : Bytes) (e : Element)
    → In e (elements_of (signers.brings s.dt msg))
    → IsKey e.key
signers_spell s msg e (inl same) = rw same ccc-IsKey
signers_spell s msg e (inr m) = absurd m

replicate-IsSigned_example :
    Keeps store
      (receive signers (Signature.validate toy memory) (codes "b") (codes "m") after_signed)
    × AllFit
        (IsSigned toy)
        (receive signers (Signature.validate toy memory) (codes "b") (codes "m") after_signed)
replicate-IsSigned_example =
    replicate-IsSigned toy memory toy-IsLawful memory-IsLawful signers
      (chain-IsLawful ccc_delta alone) (nothing_held (IsSigned toy))
      (next
        (next here (
          writes (
            Signed.puts store alice_priv alice (codes "aaa") (codes "v")
              (toy-IsPair (codes "alice")) aaa-IsClean signed_put)))
        (receives zero_time after_signed (codes "b") (codes "m") other_peer
          (signers-IsRead after_signed (codes "m")) (signers_spell after_signed (codes "m"))))

-- A store that holds what "bbb" puts.
abbrev has_bbb : BaseStore memory
has_bbb = record store {
  dt =
      (
        slash ∷ make_hash_key toy (codes "bbb") (codes "salt"),
        write_fields (codes "bbb" ∷ codes "salt" ∷ codes "w" ∷ []),
      )
      ∷ [];
}

bbb-IsHeld :
    IsHeld memory has_bbb.dt
      (slash ∷ make_hash_key toy (codes "bbb") (codes "salt"))
      (write_fields (codes "bbb" ∷ codes "salt" ∷ codes "w" ∷ []))
unfolding lookup bytes_eq make_hash_key encode fill total
bbb-IsHeld = refl

bbb_reads :
    msg_to_deltas (heads_only.exchange has_bbb.dt) (codes "m") ≡ ok (bbb_delta (codes "m") ∷ [])
unfolding msg_to_deltas msg_to_crdt_heads fetch_deltas
bbb_reads = refl

receive_held_example :
    receive heads_only (Hash.validate toy memory) (codes "b") (codes "m") has_bbb ≡ has_bbb
receive_held_example =
    receive_held heads_only (Hash.validate toy memory) has_bbb (codes "b") (codes "m")
      (bbb_delta (codes "m") ∷ []) (bbb_delta (codes "m")) _ _ (chain-IsLawful bbb_delta alone)
      other_peer bbb_reads (inl refl) (inl refl) bbb-IsHeld
