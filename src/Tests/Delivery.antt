-- ===== src/Tests/Delivery.antt =====
-- What one peer puts in a hash store and in a signature store, and another one reads.
use p2p_verse.Common.{
  ◌≡◌, ◌≢◌, refl, true, none, some, [], ◌∷◌, ◌++◌, ok, err, codes, Bytes, no_valid_data, subst, sym,
  ◌∙◌, ok_injective, arith, bytes_eq,
}
use p2p_verse.Std.Text.{slash, split, join, trim_slash, IsClean}
use p2p_verse.Std.Time.{zero_time}
use p2p_verse.Std.Base64.{encode}
use p2p_verse.External.Crypto.{PubKey, PrivKey}
use p2p_verse.Sample.Crypto.{toy, toy-IsLawful, toy-IsPair, raise, total, fill}
use p2p_verse.Sample.Fields.{write_fields, read_fields, seal_bytes}
use p2p_verse.Sample.Memory.{memory, memory-IsLawful, lookup}
use p2p_verse.Sample.Paths.{canon, walk}
use p2p_verse.Sample.Replicas.{chain, chain-IsLawful, holds, write_all}
use p2p_verse.Crdt.Base
use p2p_verse.Crdt.Base.{BaseStore}
use p2p_verse.Crdt.Crypto.{pub_key_to_str}
use p2p_verse.Crdt.Hash
use p2p_verse.Crdt.Hash.{HashStore, make_hash_key}
use p2p_verse.Crdt.Signature
use p2p_verse.Crdt.Signature.{SignatureStore, seal}
use p2p_verse.Crdt.Setup
use p2p_verse.Crdt.Setup.{validator_func, msg_to_deltas, msg_to_crdt_heads, fetch_deltas, value_key}
use p2p_verse.Crdt.Replication.{Replica, receive}
use p2p_verse.Crdt.Replication.Delivered.{Carries, get-receive_hashed, get-receive_signed, IsAbsent}

abbrev store : BaseStore memory
store = record { name = codes "st"; time_limit = zero_time; in_time = true; dt = [] }

abbrev hashed : HashStore memory
hashed = record { base = store; salt = codes "salt" }

abbrev aaa_key : Bytes
aaa_key = make_hash_key toy (codes "aaa") (codes "salt")

abbrev aaa_message : Bytes
aaa_message = write_fields (codes "aaa" ∷ codes "salt" ∷ codes "v" ∷ [])

-- The one delta of every message, under a key of the datastore.
abbrev carrying : Bytes → Bytes → Replica memory
carrying key val =
    chain
      (λ m. record { elements = record { key = slash ∷ key; value = val } ∷ []; tombstones = [] })
      (λ m. [])

carrying-Carries :
    (s : memory.State) (key val : Bytes)
    → Carries (carrying key val) s (codes "m") (slash ∷ key) val
unfolding msg_to_deltas msg_to_crdt_heads fetch_deltas
carrying-Carries s key val = record { read = refl; brought = refl }

nothing_held : (key val : Bytes) (j : Bytes) → IsAbsent (carrying key val) store.dt j
unfolding holds
nothing_held key val j = refl

other_peer : codes "a" ≢ codes "b"
other_peer e = absurd (ground arith)

aaa_put : (Hash.put toy memory hashed (codes "aaa") (codes "v")).1 ≡ none
unfolding Hash.put Base.put lookup make_hash_key encode fill total seal_bytes write_fields
aaa_put = refl

aaa_stored :
    Base.get memory (Hash.put toy memory hashed (codes "aaa") (codes "v")).0.base aaa_key
    ≡ ok aaa_message
unfolding Hash.put Base.put Base.get lookup bytes_eq make_hash_key encode fill total seal_bytes
    write_fields
aaa_stored = refl

aaa_missing :
    Hash.get_stored toy memory
      (record {
        base =
            receive
              (carrying aaa_key aaa_message)
              (Hash.validate toy memory)
              (codes "b")
              (codes "m")
              store;
        salt = codes "salt";
      })
      (codes "aaa")
    ≡ err no_valid_data
unfolding receive validator_func msg_to_deltas msg_to_crdt_heads fetch_deltas Setup.validate
    value_key Hash.validate Hash.get_stored Base.validate Base.get make_hash_key encode fill total
    write_fields read_fields trim_slash bytes_eq holds write_all lookup canon walk split join
aaa_missing = refl

get-receive_hashed_example :
    Hash.get toy memory
      (record {
        base =
            receive
              (carrying aaa_key aaa_message)
              (Hash.validate toy memory)
              (codes "b")
              (codes "m")
              store;
        salt = codes "salt";
      })
      (codes "aaa")
    ≡ ok (codes "v")
get-receive_hashed_example =
    get-receive_hashed toy memory toy-IsLawful memory-IsLawful (carrying aaa_key aaa_message)
      (chain-IsLawful _ _) hashed store (codes "b") (codes "m") (codes "aaa") (codes "v") aaa_put
      refl other_peer
      (λ m h.
        subst (λ v. Carries (carrying aaa_key aaa_message) store.dt (codes "m") (slash ∷ aaa_key) v)
          (ok_injective _ _ (sym aaa_stored ∙ h)) (carrying-Carries store.dt aaa_key aaa_message))
      (nothing_held aaa_key aaa_message (slash ∷ aaa_key)) aaa_missing

abbrev alice : PubKey
alice = record { raw = codes "alice" }

abbrev alice_priv : PrivKey
alice_priv = record { raw = codes "alice" }

abbrev owned : SignatureStore memory
owned = record { base = store; priv = some alice_priv; key = some alice }

abbrev reader : SignatureStore memory
reader = record { base = store; priv = none; key = none }

owned_put : (Signature.put toy memory owned (codes "aaa") (codes "v")).1 ≡ none
unfolding Signature.put Base.put lookup seal pub_key_to_str raise seal_bytes write_fields
owned_put = refl

aaa-IsClean : IsClean (codes "aaa")
unfolding split
aaa-IsClean = ((λ e. cc, λ e. cc, λ e. cc), tt)

abbrev alice_aaa : Bytes
alice_aaa = pub_key_to_str toy (some alice) ++ (slash ∷ codes "aaa")

abbrev signed_message : Bytes
signed_message = write_fields (codes "v" ∷ codes "alicev" ∷ [])

signed_stored :
    Base.get memory (Signature.put toy memory owned (codes "aaa") (codes "v")).0.base alice_aaa
    ≡ ok signed_message
unfolding Signature.put Base.put Base.get lookup bytes_eq seal pub_key_to_str raise seal_bytes
    write_fields
signed_stored = refl

get-receive_signed_example :
    Signature.get toy memory
      (record reader {
        base =
            receive
              (carrying alice_aaa signed_message)
              (Signature.validate toy memory)
              (codes "b")
              (codes "m")
              store;
      })
      alice_aaa
    ≡ ok (codes "v")
get-receive_signed_example =
    get-receive_signed toy memory toy-IsLawful memory-IsLawful (carrying alice_aaa signed_message)
      (chain-IsLawful _ _) owned reader alice_priv alice (codes "b") (codes "m") (codes "aaa")
      (codes "v") refl refl (toy-IsPair (codes "alice")) aaa-IsClean owned_put refl other_peer
      (λ m h.
        subst
          (λ v.
            Carries (carrying alice_aaa signed_message) store.dt (codes "m") (slash ∷ alice_aaa) v)
          (ok_injective _ _ (sym signed_stored ∙ h))
          (carrying-Carries store.dt alice_aaa signed_message))
      (nothing_held alice_aaa signed_message (slash ∷ alice_aaa))
