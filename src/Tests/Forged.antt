-- ===== src/Tests/Forged.antt =====
-- A peer writes to a signature store under the name of another one.
use p2p_verse.Common.{◌≡◌, ◌≢◌, refl, true, none, some, [], ◌∷◌, ◌++◌, ok, codes, Bytes, arith}
use p2p_verse.Std.Text.{slash, split, IsClean}
use p2p_verse.Std.Time.{zero_time}
use p2p_verse.External.Crypto.{PubKey, PrivKey}
use p2p_verse.Sample.Crypto.{toy, toy-IsLawful, toy-IsPair, raise}
use p2p_verse.Sample.Fields.{write_fields, seal_bytes}
use p2p_verse.Sample.Memory.{memory, memory-IsLawful}
use p2p_verse.Sample.Replicas.{chain, chain-IsLawful, holds}
use p2p_verse.Crdt.Crypto.{pub_key_to_str}
use p2p_verse.Crdt.Signature
use p2p_verse.Crdt.Signature.{SignatureStore}
use p2p_verse.Crdt.Setup.{msg_to_deltas, msg_to_crdt_heads, fetch_deltas}
use p2p_verse.Crdt.Replication.{Replica, receive}
use p2p_verse.Crdt.Replication.Delivered.{Carries, IsAbsent}
use p2p_verse.Crdt.Replication.Forged.{above, get-receive_forged}

abbrev reader : SignatureStore memory
reader = record {
  base = record { name = codes "st"; time_limit = zero_time; in_time = true; dt = [] };
  priv = none;
  key = none;
}

abbrev mallory : PubKey
mallory = record { raw = codes "mallory" }

abbrev mallory_priv : PrivKey
mallory_priv = record { raw = codes "mallory" }

-- The key "aaa" of alice.
abbrev alice_aaa : Bytes
alice_aaa = pub_key_to_str toy (some (record { raw = codes "alice" })) ++ (slash ∷ codes "aaa")

abbrev message : Bytes
message = write_fields (codes "v" ∷ codes "malloryv" ∷ [])

abbrev replica : Replica memory
replica =
    chain
      (λ m. record {
        elements = record { key = slash ∷ above toy mallory alice_aaa; value = message } ∷ [];
        tombstones = [];
      })
      (λ m. [])

carried : Carries replica reader.base.dt (codes "m") (slash ∷ above toy mallory alice_aaa) message
unfolding msg_to_deltas msg_to_crdt_heads fetch_deltas
carried = record { read = refl; brought = refl }

mallory_named : pub_key_to_str toy (some mallory) ≢ []
unfolding pub_key_to_str raise
mallory_named h = cc

message_made :
    toy.signature_data.marshal (record { value = codes "v"; sign = codes "malloryv" }) ≡ ok message
unfolding seal_bytes write_fields
message_made = refl

other_peer : codes "a" ≢ codes "b"
other_peer e = absurd (ground arith)

alice_aaa-IsClean : IsClean alice_aaa
unfolding split pub_key_to_str raise
alice_aaa-IsClean = ((λ e. cc, λ e. cc, λ e. cc), ((λ e. cc, λ e. cc, λ e. cc), tt))

nothing_held : IsAbsent replica reader.base.dt (slash ∷ alice_aaa)
unfolding holds
nothing_held = refl

get-receive_forged_example :
    Signature.get toy memory
      (record reader {
        base = receive replica (Signature.validate toy memory) (codes "b") (codes "m") reader.base;
      })
      alice_aaa
    ≡ ok (codes "v")
get-receive_forged_example =
    get-receive_forged toy memory toy-IsLawful memory-IsLawful replica (chain-IsLawful _ _) reader
      mallory_priv mallory (codes "b") (codes "m") alice_aaa (codes "v") (codes "malloryv") message
      (toy-IsPair (codes "mallory")) mallory_named refl message_made refl other_peer carried
      alice_aaa-IsClean nothing_held
