-- ===== src/Tests/Access.antt =====
-- Access control round a signature store.
use p2p_verse.Common.{
  List, Result, ◌≡◌, ◌≢◌, ◌↔◌, ◌⊎◌, refl, true, Option, none, some, [], ◌∷◌, ◌++◌, ok, err, codes,
  Bytes, inl, In, bytes_eq, Error, no_access_permission,
}
use p2p_verse.Std.Text.{slash, split, trim_slash, first_part}
use p2p_verse.Std.Base64.{encode, decode, corrupt}
use p2p_verse.Std.Time.{zero_time}
use p2p_verse.External.Crypto.{PubKey, PrivKey}
use p2p_verse.External.Datastore.{Entry, passes}
use p2p_verse.Sample.Crypto.{toy, toy-IsLawful, toy-IsPair, raise, lower}
use p2p_verse.Sample.Fields.{write_fields, read_fields, seal_bytes}
use p2p_verse.Sample.Memory.{memory, memory-IsLawful, lookup, answer}
use p2p_verse.Crdt.Filters.{parts, key_exist}
use p2p_verse.Crdt.Base
use p2p_verse.Crdt.Base.{BaseStore}
use p2p_verse.Crdt.Crypto.{pub_key_to_str, str_to_pub_key}
use p2p_verse.Crdt.Signature
use p2p_verse.Crdt.Signature.{SignatureStore, seal, name_key, values_of, checks, access_from_key}
use p2p_verse.Crdt.Base.{query_of}
use p2p_verse.Crdt.Access.{
  query, ac_verify_filter, AccessStore, AccessBase, access_key, ac_filter, grant, new_access_store,
  verify, put, get, readable, master_of, is_granted, extract_pub_key,
}
use p2p_verse.Crdt.Access.Bases.{signature_base}
use p2p_verse.Crdt.Access.Control.{Permission, verify_iff, put_guard, query_guard}
use p2p_verse.Crdt.Access.Forged.{forged_key, verify_forged}

abbrev sb : AccessBase
sb = signature_base toy memory

abbrev pub_of : Bytes → PubKey
pub_of raw = record { raw = raw }

abbrev priv_of : Bytes → PrivKey
priv_of raw = record { raw = raw }

abbrev empty : BaseStore memory
empty = record { name = codes "us"; time_limit = zero_time; in_time = true; dt = [] }

-- A store of the writer bob, and an access store round it whose master is alice.
abbrev bob_store : SignatureStore memory
bob_store = record {
  base = empty;
  priv = some (priv_of (codes "bob"));
  key = some (pub_of (codes "bob"));
}

abbrev bob_name : Bytes
bob_name = pub_key_to_str toy (some (pub_of (codes "bob")))

abbrev masters : AccessStore sb
masters = record {
  base = bob_store;
  priv = some (priv_of (codes "al"));
  key = some (pub_of (codes "al"));
}

abbrev granted : AccessStore sb
granted = record ((grant toy memory sb (codes "rnd") masters bob_name).0) { priv = none }

-- To unfold this is to unfold what a run of an access store round a signature store calls.
runs : AccessStore sb → Bytes → Option Error
unfolding new_access_store grant access_key Signature.put Base.put seal pub_key_to_str lookup raise
    seal_bytes write_fields encode bytes_eq verify is_granted Signature.put_key name_key
    access_from_key parts split trim_slash first_part Signature.ac_query Signature.query Base.query
    values_of answer read_fields key_exist ac_filter decode str_to_pub_key lower checks
    extract_pub_key Signature.get Base.get get put readable master_of
runs = verify toy memory sb

abbrev bob_key : Bytes
bob_key = bob_name ++ (slash ∷ codes "aaa")

bob_may_write : verify toy memory sb granted bob_key ≡ none
unfolding runs
bob_may_write = refl

eve_may_not : verify toy memory sb granted (codes "Qeve/aaa") ≡ some no_access_permission
unfolding runs
eve_may_not = refl

verify_iff_example :
    (verify toy memory sb granted bob_key ≡ none)
    ↔ Permission toy sb granted (access_from_key (trim_slash bob_key))
verify_iff_example = verify_iff toy memory sb memory-IsLawful granted bob_key

put_guard_example :
    (Permission toy sb granted
        (access_from_key (trim_slash (sb.put_key granted.base (codes "aaa"))))
      × (put toy memory sb granted (codes "aaa") (codes "v") ≡ (
        record granted { base = (sb.put granted.base (codes "aaa") (codes "v")).0 },
        (sb.put granted.base (codes "aaa") (codes "v")).1,
      )))
    ⊎ ((Permission toy sb granted
            (access_from_key (trim_slash (sb.put_key granted.base (codes "aaa"))))
          → ⊥)
        × ((put toy memory sb granted (codes "aaa") (codes "v")).0 ≡ granted)
        × ((put toy memory sb granted (codes "aaa") (codes "v")).1 ≢ none))
put_guard_example = put_guard toy memory sb memory-IsLawful granted (codes "aaa") (codes "v")

abbrev written : AccessStore sb
written = (put toy memory sb granted (codes "aaa") (codes "v")).0

bob_reads : get toy memory sb written bob_key ≡ ok (codes "v")
unfolding runs
bob_reads = refl

abbrev entries_of : Result (List Entry) → List Entry
entries_of (ok es) = es
entries_of (err e) = []

abbrev queried : List Entry
queried = entries_of (query toy memory sb written [])

abbrev head_of : List Entry → Entry
head_of [] = record { key = []; value = none; size = 0 }
head_of (e ∷ es) = e

is_queried : query toy memory sb written [] ≡ ok queried
unfolding runs query ac_verify_filter
is_queried = refl

head_queried : In (head_of queried) queried
unfolding runs query ac_verify_filter
head_queried = inl refl

query_guard_example :
    (rs : List Entry) × (sb.query written.base [] ≡ ok rs)
    × In (head_of queried) rs
    × (passes (query_of []).filters (head_of queried) ≡ true)
    × Permission toy sb written (access_from_key (trim_slash (head_of queried).key))
query_guard_example =
    query_guard toy memory sb memory-IsLawful written [] queried (head_of queried) is_queried
      head_queried

-- Eve writes through a signature store of her own into the same datastore.
abbrev eve : PubKey
eve = pub_of (codes "eve")

abbrev eve_name : Bytes
eve_name = pub_key_to_str toy (some eve)

abbrev own : Bytes
own = access_key toy (some eve) []

abbrev target : Bytes
target = access_key toy granted.key eve_name

abbrev eve_store : SignatureStore memory
eve_store = record { base = granted.base.base; priv = some (priv_of (codes "eve")); key = some eve }

abbrev eve_message : Bytes
eve_message = write_fields (codes "v" ∷ codes "evev" ∷ [])

abbrev attacked : AccessStore sb
attacked = record granted {
  base = record (granted.base) {
    base = (Signature.put toy memory eve_store (own ++ (slash ∷ target)) eve_message).0.base;
  };
}

abbrev forged_entry : Entry
forged_entry = record { key = forged_key eve_name own target; value = some eve_message; size = 56 }

eve_found : In forged_entry (forged_entry ∷ [])
eve_found = inl refl

attack_answer : sb.ac_query attacked.base target ≡ ok (forged_entry ∷ [])
unfolding runs
attack_answer = refl

own_ne : own ≢ []
unfolding runs
own_ne h = cc

target_ne : target ≢ []
unfolding runs
target_ne h = cc

abbrev eve_key : Bytes
eve_key = eve_name ++ (slash ∷ codes "aaa")

eve_access : access_from_key (trim_slash eve_key) ≡ eve_name
unfolding runs
eve_access = refl

eve_name_ne : eve_name ≢ []
unfolding runs
eve_name_ne h = cc

eve_strange : master_of toy eve_name ≡ err corrupt
unfolding runs
eve_strange = refl

eve_signed :
    toy.signature_data.marshal (record { value = codes "v"; sign = codes "evev" }) ≡ ok eve_message
unfolding runs
eve_signed = refl

verify_forged_example : verify toy memory sb attacked eve_key ≡ none
verify_forged_example =
    verify_forged toy toy-IsLawful memory sb memory-IsLawful attacked (priv_of (codes "eve")) eve []
      eve_name eve_key (codes "v") (codes "evev") eve_message 56 (forged_entry ∷ [])
      (toy-IsPair (codes "eve")) eve_access eve_name_ne own_ne target_ne eve_strange refl eve_signed
      attack_answer eve_found
