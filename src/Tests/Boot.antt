-- ===== src/Tests/Boot.antt =====
-- The bootstrap store with one value that holds one address and one that holds two, and
-- the validator on what was written.
use p2p_verse.Common.{
  ℕ, ◌+◌, ◌≡◌, refl, ◌↔◌, true, some, List, [], ◌∷◌, codes, Bytes, Result, ok, err, In, keep,
  length, bytes_eq,
}
use p2p_verse.Std.Base64.{encode, decode}
use p2p_verse.Std.Text.{
  split, trim_slash, has_prefix, compare_bytes, join, init_parts, last_part, first_part,
}
use p2p_verse.Std.Time.{Time, zero_time, utc, marshal, unmarshal, equal, before, after}
use p2p_verse.External.Addresses.{AddrInfo}
use p2p_verse.External.Datastore.{Entry, empty_query}
use p2p_verse.Sample.Addresses.{plain, write_infos, read_infos}
use p2p_verse.Sample.Crypto.{toy, raise, lower, fill, total}
use p2p_verse.Sample.Fields.{write_fields, read_fields, seal_bytes}
use p2p_verse.Sample.Memory.{memory, lookup, entries, answer}
use p2p_verse.Util.{
  addr_info_to_string, addr_infos_to_string, peer_to_pb, pb_to_peer, addr_info_from_string,
  addr_infos_from_string,
}
use p2p_verse.Crdt.Base
use p2p_verse.Crdt.Filters.{parts, key_exist}
use p2p_verse.Crdt.Crypto.{pub_key_to_str, str_to_pub_key}
use p2p_verse.Crdt.Signature.{seal, values_of, checks}
use p2p_verse.Crdt.Updatable
use p2p_verse.Crdt.Updatable.{
  is_full, category, category_order, updatable_order, latest, stamped_key, in_past,
}
use p2p_verse.Crdt.UpdatableSignature
use p2p_verse.Crdt.UpdatableSignature.{UpdatableSignatureStore, validate}
use p2p_verse.Crdt.UpdatableSignature.Validator.{IsStamped, validate_iff}
use p2p_verse.Crdt.Signature.Valid.{IsSigned}
use p2p_verse.Crdt.Signature
use p2p_verse.Bstore
use p2p_verse.Bstore.{put, get, st_addr_to_key, get_iff, IsSingle}

abbrev host : AddrInfo plain
host = record { id = codes "p1"; addrs = codes "/a" ∷ [] }

abbrev lone : AddrInfo plain
lone = record { id = codes "p2"; addrs = codes "/c" ∷ [] }

abbrev empty : UpdatableSignatureStore memory
empty = record {
  base = record { name = codes "bs"; time_limit = zero_time; in_time = true; dt = [] };
  priv = some (record { raw = codes "a" });
  key = some (record { raw = codes "a" });
}

abbrev at : ℕ → Time
at n = record { sec = 63800000000 + n; nsec = 0; zone = utc }

abbrev puts : UpdatableSignatureStore memory
puts =
    let s1 =
      (put toy memory plain (codes "n") (at 1) empty (codes "s")
        (addr_infos_to_string plain (host ∷ lone ∷ []))).0 in
    (put toy memory plain (codes "n") (at 2) s1 (codes "t") (addr_info_to_string plain lone)).0

abbrev answer_or_nil : Result (List Entry) → List Entry
answer_or_nil (ok rs) = rs
answer_or_nil (err e) = []

abbrev found : List Entry
found = answer_or_nil (
    UpdatableSignature.query toy memory puts (
      record empty_query { filters = key_exist (st_addr_to_key toy (codes "n") (codes "s")) ∷ [] }
      ∷ []))

is_found :
    UpdatableSignature.query toy memory puts (
      record empty_query { filters = key_exist (st_addr_to_key toy (codes "n") (codes "s")) ∷ [] }
      ∷ [])
    ≡ ok found
unfolding UpdatableSignature.query Updatable.query Updatable.base_query Base.query latest answer
is_found = refl

-- To unfold this is to unfold what a run of the bootstrap store calls.
runs : Bytes → Bytes
unfolding put get Bstore.is_address Bstore.infos_of st_addr_to_key addr_info_to_string
    addr_infos_to_string peer_to_pb pb_to_peer addr_info_from_string addr_infos_from_string
    UpdatableSignature.put UpdatableSignature.query seal values_of Updatable.put Updatable.query
    Updatable.base_query is_full category category_order updatable_order latest stamped_key Base.put
    Base.query marshal unmarshal equal before after encode decode lookup entries answer parts
    key_exist split trim_slash has_prefix compare_bytes join init_parts last_part keep bytes_eq
    pub_key_to_str raise lower fill total write_infos read_infos write_fields read_fields seal_bytes
runs s = s

-- The value is there, but none of its addresses is returned.
found_one : length found ≡ 1
unfolding runs
found_one = refl

list_lost : get toy memory plain (codes "n") puts (codes "s") ≡ ok []
unfolding runs
list_lost = refl

lone_kept : get toy memory plain (codes "n") puts (codes "t") ≡ ok (lone ∷ [])
unfolding runs
lone_kept = refl

get_iff_example :
    (out : List (AddrInfo plain)) × (get toy memory plain (codes "n") puts (codes "s") ≡ ok out)
    × ((ai : AddrInfo plain) → In ai out ↔ IsSingle toy memory plain (codes "n") found ai)
get_iff_example = get_iff toy memory plain (codes "n") puts (codes "s") found is_found

-- What the last `Put` left in the datastore.
abbrev last_write : List (Bytes × Bytes) → Bytes × Bytes
last_write [] = ([], [])
last_write (w ∷ ws) = w

is_accepted :
    validate toy memory puts.base (at 9) (last_write puts.base.dt).0 (last_write puts.base.dt).1
    ≡ true
unfolding runs validate Updatable.validate Signature.validate Base.validate checks str_to_pub_key
    in_past first_part
is_accepted = refl

validate_iff_example :
    (validate toy memory puts.base (at 9) (last_write puts.base.dt).0 (last_write puts.base.dt).1
      ≡ true)
    ↔ ((puts.base.in_time ≡ true)
        × IsSigned toy (last_write puts.base.dt).0 (last_write puts.base.dt).1
        × IsStamped (at 9) (last_write puts.base.dt).0)
validate_iff_example =
    validate_iff toy memory puts.base (at 9) (last_write puts.base.dt).0 (last_write puts.base.dt).1
