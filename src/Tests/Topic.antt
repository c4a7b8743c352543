-- ===== src/Tests/Topic.antt =====
-- The topic validator on a message with one entry, and on one that cannot be fetched.
use p2p_verse.Common.{
  ◌≡◌, ◌↔◌, refl, true, false, Bool, Option, some, List, [], ◌∷◌, ok, err, codes, Bytes, Error, All,
  foreign, Result,
}
use p2p_verse.Crdt.Setup.{
  Delta, Exchange, msg_to_deltas, msg_to_crdt_heads, fetch_deltas, delta_of, validator_func,
}
use p2p_verse.Crdt.Setup.Validator.{IsAppend, validator_func_iff, validator_func_unfetched}

abbrev is_known : Bytes → Result (Option Bytes)
is_known [] = err (foreign [])
is_known (c ∷ s) = ok (some s)

-- A head whose CID is empty cannot be fetched.
abbrev wire : Exchange
wire = record {
  unmarshal_broadcast = λ m. ok (record { unknown = []; heads = m ∷ [] });
  cast = λ c. ok c;
  fetch = is_known;
  unmarshal_delta =
      λ m. ok (record { elements = record { key = m; value = m } ∷ []; tombstones = [] });
  has = λ k. ok false;
  child_string = λ ns k. ns;
}

abbrev any : Bytes → Bytes → Bool
any k v = true

validator_func_iff_example : (validator_func wire (codes "a") any [] [] (codes "msg") ≡ true) ↔ (
    (ds : List Delta) × (msg_to_deltas wire (codes "msg") ≡ ok ds) × All (IsAppend wire any []) ds)
validator_func_iff_example = validator_func_iff wire any [] (codes "a") [] (codes "msg") (λ e. cc)

abbrev never : Bytes → Bytes → Bool
never k v = false

no_head : msg_to_crdt_heads wire [] ≡ ok ([] ∷ [])
unfolding msg_to_crdt_heads
no_head = refl

not_fetched : All (λ c. (e : Error) × (delta_of wire (wire.fetch c) ≡ err e)) ([] ∷ [])
unfolding fetch_deltas
not_fetched = ((foreign [], refl), tt)

validator_func_unfetched_example : validator_func wire (codes "a") never [] (codes "b") [] ≡ true
validator_func_unfetched_example =
    validator_func_unfetched wire never [] (codes "a") (codes "b") [] ([] ∷ []) no_head not_fetched
