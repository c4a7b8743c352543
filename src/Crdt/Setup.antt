-- ===== src/Crdt/Setup.antt =====
-- crdt/setup.go: the topic validator, which decides which messages of the other peers are taken.
-- The block exchange, the decoding of broadcasts and the local datastore are a record of functions.
pub mod Validator
use p2p_verse.Common.{
  ◌≡◌, refl, Bool, true, false, not, Option, none, some, List, [], ◌∷◌, Bytes, codes, Error,
  invalid_message, Result, ok, err, ◌>>=◌, length, ltb, if◌then◌else◌, bytes_eq, arith,
}
use p2p_verse.Crdt.Base.{is_true}

-- `crdtpb.Element`
pub record Element : Type 0 where
  pub key : Bytes
  pub value : Bytes

-- `crdtpb.Delta`
pub record Delta : Type 0 where
  pub elements : List Element
  pub tombstones : List Element

-- `crdtpb.CRDTBroadcast`, with its unknown fields.
pub record Broadcast : Type 0 where
  pub unknown : Bytes
  pub heads : List Bytes

pub record Exchange : Type 0 where
  pub unmarshal_broadcast : Bytes → Result Broadcast
  -- `cid.Cast`
  pub cast : Bytes → Result Bytes
  -- `ng.Get` with `prnd.Data()`; `none` for a node of another kind.
  pub fetch : Bytes → Result (Option Bytes)
  pub unmarshal_delta : Bytes → Result Delta
  -- `d.Has` and `ChildString`
  pub has : Bytes → Result Bool
  pub child_string : Bytes → Bytes → Bytes

module _ (w : Exchange) where
  -- The loop over the heads; one that is no CID is left out.
  cast_heads : List Bytes → List Bytes
  cast_heads [] = []
  cast_heads (head ∷ hs) = elim (w.cast head) [ ok c ↦ c ∷ cast_heads hs | err e ↦ cast_heads hs ]

  some_heads : List Bytes → Result (List Bytes)
  some_heads [] = err invalid_message
  some_heads (c ∷ cs) = ok (c ∷ cs)

  heads_of : Broadcast → Bytes → Result (List Bytes)
  heads_of b [] = some_heads (cast_heads b.heads)
  heads_of b (u ∷ unknown) = do c ← w.cast (u ∷ unknown); ok (c ∷ [])

  unfoldable pub msg_to_crdt_heads : Bytes → Result (List Bytes)
  unfolding heads_of some_heads cast_heads
  msg_to_crdt_heads msg = do b ← w.unmarshal_broadcast msg; heads_of b b.unknown

  -- One round of the loop of `msgToDeltas`: `continue` is an error.
  pub delta_of : Result (Option Bytes) → Result Delta
  delta_of (err e) = err e
  delta_of (ok none) = err invalid_message
  delta_of (ok (some content)) = w.unmarshal_delta content

  unfoldable pub fetch_deltas : List Bytes → List Delta
  unfolding delta_of
  fetch_deltas [] = []
  fetch_deltas (c ∷ cs) = elim (delta_of (w.fetch c)) [
    | ok delta ↦ delta ∷ fetch_deltas cs
    | err e ↦ fetch_deltas cs
  ]

  unfoldable pub msg_to_deltas : Bytes → Result (List Delta)
  msg_to_deltas msg = do heads ← msg_to_crdt_heads msg; ok (fetch_deltas heads)

  unfoldable pub value_key : Bytes → Bytes → Bytes
  value_key ns key =
      w.child_string
        (w.child_string (w.child_string (w.child_string ns (codes "s")) (codes "k")) key)
        (codes "v")

  -- `!exist || err != nil` of the local datastore's answer
  abbrev is_new : Result Bool → Bool
  is_new r = not (is_true r)

  -- `validate`, round the validator of the store
  unfoldable pub validate : (Bytes → Bytes → Bool) → Bytes → Bytes → Bytes → Bool
  unfolding value_key
  validate v ns key val = if v key val then is_new (w.has (value_key ns key)) else false

  validate_elements : (Bytes → Bytes → Bool) → Bytes → List Element → Bool
  validate_elements v ns [] = true
  validate_elements v ns (e ∷ es) =
      if validate v ns e.key e.value then validate_elements v ns es else false

  -- A delta with tombstones is refused: the store is append-only.
  validate_deltas : (Bytes → Bytes → Bool) → Bytes → List Delta → Bool
  validate_deltas v ns [] = true
  validate_deltas v ns (delta ∷ ds) =
      let rest = validate_deltas v ns ds in
      if not (validate_elements v ns delta.elements)
      then false
      else if ltb 0 (length delta.tombstones)
      then false
      else rest

  abbrev validate_read : (Bytes → Bytes → Bool) → Bytes → Result (List Delta) → Bool
  validate_read v ns (err e) = false
  validate_read v ns (ok ds) = validate_deltas v ns ds

  -- `validatorFunc`: a message of the host itself is taken as it is.
  unfoldable pub validator_func : Bytes → (Bytes → Bytes → Bool) → Bytes → Bytes → Bytes → Bool
  unfolding validate_deltas validate_elements
  validator_func hid v ns pid msg =
      if bytes_eq hid pid then true else validate_read v ns (msg_to_deltas msg)
