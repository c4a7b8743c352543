-- ===== src/Crdt/UpdatableSignature.antt =====
-- crdt/updatable_signature.go: versions of a value, signed, under the writer's name.
pub mod Validator
pub mod Stored
use p2p_verse.Common.{
  ℕ, Bool, true, not, Option, some, List, [], ◌∷◌, Bytes, Error, Result, ok, err, ◌>>=◌, length,
  if◌then◌else◌,
}
use p2p_verse.Std.Time.{Time}
use p2p_verse.External.Crypto.{External, PrivKey, PubKey}
use p2p_verse.External.Datastore.{Datastore, Entry, Query, empty_query}
use p2p_verse.Crdt.Filters.{key_exist}
use p2p_verse.Crdt.Base.{BaseStore, query_of, one_key, is_present}
use p2p_verse.Crdt.Signature
use p2p_verse.Crdt.Signature.{seal, values_of, name_key, new_pair}
use p2p_verse.Crdt.Updatable

pub record UpdatableSignatureStore (d : Datastore) : Type 0 where
  pub base : BaseStore d
  pub priv : Option PrivKey
  pub key : Option PubKey

module _ (x : External) (d : Datastore) where
  -- `newUpdatableSignatureValidator`: the time check round the signature check.
  unfoldable pub validate : BaseStore d → Time → Bytes → Bytes → Bool
  validate s now key val = Updatable.validate (Signature.validate x d s) now key val

  unfoldable pub reset_key_pair :
      Bytes → UpdatableSignatureStore d → Option PrivKey → Option PubKey → UpdatableSignatureStore d
  unfolding new_pair
  reset_key_pair seed s priv key =
      let (priv', key') = new_pair x seed priv key in record s { priv = priv'; key = key' }

  abbrev in_base :
      UpdatableSignatureStore d
      → BaseStore d × Option Error
      → UpdatableSignatureStore d × Option Error
  in_base s (b, e) = (record s { base = b }, e)

  put_sealed :
      Time
      → UpdatableSignatureStore d
      → Result (Bytes × Bytes)
      → UpdatableSignatureStore d × Option Error
  put_sealed now s (err e) = (s, some e)
  put_sealed now s (ok (full, msd)) = in_base s (Updatable.put d now s.base full msd)

  unfoldable pub put :
      Time → UpdatableSignatureStore d → Bytes → Bytes → UpdatableSignatureStore d × Option Error
  unfolding put_sealed
  put now s key val = put_sealed now s (seal x s.priv s.key key val)

  unfoldable pub init_put :
      Time → UpdatableSignatureStore d → UpdatableSignatureStore d × Option Error
  unfolding put_sealed
  init_put now s = put_sealed now s (seal x s.priv s.key s.base.name s.base.name)

  unfoldable pub get : UpdatableSignatureStore d → Bytes → Result Bytes
  get s key = do msd ← Updatable.get d s.base key; sd ← x.signature_data.unmarshal msd; ok sd.value

  unfoldable pub get_size : UpdatableSignatureStore d → Bytes → Result ℕ
  get_size s key = do val ← get s key; ok (length val)

  base_query : UpdatableSignatureStore d → Query → Result (List Entry)
  base_query s q = do
    rs ← Updatable.query d s.base (q ∷ [])
    if q.keys_only then ok rs else ok (values_of x rs)

  unfoldable pub query : UpdatableSignatureStore d → List Query → Result (List Entry)
  unfolding base_query
  query s qs = base_query s (query_of qs)

  base_query_all : UpdatableSignatureStore d → Query → Result (List Entry)
  base_query_all s q = do
    rs ← Updatable.query_all d s.base (q ∷ [])
    if q.keys_only then ok rs else ok (values_of x rs)

  unfoldable pub query_all : UpdatableSignatureStore d → List Query → Result (List Entry)
  unfolding base_query_all
  query_all s qs = base_query_all s (query_of qs)

  unfoldable pub put_key : UpdatableSignatureStore d → Bytes → Bytes
  put_key s key = name_key x s.key key

  unfoldable pub ac_query : UpdatableSignatureStore d → Bytes → Result (List Entry)
  ac_query s ac_key = query s (record empty_query { filters = key_exist ac_key ∷ [] } ∷ [])

  unfoldable pub load_check : UpdatableSignatureStore d → Bool
  load_check s =
      if not s.base.in_time then true else is_present (Updatable.query d s.base (one_key ∷ []))
