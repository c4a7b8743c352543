-- ===== src/Crdt/Signature.antt =====
-- crdt/signature.go: a store whose keys begin with the writer's identity and whose values are signed.
pub mod Stored
pub mod Valid
use p2p_verse.Common.{
  ℕ, ◌≡◌, ◌≢◌, refl, Bool, true, false, Option, none, some, List, [], ◌∷◌, ◌++◌, arith, Bytes,
  Error, no_valid_priv_key, invalid_pub_key, Result, ok, err, ◌>>=◌, length, if◌then◌else◌,
}
use p2p_verse.Std.Text.{slash, first_part}
use p2p_verse.External.Messages.{SignatureData}
use p2p_verse.External.Crypto.{External, PrivKey, PubKey}
use p2p_verse.External.Datastore.{Datastore, Entry, Query, empty_query, value_bytes}
use p2p_verse.Crdt.Filters.{key_exist, parts}
use p2p_verse.Crdt.Crypto.{pub_key_to_str, str_to_pub_key}
use p2p_verse.Crdt.Options.{pair_of}
use p2p_verse.Crdt.Base
use p2p_verse.Crdt.Base.{BaseStore, is_true, query_of}

pub record SignatureStore (d : Datastore) : Type 0 where
  pub base : BaseStore d
  pub priv : Option PrivKey
  pub key : Option PubKey

module _ (x : External) where
  -- `sKey + "/" + key`, where the empty name is an error.
  abbrev under_name : Bytes → Bytes → Result Bytes
  under_name [] key = err invalid_pub_key
  under_name (c ∷ name) key = ok ((c ∷ name) ++ (slash ∷ key))

  -- What `Put` and `initPut` do before they write: sign, marshal, name the key.
  unfoldable pub seal : Option PrivKey → Option PubKey → Bytes → Bytes → Result (Bytes × Bytes)
  seal none key name val = err no_valid_priv_key
  seal (some priv) key name val = do
    sign ← x.sign priv val
    msd ← x.signature_data.marshal (record { value = val; sign = sign })
    full ← under_name (pub_key_to_str x key) name
    ok (full, msd)

  -- `ok, err := vk.Verify(…); return err == nil && ok` after the data is read
  unfoldable pub checks : Result PubKey → Result SignatureData → Bool
  checks (err e) sd = false
  checks (ok vk) (err e) = false
  checks (ok vk) (ok sd) = is_true (x.verify vk sd.value sd.sign)

  -- The loop over the results of a query; one that cannot be read is left out.
  unfoldable pub values_of : List Entry → List Entry
  values_of [] = []
  values_of (r ∷ rs) = elim (x.signature_data.unmarshal (value_bytes r.value)) [
    | ok sd ↦ record r { value = some sd.value } ∷ values_of rs
    | err e ↦ values_of rs
  ]

  -- `sKey + "/" + key`, where the empty name gives the empty key.
  unfoldable pub name_key : Option PubKey → Bytes → Bytes
  name_key key name = elim (under_name (pub_key_to_str x key) name) [ ok full ↦ full | err e ↦ [] ]

  -- `ResetKeyPair`, which makes a new pair if either key is nil.
  unfoldable pub new_pair : Bytes → Option PrivKey → Option PubKey → Option PrivKey × Option PubKey
  new_pair seed none key = pair_of (x.funcs.generate_key_pair seed)
  new_pair seed (some priv) none = pair_of (x.funcs.generate_key_pair seed)
  new_pair seed (some priv) (some key) = (some priv, some key)

-- `accessFromKey`: the first part of the key
unfoldable pub access_from_key : Bytes → Bytes
access_from_key key = first_part (parts key)

module _ (x : External) (d : Datastore) where
  -- `signatureValidator.Validate`
  unfoldable pub validate : BaseStore d → Bytes → Bytes → Bool
  unfolding checks
  validate s key val =
      if Base.validate d s key val
      then checks x (str_to_pub_key x (first_part (parts key))) (x.signature_data.unmarshal val)
      else false

  unfoldable pub reset_key_pair :
      Bytes → SignatureStore d → Option PrivKey → Option PubKey → SignatureStore d
  unfolding new_pair
  reset_key_pair seed s priv key =
      let (priv', key') = new_pair x seed priv key in record s { priv = priv'; key = key' }

  abbrev in_base : SignatureStore d → BaseStore d × Option Error → SignatureStore d × Option Error
  in_base s (b, e) = (record s { base = b }, e)

  put_sealed : SignatureStore d → Result (Bytes × Bytes) → SignatureStore d × Option Error
  put_sealed s (err e) = (s, some e)
  put_sealed s (ok (full, msd)) = in_base s (Base.put d s.base full msd)

  unfoldable pub put : SignatureStore d → Bytes → Bytes → SignatureStore d × Option Error
  unfolding put_sealed
  put s key val = put_sealed s (seal x s.priv s.key key val)

  unfoldable pub init_put : SignatureStore d → SignatureStore d × Option Error
  unfolding put_sealed
  init_put s = put_sealed s (seal x s.priv s.key s.base.name s.base.name)

  unfoldable pub get : SignatureStore d → Bytes → Result Bytes
  get s key = do msd ← Base.get d s.base key; sd ← x.signature_data.unmarshal msd; ok sd.value

  unfoldable pub get_size : SignatureStore d → Bytes → Result ℕ
  get_size s key = do val ← get s key; ok (length val)

  unfoldable pub query : SignatureStore d → List Query → Result (List Entry)
  unfolding values_of
  query s qs = do
    rs ← Base.query d s.base (query_of qs ∷ [])
    if (query_of qs).keys_only then ok rs else ok (values_of x rs)

  unfoldable pub put_key : SignatureStore d → Bytes → Bytes
  unfolding name_key
  put_key s key = name_key x s.key key

  unfoldable pub ac_query : SignatureStore d → Bytes → Result (List Entry)
  ac_query s ac_key = query s (record empty_query { filters = key_exist ac_key ∷ [] } ∷ [])

  unfoldable pub load_check : SignatureStore d → Bool
  load_check s = Base.load_check d s.base
