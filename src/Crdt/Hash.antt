-- ===== src/Crdt/Hash.antt =====
-- crdt/hash.go: a store whose keys are salted hashes of the caller's keys.
pub mod Stored
use p2p_verse.Common.{
  ℕ, ◌≡◌, ◌≢◌, refl, Bool, true, false, Option, none, some, List, [], ◌∷◌, arith, Bytes, Error,
  Result, ok, err, ◌>>=◌, length, if◌then◌else◌, bytes_eq,
}
use p2p_verse.Std.Base64.{encode}
use p2p_verse.Std.Text.{trim_slash}
use p2p_verse.External.Messages.{HashData}
use p2p_verse.External.Crypto.{External}
use p2p_verse.External.Datastore.{Datastore, Entry, Query, empty_query, value_bytes}
use p2p_verse.Crdt.Filters.{key_match}
use p2p_verse.Crdt.Address.{make_address}
use p2p_verse.Crdt.Base
use p2p_verse.Crdt.Base.{BaseStore, is_true, query_of}

pub record HashStore (d : Datastore) : Type 0 where
  pub base : BaseStore d
  pub salt : Bytes

-- `MakeHashKey`
unfoldable pub make_hash_key : External → Bytes → Bytes → Bytes
make_hash_key x str salt = encode (x.argon2 str salt 64)

abbrev pub ok_or_none {ℓ} : {A : Type ℓ} → Result A → Option A
ok_or_none (ok a) = some a
ok_or_none (err e) = none

module _ (x : External) (d : Datastore) where
  key_fits : Bytes → Option HashData → Bool
  key_fits key none = false
  key_fits key (some hd) = bytes_eq key (make_hash_key x hd.base_hash hd.salt)

  -- `hashValidator.Validate`
  unfoldable pub validate : BaseStore d → Bytes → Bytes → Bool
  unfolding key_fits
  validate s key val =
      if Base.validate d s key val
      then key_fits (trim_slash key) (ok_or_none (x.hash_data.unmarshal val))
      else false

  unfoldable pub address : HashStore d → Bytes
  address s = make_address x s.base.name [] s.salt (s.base.time_limit ∷ [])

  -- A step of the embedded store.
  abbrev in_base : HashStore d → BaseStore d × Option Error → HashStore d × Option Error
  in_base s (b, e) = (record s { base = b }, e)

  put_marshalled : HashStore d → Bytes → Result Bytes → HashStore d × Option Error
  put_marshalled s key (err e) = (s, some e)
  put_marshalled s key (ok m) = in_base s (Base.put d s.base key m)

  unfoldable pub put : HashStore d → Bytes → Bytes → HashStore d × Option Error
  unfolding put_marshalled
  put s str val =
      put_marshalled s (make_hash_key x str s.salt)
        (x.hash_data.marshal (record { base_hash = str; salt = s.salt; value = val }))

  unfoldable pub init_put : HashStore d → HashStore d × Option Error
  unfolding put_marshalled
  init_put s =
      put_marshalled s (make_hash_key x s.base.name s.salt) (
        x.hash_data.marshal
          (record { base_hash = s.base.name; salt = s.salt; value = s.base.name }))

  -- `get`, which takes the stored key
  unfoldable pub get_stored : HashStore d → Bytes → Result Bytes
  get_stored s key = do m ← Base.get d s.base key; hd ← x.hash_data.unmarshal m; ok hd.value

  -- `Get` tries the key as it is, and then its hash.
  unfoldable pub get : HashStore d → Bytes → Result Bytes
  get s key = elim (get_stored s key) [
    | ok v ↦ ok v
    | err e ↦ get_stored s (make_hash_key x key s.salt)
  ]

  unfoldable pub get_size : HashStore d → Bytes → Result ℕ
  get_size s key = do val ← get s key; ok (length val)

  unfoldable pub has : HashStore d → Bytes → Result Bool
  has s key =
      if is_true (Base.has d s.base key)
      then ok true
      else Base.has d s.base (make_hash_key x key s.salt)

  -- The loop over the results; one that cannot be read is left out.
  values_of : List Entry → List Entry
  values_of [] = []
  values_of (r ∷ rs) = elim (x.hash_data.unmarshal (value_bytes r.value)) [
    | ok hd ↦ record r { value = some hd.value } ∷ values_of rs
    | err e ↦ values_of rs
  ]

  unfoldable pub query : HashStore d → List Query → Result (List Entry)
  unfolding values_of
  query s qs = do
    rs ← Base.query d s.base (query_of qs ∷ [])
    if (query_of qs).keys_only then ok rs else ok (values_of rs)

  pub access_from_key : HashStore d → Bytes → Bytes
  access_from_key s key = key

  unfoldable pub put_key : HashStore d → Bytes → Bytes
  put_key s key = make_hash_key x key s.salt

  -- The loop of `acQuery`, which gives the key before hashing too.
  plain_of : List Entry → List Entry
  plain_of [] = []
  plain_of (r ∷ rs) = elim (x.hash_data.unmarshal (value_bytes r.value)) [
    | ok hd ↦ record r { key = hd.base_hash; value = some hd.value } ∷ plain_of rs
    | err e ↦ plain_of rs
  ]

  unfoldable pub ac_query : HashStore d → Bytes → Result (List Entry)
  unfolding plain_of
  ac_query s ac_key = do
    let key = make_hash_key x ac_key s.salt
    rs ← Base.query d s.base (record empty_query { filters = key_match key ∷ [] } ∷ [])
    ok (plain_of rs)

  unfoldable pub load_check : HashStore d → Bool
  load_check s = Base.load_check d s.base
