-- ===== src/Crdt/Access.antt =====
-- crdt/access.go: access control round a store that can hold access entries. The wrapped store is
-- an interface, `IAccessBaseStore`: a record of its methods.
pub mod Bases
pub mod Control
pub mod Creation
pub mod Forged
use p2p_verse.Common.{
  ℕ, ◌≡◌, ◌≢◌, refl, Bool, true, false, not, Option, none, some, List, [], ◌∷◌, ◌++◌, Bytes, Error,
  no_valid_priv_key, access_key_generation, invalid_access, no_access_permission, not_implemented,
  Result, ok, err, ◌>>=◌, length, ltb, if◌then◌else◌, arith,
}
use p2p_verse.Std.Base64.{encode, decode}
use p2p_verse.Std.Text.{trim_slash}
use p2p_verse.External.Messages.{SignatureData, AccessKey}
use p2p_verse.External.Crypto.{External, PrivKey, PubKey}
use p2p_verse.External.Datastore.{Datastore, Entry, Query, Filter, value_bytes}
use p2p_verse.Crdt.Filters.{parts}
use p2p_verse.Crdt.Crypto.{pub_key_to_str, str_to_pub_key}
use p2p_verse.Crdt.Address.{Parsed, make_address, parse_address, text_or_nil}
use p2p_verse.Crdt.Base.{query_of}
use p2p_verse.Crdt.Signature.{checks}

-- The methods of the wrapped store. `query_all` is `none` where it is no updatable signature store;
-- `is_hash` is the type test `(*hashStore)`.
pub record AccessBase : Type 1 where
  pub State : Type 0
  pub put : State → Bytes → Bytes → State × Option Error
  pub get : State → Bytes → Result Bytes
  pub get_size : State → Bytes → Result ℕ
  pub has : State → Bytes → Result Bool
  pub query : State → List Query → Result (List Entry)
  pub query_all : Option (State → List Query → Result (List Entry))
  pub address : State → Bytes
  pub put_key : State → Bytes → Bytes
  pub ac_query : State → Bytes → Result (List Entry)
  pub access_from_key : State → Bytes → Bytes
  -- `ResetKeyPair`, where it is an `ISignatureStore`, with the seed of a new key pair.
  pub reset_key_pair : Option (Bytes → State → Option PrivKey → Option PubKey → State)
  pub is_hash : Bool

pub record AccessStore (b : AccessBase) : Type 0 where
  pub base : b.State
  pub priv : Option PrivKey
  pub key : Option PubKey

module _ (x : External) where
  -- One round of `extractPubKey`: the part as an access key, and its master key.
  unfoldable pub master_of : Bytes → Result PubKey
  master_of part = do
    mak ← decode part
    pak ← x.access_key.unmarshal mak
    str_to_pub_key x pak.master_key

  unfoldable pub extract_pub_key : List Bytes → Option PubKey
  unfolding master_of
  extract_pub_key [] = none
  extract_pub_key (part ∷ ps) = elim (master_of part) [
    | ok key ↦ some key
    | err e ↦ extract_pub_key ps
  ]

  check_signed : Option PubKey → Result SignatureData → Bool
  check_signed none sd = false
  check_signed (some key) sd = checks x (ok key) sd

  -- `acFilter.Filter`
  unfoldable pub ac_filter : Filter
  unfolding check_signed
  ac_filter e =
      check_signed (extract_pub_key (parts e.key))
        (x.signature_data.unmarshal (value_bytes e.value))

  -- `accessKey`; the empty string stands for a failure.
  access_key_of : Bytes → Bytes → Bytes
  access_key_of [] access = []
  access_key_of (c ∷ name) access =
      text_or_nil (x.access_key.marshal (record { master_key = c ∷ name; access = access }))

  unfoldable pub access_key : Option PubKey → Bytes → Bytes
  unfolding access_key_of
  access_key key access = access_key_of (pub_key_to_str x key) access

abbrev some_error : Result Bool → Option Error
some_error (err e) = some e
some_error (ok true) = none
some_error (ok false) = some no_access_permission

abbrev pub is_nil : Option Error → Bool
is_nil none = true
is_nil (some e) = false

abbrev pub or_fail {ℓ} : {A : Type ℓ} → Option Error → Result A → Result A
or_fail none r = r
or_fail (some e) r = err e

module _ (x : External) (d : Datastore) (b : AccessBase) where
  -- The rest of `verify` with the access, and with its key.
  verify_key : AccessStore b → Bytes → Result Bool
  verify_key s [] = err access_key_generation
  verify_key s (c ∷ k) = do
    rs ← b.ac_query s.base (c ∷ k)
    ok (ltb 0 (length (d.naive_filter rs (ac_filter x))))

  verify_access : AccessStore b → Bytes → Result Bool
  verify_access s [] = err invalid_access
  verify_access s (c ∷ a) = verify_key s (access_key x s.key (c ∷ a))

  -- `verify`
  unfoldable pub is_granted : AccessStore b → Bytes → Result Bool
  unfolding verify_access verify_key
  is_granted s key = verify_access s (b.access_from_key s.base (trim_slash key))

  -- `Verify`
  unfoldable pub verify : AccessStore b → Bytes → Option Error
  verify s key = some_error (is_granted s key)

  abbrev in_base : AccessStore b → b.State × Option Error → AccessStore b × Option Error
  in_base s (t, e) = (record s { base = t }, e)

  put_granted : AccessStore b → Bytes → Result Bytes → AccessStore b × Option Error
  put_granted s [] m = (s, some access_key_generation)
  put_granted s (c ∷ k) (err e) = (s, some e)
  put_granted s (c ∷ k) (ok msd) = in_base s (b.put s.base (c ∷ k) msd)

  grant_as : Option PrivKey → Bytes → AccessStore b → Bytes → AccessStore b × Option Error
  grant_as none val s access = (s, some no_valid_priv_key)
  grant_as (some priv) val s access = elim (x.sign priv val) [
    | err e ↦ (s, some e)
    | ok sign ↦ elim (x.signature_data.marshal (record { value = val; sign = sign })) [
      | err e ↦ (s, some e)
      | ok msd ↦ put_granted s (access_key x s.key access) (ok msd)
    ]
  ]

  -- `Grant`, with the 32 random bytes that it signs.
  unfoldable pub grant : Bytes → AccessStore b → Bytes → AccessStore b × Option Error
  unfolding grant_as put_granted
  grant val s access = grant_as s.priv val s access

  -- The loop of `NewAccessStore`, over the accesses and the random bytes of each grant.
  grant_all : AccessStore b → List (Bytes × Bytes) → Result (AccessStore b)
  grant_all s [] = ok s
  grant_all s ((access, val) ∷ rest) =
      let (s', e) = grant val s access in
      let more = grant_all s' rest in elim e [ none ↦ more | some e' ↦ err e' ]

  -- `NewAccessStore` after the key pair is chosen; the private key is dropped at the end.
  unfoldable pub new_access_store :
      b.State → Option PrivKey × Option PubKey → List (Bytes × Bytes) → Result (AccessStore b)
  unfolding grant_all
  new_access_store base (priv, key) accesses = do
    ac ← grant_all (record { base = base; priv = priv; key = key }) accesses
    ok (record ac { priv = none })

  -- `loadAccessStore`, with the private key of the options.
  unfoldable pub load_access_store : b.State → Option PrivKey → Bytes → Result (AccessStore b)
  load_access_store base priv pid = do
    key ← str_to_pub_key x pid
    ok (record { base = base; priv = priv; key = some key })

  abbrev readdress : AccessStore b → Result Parsed → Bytes
  readdress s (err e) = []
  readdress s (ok a) = make_address x a.name (pub_key_to_str x s.key) a.salt (a.time_limit ∷ [])

  unfoldable pub address : AccessStore b → Bytes
  address s = readdress s (parse_address x (b.address s.base))

  reset_base :
      Option (Bytes → b.State → Option PrivKey → Option PubKey → b.State)
      → Bytes
      → b.State
      → Option PrivKey
      → Option PubKey
      → b.State
  reset_base none seed base priv key = base
  reset_base (some reset) seed base priv key = reset seed base priv key

  -- Passed on to the wrapped store; the master key pair stays.
  unfoldable pub reset_key_pair :
      Bytes → AccessStore b → Option PrivKey → Option PubKey → AccessStore b
  unfolding reset_base
  reset_key_pair seed s priv key = record s {
    base = reset_base b.reset_key_pair seed s.base priv key;
  }

  unfoldable pub put : AccessStore b → Bytes → Bytes → AccessStore b × Option Error
  put s key val = elim (verify s (b.put_key s.base key)) [
    | some e ↦ (s, some e)
    | none ↦ in_base s (b.put s.base key val)
  ]

  -- The guard of `Get`, `GetSize` and `Has`.
  unfoldable pub readable : AccessStore b → Bytes → Option Error
  readable s key = elim (verify s key) [
    | none ↦ none
    | some e ↦ if not b.is_hash then some e else verify s (b.put_key s.base key)
  ]

  unfoldable pub get : AccessStore b → Bytes → Result Bytes
  get s key = or_fail (readable s key) (b.get s.base key)

  unfoldable pub get_size : AccessStore b → Bytes → Result ℕ
  get_size s key = or_fail (readable s key) (b.get_size s.base key)

  unfoldable pub has : AccessStore b → Bytes → Result Bool
  has s key = or_fail (readable s key) (b.has s.base key)

  -- `acVerifyFilter`
  unfoldable pub ac_verify_filter : AccessStore b → Filter
  ac_verify_filter s e = is_nil (verify s e.key)

  abbrev verified : AccessStore b → Query → Query
  verified s q = record q { filters = q.filters ++ (ac_verify_filter s ∷ []) }

  unfoldable pub query : AccessStore b → List Query → Result (List Entry)
  query s qs = do rs ← b.query s.base []; ok (d.naive_query_apply (verified s (query_of qs)) rs)

  query_all_of :
      AccessStore b
      → Option (b.State → List Query → Result (List Entry))
      → List Query
      → Result (List Entry)
  query_all_of s none qs = err not_implemented
  query_all_of s (some all) qs = do
    rs ← all s.base []
    ok (d.naive_query_apply (verified s (query_of qs)) rs)

  unfoldable pub query_all : AccessStore b → List Query → Result (List Entry)
  unfolding query_all_of
  query_all s qs = query_all_of s b.query_all qs
