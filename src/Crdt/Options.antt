-- ===== src/Crdt/Options.antt =====
-- `StoreOpts` of crdt/crdtverse.go and the functions that read it: `getLogOpts` of crdt/log.go,
-- `getHashOpts` of crdt/hash.go, `getSignatureOpts` of crdt/signature.go (of the same text as
-- `getUpdatableSignatureOpts` and, less the time limit, `getAccessOpts`). The callee writes what it
-- generates into the caller's first `StoreOpts`, so each returns the options too. Fresh randomness
-- is an argument.
use p2p_verse.Common.{Option, none, some, List, [], ◌∷◌, Bytes, Result, ok, err}
use p2p_verse.Std.Time.{Time, zero_time}
use p2p_verse.External.Crypto.{External, PrivKey, PubKey}

pub record StoreOpts : Type 0 where
  pub salt : Option Bytes
  pub priv : Option PrivKey
  pub key : Option PubKey
  pub time_limit : Time

unfoldable pub get_log_opts : List StoreOpts → Time
get_log_opts [] = zero_time
get_log_opts (o ∷ os) = o.time_limit

-- `make([]byte, 8)` filled with randomness where no salt is given.
salt_or : Bytes → Option Bytes → Bytes
salt_or fresh none = fresh
salt_or fresh (some salt) = salt

unfoldable pub get_hash_opts : Bytes → List StoreOpts → List StoreOpts × Bytes × Time
unfolding salt_or
get_hash_opts fresh [] = ([], fresh, zero_time)
get_hash_opts fresh (o ∷ os) =
    let salt = salt_or fresh o.salt in (record o { salt = some salt } ∷ os, salt, o.time_limit)

-- `priv, pub, _ := generateKeyPair()`
abbrev pub pair_of : Result (PrivKey × PubKey) → Option PrivKey × Option PubKey
pair_of (ok (priv, key)) = (some priv, some key)
pair_of (err e) = (none, none)

module _ (x : External) where
  fill_pair : Bytes → StoreOpts → Option PubKey → StoreOpts
  fill_pair seed o none =
      let (priv, key) = pair_of (x.funcs.generate_key_pair seed) in
      record o { priv = priv; key = key }
  fill_pair seed o (some key) = o

  unfoldable pub get_signature_opts :
      Bytes → List StoreOpts → List StoreOpts × Option PrivKey × Option PubKey × Time
  unfolding fill_pair
  get_signature_opts seed [] =
      let (priv, key) = pair_of (x.funcs.generate_key_pair seed) in ([], priv, key, zero_time)
  get_signature_opts seed (o ∷ os) =
      let o' = fill_pair seed o o.key in (o' ∷ os, o'.priv, o'.key, o'.time_limit)

  unfoldable pub get_access_opts :
      Bytes → List StoreOpts → List StoreOpts × Option PrivKey × Option PubKey
  unfolding fill_pair
  get_access_opts seed [] =
      let (priv, key) = pair_of (x.funcs.generate_key_pair seed) in ([], priv, key)
  get_access_opts seed (o ∷ os) = let o' = fill_pair seed o o.key in (o' ∷ os, o'.priv, o'.key)
