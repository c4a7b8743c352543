-- ===== src/Crdt/Making.antt =====
-- The constructors of the five stores (`NewLogStore` of crdt/log.go and so on), and the stores that
-- they make as an instance of the interface that `NewStore` is written for. A store is a pointer:
-- a place in the list of the stores that were made.
pub mod Instance
pub mod Released
pub mod Wrapped
pub mod Granting
pub mod Shared
use p2p_verse.Common.{
  ℕ, Bool, true, false, Option, none, some, List, [], ◌∷◌, ◌++◌, Bytes, Error, Result, ok, err,
  length, get_elem?, set_elem,
}
use p2p_verse.Common.Action.{Ending, returns, fails, panics, Action, ◌>>=◌}
use p2p_verse.Std.Time.{Time, zero_time}
use p2p_verse.External.Addresses.{Addresses}
use p2p_verse.External.Crypto.{External, PrivKey, PubKey}
use p2p_verse.External.Datastore.{Datastore}
use p2p_verse.External.Setup.{Setup}
use p2p_verse.Crdt.Base
use p2p_verse.Crdt.Base.{BaseStore}
use p2p_verse.Crdt.Hash
use p2p_verse.Crdt.Hash.{HashStore}
use p2p_verse.Crdt.Signature
use p2p_verse.Crdt.Signature.{SignatureStore}
use p2p_verse.Crdt.Updatable
use p2p_verse.Crdt.UpdatableSignature
use p2p_verse.Crdt.UpdatableSignature.{UpdatableSignatureStore}
use p2p_verse.Crdt.Options.{StoreOpts, get_log_opts, get_hash_opts, get_signature_opts}
use p2p_verse.Crdt.Opening
use p2p_verse.Crdt.Opening.{CrdtVerse, Handles, World, init_crdt}
use p2p_verse.Crdt.Verse
use p2p_verse.Crdt.Verse.{Mode, Stores}

-- What a store's time and data come from: the clock, fresh randomness, and the replicated datastore
-- that a handle of go-ds-crdt stands for.
pub record Sources {a : Addresses} (g : Setup a) (d : Datastore) : Type 0 where
  pub now : g.State → Time
  pub fresh : g.State → Bytes
  pub contents : g.State → g.Crdt → d.State
  -- The `select` of `loadCheck`
  pub ticks : g.State → ℕ

pub data AnyStore (d : Datastore) : Type 0 where
  log_store : BaseStore d → AnyStore d
  hash_store : HashStore d → AnyStore d
  signature_store : SignatureStore d → AnyStore d
  updatable_store : BaseStore d → AnyStore d
  updatable_signature_store : UpdatableSignatureStore d → AnyStore d

-- An `IStore` that `NewStore` handles: a store at its place, or an `accessStore` round it, with the
-- keys that it has of its own.
pub record Pointer : Type 0 where
  pub place : ℕ
  pub master : Option (Option PrivKey × Option PubKey)

abbrev pub plain : ℕ → Pointer
plain i = record { place = i; master = none }

-- The outside world, and the stores that were made, with what they hold open.
pub record Shop {a : Addresses} (g : Setup a) (d : Datastore) : Type 0 where
  pub world : World g
  pub stores : List (Handles g × AnyStore d)

module _ (d : Datastore) where
  abbrev pub base_of : AnyStore d → BaseStore d
  base_of (log_store s) = s
  base_of (hash_store s) = s.base
  base_of (signature_store s) = s.base
  base_of (updatable_store s) = s
  base_of (updatable_signature_store s) = s.base

  abbrev pub with_base : AnyStore d → BaseStore d → AnyStore d
  with_base (log_store s) b = log_store b
  with_base (hash_store s) b = hash_store (record s { base = b })
  with_base (signature_store s) b = signature_store (record s { base = b })
  with_base (updatable_store s) b = updatable_store b
  with_base (updatable_signature_store s) b = updatable_signature_store (record s { base = b })

module _ (x : External) (d : Datastore) where
  -- `st.timeLimit = tl` and `st.setTimeLimit()`
  unfoldable pub limited : Time → Time → BaseStore d → BaseStore d
  limited now tl st = (Base.set_time_limit d now (record st { time_limit = tl })).0

  -- What each constructor makes of a base store that is open; `fresh` is its randomness.
  -- `NewLogStore`
  unfoldable pub new_log_store : Time → StoreOpts → BaseStore d → AnyStore d
  new_log_store now opt st = log_store (limited now (get_log_opts (opt ∷ [])) st)

  -- `NewHashStore`
  unfoldable pub new_hash_store : Time → Bytes → StoreOpts → BaseStore d → AnyStore d
  new_hash_store now fresh opt st =
      let (opts, salt, tl) = get_hash_opts fresh (opt ∷ []) in
      hash_store (record { base = limited now tl st; salt = salt })

  -- `NewSignatureStore`
  unfoldable pub new_signature_store : Time → Bytes → StoreOpts → BaseStore d → AnyStore d
  new_signature_store now fresh opt st =
      let (opts, priv, key, tl) = get_signature_opts x fresh (opt ∷ []) in
      signature_store (record { base = limited now tl st; priv = priv; key = key })

  -- `NewUpdatableStore`
  unfoldable pub new_updatable_store : Time → StoreOpts → BaseStore d → AnyStore d
  new_updatable_store now opt st = updatable_store (limited now (get_log_opts (opt ∷ [])) st)

  -- `NewUpdatableSignatureStore`
  unfoldable pub new_updatable_signature_store : Time → Bytes → StoreOpts → BaseStore d → AnyStore d
  new_updatable_signature_store now fresh opt st =
      let (opts, priv, key, tl) = get_signature_opts x fresh (opt ∷ []) in
      updatable_signature_store (record { base = limited now tl st; priv = priv; key = key })

  -- The constructor that `selectNewStore` chooses
  unfoldable pub made : Time → Bytes → Mode → StoreOpts → BaseStore d → AnyStore d
  made now fresh Mode.log opt st = new_log_store now opt st
  made now fresh Mode.hash opt st = new_hash_store now fresh opt st
  made now fresh Mode.signature opt st = new_signature_store now fresh opt st
  made now fresh Mode.updatable opt st = new_updatable_store now opt st
  made now fresh Mode.updatable_signature opt st = new_updatable_signature_store now fresh opt st

  -- `initPut` of each kind of store
  unfoldable pub init_put : Time → AnyStore d → AnyStore d × Option Error
  init_put now (log_store s) = let (t, e) = Base.init_put d s in (log_store t, e)
  init_put now (hash_store s) = let (t, e) = Hash.init_put x d s in (hash_store t, e)
  init_put now (signature_store s) = let (t, e) = Signature.init_put x d s in (signature_store t, e)
  init_put now (updatable_store s) =
      let (t, e) = Updatable.init_put d now s in (updatable_store t, e)
  init_put now (updatable_signature_store s) =
      let (t, e) = UpdatableSignature.init_put x d now s in (updatable_signature_store t, e)

  -- `loadCheck` of each kind of store
  unfoldable pub load_check : AnyStore d → Bool
  load_check (log_store s) = Base.load_check d s
  load_check (hash_store s) = Hash.load_check x d s
  load_check (signature_store s) = Signature.load_check x d s
  load_check (updatable_store s) = Updatable.load_check d s
  load_check (updatable_signature_store s) = UpdatableSignature.load_check x d s
