-- ===== src/Crdt/Replication/Dated.antt =====
-- An updatable signature store (crdt/updatable_signature.go) among its peers.
use p2p_verse.Common.{◌≡◌, refl, true, none, some, Bytes}
use p2p_verse.Std.Text.{IsClean}
use p2p_verse.Std.Time.{Time}
use p2p_verse.Std.Time.RoundTrip.{IsValid}
use p2p_verse.External.Crypto
use p2p_verse.External.Crypto.{External, PrivKey, PubKey, IsPair}
use p2p_verse.External.Datastore
use p2p_verse.External.Datastore.{Datastore}
use p2p_verse.Crdt.Base.{BaseStore}
use p2p_verse.Crdt.Signature.Valid.{IsSigned}
use p2p_verse.Crdt.Updatable.Stamped.{IsDated}
use p2p_verse.Crdt.UpdatableSignature
use p2p_verse.Crdt.UpdatableSignature.{UpdatableSignatureStore}
use p2p_verse.Crdt.UpdatableSignature.Stored.{put_base}
use p2p_verse.Crdt.UpdatableSignature.Validator.{validate_iff}
use p2p_verse.Crdt.Replication.{Replica, IsLawful, IsKey, Reach}
use p2p_verse.Crdt.Replication.Kept.{IsKey-Moves, Keeps, AllFit, put-Keeps, put-AllFit, Reach-lem}

abbrev pub owned : {d : Datastore} → PrivKey → PubKey → BaseStore d → UpdatableSignatureStore d
owned priv key s = record { base = s; priv = some priv; key = some key }

-- The successful writes of owners, each with a matching key pair and under a clean key, at a time
-- that the clock can show.
pub data Writes (x : External) (d : Datastore) : BaseStore d → BaseStore d → Type 0 where
  puts :
      (now : Time) (s : BaseStore d) (priv : PrivKey) (key : PubKey) (k val : Bytes)
      → IsValid now
      → IsPair x priv key
      → IsClean k
      → (UpdatableSignature.put x d now (owned priv key s) k val).1 ≡ none
      → Writes x d s (UpdatableSignature.put x d now (owned priv key s) k val).0.base
  begins :
      (now : Time) (s : BaseStore d) (priv : PrivKey) (key : PubKey)
      → IsValid now
      → IsPair x priv key
      → IsClean s.name
      → (UpdatableSignature.init_put x d now (owned priv key s)).1 ≡ none
      → Writes x d s (UpdatableSignature.init_put x d now (owned priv key s)).0.base

-- A version of a value: signed by the identity that its key begins with, under a key that ends in
-- a UTC instant.
abbrev pub IsVersion : External → Bytes → Bytes → Type 0
IsVersion x key val = IsSigned x key val × IsDated key

module _ (x : External) (d : Datastore) where
  validate-IsVersion :
      (now : Time) (s : BaseStore d) (key val : Bytes)
      → UpdatableSignature.validate x d s now key val ≡ true
      → IsVersion x key val
  validate-IsVersion now s key val h =
      let (live, signed, stamped) = (validate_iff x d s now key val).0 h in
      (
        signed,
        record {
          stamp = stamped.stamp;
          instant = stamped.instant;
          decoded = stamped.decoded;
          read = stamped.read;
          utc = stamped.utc;
        },
      )

  module _ (lawful : Crypto.IsLawful x) (stored : Datastore.IsLawful d) where
    put-IsVersion :
        (now : Time) (s : BaseStore d) (priv : PrivKey) (key : PubKey) (k val : Bytes)
        → IsValid now
        → IsPair x priv key
        → IsClean k
        → (UpdatableSignature.put x d now (owned priv key s) k val).1 ≡ none
        → let t = (UpdatableSignature.put x d now (owned priv key s) k val).0.base in
          Keeps s t × (AllFit (IsVersion x) s → AllFit (IsVersion x) t)
    put-IsVersion now s priv key k val v pair clean h =
        let (at, m, wrote, same, signed, dated) =
          put_base x d lawful stored now (owned priv key s) priv key k val v refl refl pair clean
            h in
        rw same (
          put-Keeps stored s at m wrote,
          put-AllFit stored s at m wrote (IsVersion x) (signed, dated),
        )

    Writes-lem :
        (s t : BaseStore d)
        → Writes x d s t
        → Keeps s t × (AllFit (IsVersion x) s → AllFit (IsVersion x) t)
    unfolding UpdatableSignature.init_put UpdatableSignature.put
    Writes-lem _ _ (puts now s priv key k val v pair clean h) =
        put-IsVersion now s priv key k val v pair clean h
    Writes-lem _ _ (begins now s priv key v pair clean h) =
        put-IsVersion now s priv key s.name s.name v pair clean h

    -- Whatever owners with matching key pairs write under clean keys, at times in the clock's range,
    -- to an updatable signature store, and whatever other peers send, as long as every delta merged
    -- for a message is one that the topic validator has read and its keys are spelled as `ds.NewKey`
    -- spells them: in every later copy of the store the
    -- versions of an earlier one are unchanged, and each entry still carries a signature of the
    -- identity that its key begins with, and its key ends in a UTC instant, if each entry of the
    -- earlier copy was so.
    pub replicate-IsVersion :
        (r : Replica d) {s t : BaseStore d}
        → IsLawful r
        → AllFit (IsVersion x) s
        → Reach r (λ now u. UpdatableSignature.validate x d u now) IsKey (Writes x d) s t
        → Keeps s t × AllFit (IsVersion x) t
    replicate-IsVersion r laws all run =
        let (kept, fit) =
          Reach-lem r laws (λ now u. UpdatableSignature.validate x d u now) (IsVersion x)
            validate-IsVersion (IsKey-Moves r laws (IsVersion x)) Writes-lem run in
        (kept, fit all)
