-- ===== src/Crdt/Replication/Signed.antt =====
-- A signature store (crdt/signature.go) among its peers.
use p2p_verse.Common.{◌≡◌, refl, none, some, Bytes}
use p2p_verse.Std.Text.{IsClean}
use p2p_verse.External.Crypto
use p2p_verse.External.Crypto.{External, PrivKey, PubKey, IsPair}
use p2p_verse.External.Datastore
use p2p_verse.External.Datastore.{Datastore}
use p2p_verse.Crdt.Base.{BaseStore}
use p2p_verse.Crdt.Signature
use p2p_verse.Crdt.Signature.{SignatureStore}
use p2p_verse.Crdt.Signature.Valid.{IsSigned, validate-IsSigned}
use p2p_verse.Crdt.Signature.Stored.{put_base}
use p2p_verse.Crdt.Replication.{Replica, IsLawful, IsKey, Reach}
use p2p_verse.Crdt.Replication.Kept.{IsKey-Moves, Keeps, AllFit, put-Keeps, put-AllFit, Reach-lem}

abbrev pub owned : {d : Datastore} → PrivKey → PubKey → BaseStore d → SignatureStore d
owned priv key s = record { base = s; priv = some priv; key = some key }

-- The successful writes of owners, each with a matching key pair and under a clean key.
pub data Writes (x : External) (d : Datastore) : BaseStore d → BaseStore d → Type 0 where
  puts :
      (s : BaseStore d) (priv : PrivKey) (key : PubKey) (k val : Bytes)
      → IsPair x priv key
      → IsClean k
      → (Signature.put x d (owned priv key s) k val).1 ≡ none
      → Writes x d s (Signature.put x d (owned priv key s) k val).0.base
  begins :
      (s : BaseStore d) (priv : PrivKey) (key : PubKey)
      → IsPair x priv key
      → IsClean s.name
      → (Signature.init_put x d (owned priv key s)).1 ≡ none
      → Writes x d s (Signature.init_put x d (owned priv key s)).0.base

module _ (x : External) (d : Datastore) (lawful : Crypto.IsLawful x)
    (stored : Datastore.IsLawful d) where
  put-IsSigned :
      (s : BaseStore d) (priv : PrivKey) (key : PubKey) (k val : Bytes)
      → IsPair x priv key
      → IsClean k
      → (Signature.put x d (owned priv key s) k val).1 ≡ none
      → let t = (Signature.put x d (owned priv key s) k val).0.base in
        Keeps s t × (AllFit (IsSigned x) s → AllFit (IsSigned x) t)
  put-IsSigned s priv key k val pair clean h =
      let (full, m, wrote, same, fit) =
        put_base x d lawful stored (owned priv key s) priv key k val refl refl pair clean h in
      rw same (put-Keeps stored s full m wrote, put-AllFit stored s full m wrote (IsSigned x) fit)

  Writes-lem :
      (s t : BaseStore d)
      → Writes x d s t
      → Keeps s t × (AllFit (IsSigned x) s → AllFit (IsSigned x) t)
  unfolding Signature.init_put Signature.put
  Writes-lem _ _ (puts s priv key k val pair clean h) = put-IsSigned s priv key k val pair clean h
  Writes-lem _ _ (begins s priv key pair clean h) =
      put-IsSigned s priv key s.name s.name pair clean h

  -- Whatever owners with matching key pairs write under clean keys to a signature store, and
  -- whatever other peers send, as long as every delta that is merged for a message is one that the
  -- topic validator has read and its keys are spelled as `ds.NewKey` spells them: in every later copy of the store the entries of an earlier one are
  -- unchanged, and each entry still carries a signature of the identity that its key begins with,
  -- if each did so in the earlier copy.
  pub replicate-IsSigned :
      (r : Replica d) {s t : BaseStore d}
      → IsLawful r
      → AllFit (IsSigned x) s
      → Reach r (λ now. Signature.validate x d) IsKey (Writes x d) s t
      → Keeps s t × AllFit (IsSigned x) t
  replicate-IsSigned r laws all run =
      let (kept, fit) =
        Reach-lem r laws (λ now. Signature.validate x d) (IsSigned x) (λ now. validate-IsSigned x d)
          (IsKey-Moves r laws (IsSigned x)) Writes-lem run in
      (kept, fit all)
