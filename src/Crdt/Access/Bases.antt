-- ===== src/Crdt/Access/Bases.antt =====
-- The three stores that implement `IAccessBaseStore`.
use p2p_verse.Common.{Bytes, none, some, true, false, [], ◌∷◌}
use p2p_verse.Std.Time.{Time}
use p2p_verse.External.Crypto.{External}
use p2p_verse.External.Datastore.{Datastore}
use p2p_verse.Crdt.Address.{make_address}
use p2p_verse.Crdt.Base
use p2p_verse.Crdt.Base.{BaseStore}
use p2p_verse.Crdt.Hash
use p2p_verse.Crdt.Hash.{HashStore}
use p2p_verse.Crdt.Signature
use p2p_verse.Crdt.Signature.{SignatureStore}
use p2p_verse.Crdt.Updatable
use p2p_verse.Crdt.UpdatableSignature
use p2p_verse.Crdt.UpdatableSignature.{UpdatableSignatureStore}
use p2p_verse.Crdt.Access.{AccessBase}

module _ (x : External) (d : Datastore) where
  abbrev pub hash_base : AccessBase
  hash_base = record {
    State = HashStore d;
    put = Hash.put x d;
    get = Hash.get x d;
    get_size = Hash.get_size x d;
    has = Hash.has x d;
    query = Hash.query x d;
    query_all = none;
    address = Hash.address x d;
    put_key = Hash.put_key x d;
    ac_query = Hash.ac_query x d;
    access_from_key = Hash.access_from_key x d;
    reset_key_pair = none;
    is_hash = true;
  }

  -- `baseStore.Address`
  unfoldable pub base_address : BaseStore d → Bytes
  base_address s = make_address x s.name [] [] (s.time_limit ∷ [])

  abbrev pub signature_base : AccessBase
  signature_base = record {
    State = SignatureStore d;
    put = Signature.put x d;
    get = Signature.get x d;
    get_size = Signature.get_size x d;
    has = λ s. Base.has d s.base;
    query = Signature.query x d;
    query_all = none;
    address = λ s. base_address s.base;
    put_key = Signature.put_key x d;
    ac_query = Signature.ac_query x d;
    access_from_key = λ s. Signature.access_from_key;
    reset_key_pair = some (Signature.reset_key_pair x d);
    is_hash = false;
  }

  abbrev pub updatable_signature_base : Time → AccessBase
  updatable_signature_base now = record {
    State = UpdatableSignatureStore d;
    put = UpdatableSignature.put x d now;
    get = UpdatableSignature.get x d;
    get_size = UpdatableSignature.get_size x d;
    has = λ s. Updatable.has d s.base;
    query = UpdatableSignature.query x d;
    query_all = some (UpdatableSignature.query_all x d);
    address = λ s. base_address s.base;
    put_key = UpdatableSignature.put_key x d;
    ac_query = UpdatableSignature.ac_query x d;
    access_from_key = λ s. Signature.access_from_key;
    reset_key_pair = some (UpdatableSignature.reset_key_pair x d);
    is_hash = false;
  }
