-- ===== src/Crdt/Replication/Forged.antt =====
-- What a peer can write under the names of others: the validator of a signature store
-- (crdt/signature.go) reads the writer's name from the key as it was sent, and go-ds-crdt cleans the
-- key when it keeps the value.
use p2p_verse.Common.{◌≡◌, ◌≢◌, refl, true, some, [], ◌∷◌, ◌++◌, Bytes, ok}
use p2p_verse.Std.Text.{slash, IsClean}
use p2p_verse.External.Crypto
use p2p_verse.External.Crypto.{External, PrivKey, PubKey, IsPair}
use p2p_verse.External.Datastore
use p2p_verse.External.Datastore.{Datastore}
use p2p_verse.Crdt.Base
use p2p_verse.Crdt.Crypto.{pub_key_to_str, str_to_pub_key-pub_key_to_str, pub_key_to_str-IsPart}
use p2p_verse.Crdt.Signature
use p2p_verse.Crdt.Signature.{SignatureStore, checks}
use p2p_verse.Crdt.Signature.Stored.{checks-true, parts_of_name}
use p2p_verse.Crdt.Replication.{Replica, IsKey, IsLawful, receive}
use p2p_verse.Crdt.Replication.Delivered.{Carries, IsAbsent, receive_carried, get-held}

-- The key after the name of the writer and "..".
abbrev pub above : External → PubKey → Bytes → Bytes
above x key k = pub_key_to_str x (some key) ++ (slash ∷ b'.' ∷ b'.' ∷ slash ∷ k)

module _ (x : External) (d : Datastore) (lawful : Crypto.IsLawful x) (stored : Datastore.IsLawful d)
    (r : Replica d) (laws : IsLawful r) where
  validate-above :
      (t : SignatureStore d) (priv : PrivKey) (key : PubKey) (k val sign m : Bytes)
      → IsPair x priv key
      → pub_key_to_str x (some key) ≢ []
      → x.sign priv val ≡ ok sign
      → x.signature_data.marshal (record { value = val; sign = sign }) ≡ ok m
      → t.base.in_time ≡ true
      → Signature.validate x d t.base (slash ∷ above x key k) m ≡ true
  unfolding Signature.validate Base.validate
  validate-above t priv key k val sign m pair named signed made live =
      rw
        (
          live,
          parts_of_name x d lawful stored key (b'.' ∷ b'.' ∷ slash ∷ k) named,
          str_to_pub_key-pub_key_to_str x lawful key named,
          lawful.signature_data_lawful.unmarshal-marshal _ m made,
        )
        (checks-true x d lawful stored key val sign (pair val sign signed))

  -- Whoever has a matching key pair can write under any clean key that a signature store in time
  -- does not hold, that of another writer included: a message with one head whose one entry is
  -- signed by the sender and has, as its key, the sender's name, "..", and the key that is meant, is
  -- taken, and the value is then read under the key that is meant.
  pub get-receive_forged :
      (t : SignatureStore d) (priv : PrivKey) (key : PubKey) (pid msg k val sign m : Bytes)
      → IsPair x priv key
      → pub_key_to_str x (some key) ≢ []
      → x.sign priv val ≡ ok sign
      → x.signature_data.marshal (record { value = val; sign = sign }) ≡ ok m
      → t.base.in_time ≡ true
      → r.self ≢ pid
      → Carries r t.base.dt msg (slash ∷ above x key k) m
      → IsClean k
      → IsAbsent r t.base.dt (slash ∷ k)
      → Signature.get x d (record t { base = receive r (Signature.validate x d) pid msg t.base }) k
        ≡ ok val
  unfolding Signature.get
  get-receive_forged t priv key pid msg k val sign m pair named signed made live other carried clean
        absent =
      let (part, plain) = pub_key_to_str-IsPart x lawful (some key) named in
      let held =
        receive_carried r (Signature.validate x d) t.base pid msg (slash ∷ above x key k)
          (slash ∷ k) m laws other carried (IsKey.path clean)
          (laws.slot_parent t.base.dt (pub_key_to_str x (some key)) k part plain) absent
          (validate-above t priv key k val sign m pair named signed made live) in
      let got =
        get-held (receive r (Signature.validate x d) pid msg t.base) k m
          (rw (stored.new_key_clean k clean) held) in
      rw (got, lawful.signature_data_lawful.unmarshal-marshal _ m made) refl
