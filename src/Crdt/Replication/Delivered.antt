-- ===== src/Crdt/Replication/Delivered.antt =====
-- What one peer puts and another one reads: `Put` of a hash store and of a signature store, the
-- message that carries what was stored, the topic validator of the other peer, and its `get`.
use p2p_verse.Common.{
  ◌≡◌, ◌≢◌, refl, inl, inr, Bool, true, false, none, some, err, List, [], ◌∷◌, ◌++◌, Bytes, Error,
  ok, In, subst, sym, ◌∙◌,
}
use p2p_verse.Std.Text.{slash, IsClean}
use p2p_verse.External.Crypto
use p2p_verse.External.Crypto.{External, PrivKey, PubKey, IsPair}
use p2p_verse.External.Datastore
use p2p_verse.External.Datastore.{Datastore}
use p2p_verse.Crdt.Base
use p2p_verse.Crdt.Base.{BaseStore, is_true}
use p2p_verse.Crdt.Crypto.{pub_key_to_str}
use p2p_verse.Crdt.Hash
use p2p_verse.Crdt.Hash.{HashStore, make_hash_key}
use p2p_verse.Crdt.Hash.Stored.{validate-put_hashed, get_stored-put, make_hash_key-IsClean}
use p2p_verse.Crdt.Signature
use p2p_verse.Crdt.Signature.{SignatureStore}
use p2p_verse.Crdt.Signature.Stored.{validate-put_signed, get-put_signed, IsClean-name}
use p2p_verse.Crdt.Setup.{Element, Delta, value_key, msg_to_deltas}
use p2p_verse.Crdt.Replication.{Replica, IsKey, slot, IsLawful, IsHeld, receive}
use p2p_verse.Crdt.Replication.Ancestors.{receive_unread}

abbrev pub one_entry : Bytes → Bytes → List Delta
one_entry key val =
    record { elements = record { key = key; value = val } ∷ []; tombstones = [] } ∷ []

not_both : (b : Bool) → b ≡ true → b ≡ false → ⊥
not_both b h k = cc

module _ {d : Datastore} (r : Replica d) where
  -- The message's one head adds that entry, and merging it brings nothing else.
  pub record Carries (s : d.State) (msg key val : Bytes) : Type 0 where
    pub read : msg_to_deltas (r.exchange s) msg ≡ ok (one_entry key val)
    pub brought : r.brings s msg ≡ one_entry key val

  -- The local copy does not have the key.
  abbrev pub IsAbsent : d.State → Bytes → Type 0
  IsAbsent s key =
      let w = r.exchange s in is_true (w.has (value_key w (d.new_key r.name) key)) ≡ false

  -- An entry that is new and valid is held once the message that carries it was received, under
  -- the key whose place its own key has.
  pub receive_carried :
      (v : BaseStore d → Bytes → Bytes → Bool) (s : BaseStore d) (pid msg sent key val : Bytes)
      → IsLawful r
      → r.self ≢ pid
      → Carries s.dt msg sent val
      → IsKey key
      → slot r s.dt sent ≡ slot r s.dt key
      → IsAbsent s.dt key
      → v s sent val ≡ true
      → IsHeld d (receive r v pid msg s).dt key val
  receive_carried v s pid msg sent key val lawful other carried spelled there free valid =
      let e : Element = record { key = sent; value = val } in
      let absent = subst (λ k. is_true ((r.exchange s.dt).has k) ≡ false) (sym there) free in
      receive_unread r v s pid msg key e (one_entry sent val) lawful other carried.read
        ((((valid, absent), tt), refl), tt) (rw carried.brought (λ delta m. only delta m))
        (rw carried.brought (inl refl)) spelled there
        (rw carried.brought (λ f m same. value_of f m))
        (λ old held. absurd (not_both _ (lawful.held s.dt key old held) free))
    where
      only : (delta : Delta) → In delta (one_entry sent val) → delta.tombstones ≡ []
      only delta (inl e) = rw e
      only delta (inr m) = absurd m

      value_of : (f : Element) → In f (record { key = sent; value = val } ∷ []) → f.value ≡ val
      value_of f (inl e) = rw e
      value_of f (inr m) = absurd m

pub get-held :
    {d : Datastore} (s : BaseStore d) (key val : Bytes)
    → IsHeld d s.dt (d.new_key key) val
    → Base.get d s key ≡ ok val
unfolding Base.get
get-held s key val h = rw h

module _ (x : External) (d : Datastore) (lawful : Crypto.IsLawful x) (stored : Datastore.IsLawful d)
    (r : Replica d) (laws : IsLawful r) where
  new_key-IsKey : (k : Bytes) → IsClean k → IsKey (d.new_key k)
  new_key-IsKey k clean = rw (stored.new_key_clean k clean) (IsKey.path clean)

  get_stored-same :
      (s t : HashStore d) (key : Bytes)
      → Base.get d s.base key ≡ Base.get d t.base key
      → Hash.get_stored x d s key ≡ Hash.get_stored x d t key
  unfolding Hash.get_stored
  get_stored-same s t key h = rw h

  -- What a hash store puts, another peer in time that has the same salt and no such key reads under
  -- the same key, once it has received a message that carries what was stored; where the key is not
  -- itself a readable stored key there.
  pub get-receive_hashed :
      (s : HashStore d) (t : BaseStore d) (pid msg str val : Bytes) {e : Error}
      → (Hash.put x d s str val).1 ≡ none
      → t.in_time ≡ true
      → r.self ≢ pid
      → ((m : Bytes)
          → Base.get d (Hash.put x d s str val).0.base (make_hash_key x str s.salt) ≡ ok m
          → Carries r t.dt msg (d.new_key (make_hash_key x str s.salt)) m)
      → IsAbsent r t.dt (d.new_key (make_hash_key x str s.salt))
      → Hash.get_stored x d
          (record { base = receive r (Hash.validate x d) pid msg t; salt = s.salt })
          str
        ≡ err e
      → Hash.get x d (record { base = receive r (Hash.validate x d) pid msg t; salt = s.salt }) str
        ≡ ok val
  unfolding Hash.get
  get-receive_hashed s t pid msg str val wrote live other carried absent missing =
      let key = make_hash_key x str s.salt in
      let (m, there, valid) = validate-put_hashed x d lawful stored s t str val wrote live in
      let got = get-held (receive r (Hash.validate x d) pid msg t) key m (
        receive_carried r (Hash.validate x d) t pid msg (d.new_key key) (d.new_key key) m laws other
          (carried m there)
          (new_key-IsKey key (make_hash_key-IsClean x d lawful stored str s.salt).0) refl absent
          valid) in
      rw (missing, Hash.get)
        (get_stored-same (record { base = receive r (Hash.validate x d) pid msg t; salt = s.salt })
            (Hash.put x d s str val).0 key (got ∙ sym there)
          ∙ get_stored-put x d lawful stored s str val wrote)

  -- What a matching key pair puts under a clean key in a signature store, another peer in time that
  -- has no such key reads under the writer's name and that key, once it has received a message that
  -- carries what was stored.
  pub get-receive_signed :
      (s t : SignatureStore d) (priv : PrivKey) (key : PubKey) (pid msg k val : Bytes)
      → s.priv ≡ some priv
      → s.key ≡ some key
      → IsPair x priv key
      → IsClean k
      → (Signature.put x d s k val).1 ≡ none
      → t.base.in_time ≡ true
      → r.self ≢ pid
      → ((m : Bytes)
          → Base.get d
              (Signature.put x d s k val).0.base
              (pub_key_to_str x (some key) ++ (slash ∷ k))
            ≡ ok m
          → Carries r t.base.dt msg (d.new_key (pub_key_to_str x (some key) ++ (slash ∷ k))) m)
      → IsAbsent r t.base.dt (d.new_key (pub_key_to_str x (some key) ++ (slash ∷ k)))
      → Signature.get x d
          (record t { base = receive r (Signature.validate x d) pid msg t.base })
          (pub_key_to_str x (some key) ++ (slash ∷ k))
        ≡ ok val
  unfolding Signature.get
  get-receive_signed s t priv key pid msg k val owned is pair clean wrote live other carried
        absent =
      let full = pub_key_to_str x (some key) ++ (slash ∷ k) in
      let (m, there, valid, mine, named) =
        validate-put_signed x d lawful stored s t.base priv key k val owned is pair clean wrote
          live in
      let got = get-held (receive r (Signature.validate x d) pid msg t.base) full m (
        receive_carried r (Signature.validate x d) t.base pid msg (d.new_key full) (d.new_key full)
          m laws other (carried m there)
          (new_key-IsKey full (IsClean-name x d lawful stored key k named clean)) refl absent
          valid) in
      let read : Signature.get x d (Signature.put x d s k val).0 full ≡ ok val =
        subst
          (λ q.
            Signature.get x d (Signature.put x d s k val).0 (pub_key_to_str x q ++ (slash ∷ k))
            ≡ ok val)
          is (get-put_signed x d lawful stored s priv k val owned wrote) in
      rw (got ∙ sym there) read
