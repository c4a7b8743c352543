-- ===== src/Crdt/Signature/Stored.antt =====
-- What a signature store's `Put` stores, and how it is read back and validated.
use p2p_verse.Common.{
  ◌≡◌, ◌≢◌, refl, true, Option, none, some, [], ◌∷◌, ◌++◌, arith, Bytes, Result, ok, err, >>=-eq-ok,
  sym, ap, ◌∙◌, subst,
}
use p2p_verse.Std.Text.{slash, IsClean, split-slash, trim_slash_lem, first_part}
use p2p_verse.External.Crypto
use p2p_verse.External.Crypto.{External, PrivKey, PubKey, IsPair}
use p2p_verse.External.Datastore
use p2p_verse.External.Datastore.{Datastore}
use p2p_verse.Crdt.Filters.{parts}
use p2p_verse.Crdt.Crypto.{pub_key_to_str, str_to_pub_key-pub_key_to_str, pub_key_to_str-IsPart}
use p2p_verse.Crdt.Base
use p2p_verse.Crdt.Base.{BaseStore}
use p2p_verse.Crdt.Base.AppendOnly
use p2p_verse.Crdt.Signature.Valid.{IsSigned}
use p2p_verse.Crdt.Signature.{
  SignatureStore, seal, under_name, put_sealed, put, get, validate, checks, access_from_key,
}

-- What was sealed: the signature, the message, and the key under the writer's name.
pub record Sealed (x : External) (priv : PrivKey) (key : Option PubKey) (name val : Bytes)
    (full msd : Bytes) : Type 0 where
  pub sign : Bytes
  pub signed : x.sign priv val ≡ ok sign
  pub made : x.signature_data.marshal (record { value = val; sign = sign }) ≡ ok msd
  pub named : pub_key_to_str x key ≢ []
  pub placed : full ≡ pub_key_to_str x key ++ (slash ∷ name)

under_name_ok :
    (x : External) (id name full : Bytes)
    → under_name x id name ≡ ok full
    → (id ≢ []) × (full ≡ id ++ (slash ∷ name))
under_name_ok x [] name full h = cc
under_name_ok x (c ∷ id) name full h = (λ e. cc, ground arith)

pair_eq :
    (a b c e : Bytes) → ◌≡◌ {A = Result (Bytes × Bytes)} (ok (a, b)) (ok (c, e)) → (a ≡ c) × (b ≡ e)
pair_eq a b c e h = ground arith

pub seal_ok :
    (x : External) (priv : PrivKey) (key : Option PubKey) (name val full msd : Bytes)
    → seal x (some priv) key name val ≡ ok (full, msd)
    → Sealed x priv key name val full msd
unfolding seal
seal_ok x priv key name val full msd h =
    let (sign, signed, rest) = >>=-eq-ok (x.sign priv val) _ h in
    let (m, made, rest') = >>=-eq-ok (x.signature_data.marshal _) _ rest in
    let (f, named, last) = >>=-eq-ok (under_name x (pub_key_to_str x key) name) _ rest' in
    let (ne, place) = under_name_ok x _ name f named in
    let (full_eq, msd_eq) = pair_eq f m full msd last in
    record {
      sign = sign;
      signed = signed;
      made = made ∙ ap (λ (b : Bytes). ok b) msd_eq;
      named = ne;
      placed = sym full_eq ∙ place;
    }

module _ (x : External) (d : Datastore) where
  put_sealed_wrote :
      (s : SignatureStore d) (r : Result (Bytes × Bytes))
      → (put_sealed x d s r).1 ≡ none
      → (full msd : Bytes) × (r ≡ ok (full, msd))
        × ((Base.put d s.base full msd).1 ≡ none)
        × ((put_sealed x d s r).0 ≡ record s { base = (Base.put d s.base full msd).0 })
  unfolding put_sealed
  put_sealed_wrote s (err e) h = absurd (ground arith)
  put_sealed_wrote s (ok (full, msd)) h = (full, msd, refl, h, refl)

  module _ (lawful : Crypto.IsLawful x) (stored : Datastore.IsLawful d) where
    -- What a successful `Put` by a matching key pair leaves in the datastore: the message, under
    -- the writer's name and the caller's key.
    put_wrote :
        (s : SignatureStore d) (priv : PrivKey) (key val : Bytes)
        → s.priv ≡ some priv
        → (put x d s key val).1 ≡ none
        → (msd sign : Bytes) × (x.sign priv val ≡ ok sign)
          × (x.signature_data.unmarshal msd ≡ ok (record { value = val; sign = sign }))
          × (pub_key_to_str x s.key ≢ [])
          × (Base.get d (put x d s key val).0.base (pub_key_to_str x s.key ++ (slash ∷ key))
              ≡ ok msd)
    unfolding put
    put_wrote s priv key val owned h =
        let (full, msd, sealed, wrote, same) = put_sealed_wrote s _ h in
        let q =
          seal_ok x priv s.key key val full msd
            (subst (λ p. seal x p s.key key val ≡ ok (full, msd)) owned sealed) in
        (
          msd,
          q.sign,
          q.signed,
          lawful.signature_data_lawful.unmarshal-marshal _ msd q.made,
          q.named,
          rw (same, ← q.placed) (AppendOnly.get-put d stored s.base full msd wrote),
        )

    -- The value is read back under the writer's name and the caller's key.
    pub get-put_signed :
        (s : SignatureStore d) (priv : PrivKey) (key val : Bytes)
        → s.priv ≡ some priv
        → (put x d s key val).1 ≡ none
        → get x d (put x d s key val).0 (pub_key_to_str x s.key ++ (slash ∷ key)) ≡ ok val
    unfolding get
    get-put_signed s priv key val owned h =
        let (msd, sign, signed, read, named, there) = put_wrote s priv key val owned h in
        rw (there, read)

    pub IsClean-name :
        (key : PubKey) (k : Bytes)
        → pub_key_to_str x (some key) ≢ []
        → IsClean k
        → IsClean (pub_key_to_str x (some key) ++ (slash ∷ k))
    IsClean-name key k named clean =
        let (part, plain) = pub_key_to_str-IsPart x lawful (some key) named in
        rw (split-slash _ k plain) (part, clean)

    pub parts_of_name :
        (key : PubKey) (k : Bytes)
        → pub_key_to_str x (some key) ≢ []
        → first_part (parts (slash ∷ (pub_key_to_str x (some key) ++ (slash ∷ k))))
          ≡ pub_key_to_str x (some key)
    unfolding parts first_part
    parts_of_name key k named =
        let (part, plain) = pub_key_to_str-IsPart x lawful (some key) named in
        rw (trim_slash_lem (pub_key_to_str x (some key) ++ (slash ∷ k)), split-slash _ k plain)

    pub checks-true :
        (key : PubKey) (val sign : Bytes)
        → x.verify key val sign ≡ ok true
        → checks x (ok key) (ok (record { value = val; sign = sign })) ≡ true
    unfolding checks
    checks-true key val sign h = rw h

    -- What a matching key pair sealed carries its signature, under any key that begins with its name.
    pub Sealed-IsSigned :
        (priv : PrivKey) (key : PubKey) (name val full msd at : Bytes)
        → IsPair x priv key
        → Sealed x priv (some key) name val full msd
        → first_part (parts at) ≡ pub_key_to_str x (some key)
        → IsSigned x at msd
    Sealed-IsSigned priv key name val full msd at pair q begins = record {
      signer = key;
      message = record { value = val; sign = q.sign };
      named = rw begins (str_to_pub_key-pub_key_to_str x lawful key q.named);
      carried = lawful.signature_data_lawful.unmarshal-marshal _ msd q.made;
      verified = pair val q.sign q.signed;
    }

    -- A successful `Put` of a matching key pair under a clean key is one of the base store, of an
    -- entry that carries the writer's signature.
    pub put_base :
        (s : SignatureStore d) (priv : PrivKey) (key : PubKey) (k val : Bytes)
        → s.priv ≡ some priv
        → s.key ≡ some key
        → IsPair x priv key
        → IsClean k
        → (put x d s k val).1 ≡ none
        → (full m : Bytes) × ((Base.put d s.base full m).1 ≡ none)
          × ((put x d s k val).0.base ≡ (Base.put d s.base full m).0)
          × IsSigned x (d.new_key full) m
    unfolding put
    put_base s priv key k val owned is pair clean h =
        let (full, msd, sealed, wrote, same) = put_sealed_wrote s _ h in
        let q = seal_ok x priv (some key) k val full msd (
          subst (λ p. seal x p (some key) k val ≡ ok (full, msd)) owned
            (subst (λ p. seal x s.priv p k val ≡ ok (full, msd)) is sealed)) in
        (
          full,
          msd,
          wrote,
          ap (λ (t : SignatureStore d). t.base) same,
          Sealed-IsSigned priv key k val full msd (d.new_key full) pair q (
              rw (q.placed, stored.new_key_clean _ (IsClean-name key k q.named clean))
                (parts_of_name key k q.named)),
        )

    -- What a matching key pair wrote under a clean key is accepted by the validator of every peer
    -- whose store is still in time, and the access control takes the writer's name from its key.
    pub validate-put_signed :
        (s : SignatureStore d) (peer : BaseStore d) (priv : PrivKey) (key : PubKey) (k val : Bytes)
        → s.priv ≡ some priv
        → s.key ≡ some key
        → IsPair x priv key
        → IsClean k
        → (put x d s k val).1 ≡ none
        → peer.in_time ≡ true
        → let full = pub_key_to_str x (some key) ++ (slash ∷ k) in
          (m : Bytes) × (Base.get d (put x d s k val).0.base full ≡ ok m)
          × (validate x d peer (d.new_key full) m ≡ true)
          × (access_from_key (d.new_key full) ≡ pub_key_to_str x (some key))
          × (pub_key_to_str x (some key) ≢ [])
    unfolding validate Base.validate access_from_key
    validate-put_signed s peer priv key k val owned is pair clean h live =
        let (m, sign, signed, read, named, there) = put_wrote s priv k val owned h in
        let name_is : pub_key_to_str x s.key ≡ pub_key_to_str x (some key) =
          ap (pub_key_to_str x) is in
        let named' : pub_key_to_str x (some key) ≢ [] = subst (λ n. n ≢ []) name_is named in
        let spelled = stored.new_key_clean _ (IsClean-name key k named' clean) in
        (
          m,
          subst (λ n. Base.get d (put x d s k val).0.base (n ++ (slash ∷ k)) ≡ ok m) name_is there,
          rw
              (
                spelled,
                live,
                parts_of_name key k named',
                str_to_pub_key-pub_key_to_str x lawful key named',
                read,
              )
              (checks-true _ _ _ (pair val sign signed)),
          rw spelled (parts_of_name key k named'),
          named',
        )
