-- ===== src/Crdt/Crypto.antt =====
-- crdt/crypto.go, and `PubKeyToStr` and `StrToPubKey` of crdt/signature.go. A nil key is `none`.
use p2p_verse.Common.{
  ◌≡◌, ◌≢◌, Option, none, some, [], Bytes, invalid_pub_key, no_public_key, Result, ok, err, ◌>>=◌,
  >>=-eq-ok, ok_injective, subst, ◌==◌, if◌then◌else◌, ap, sym, Result-cases, inl, inr, ℕ, Lacks,
}
use p2p_verse.Std.Text.{IsPart, slash}
use p2p_verse.External.Crypto.{External, CryptoFuncs, PubKey, IsLawful, identity_code}

-- `InitCryptoFuncs`
pub init_crypto_funcs : CryptoFuncs → External → External
init_crypto_funcs funcs x = record x { funcs = funcs }

module _ (x : External) where
  -- `marshalPubKey` refuses a nil key.
  unfoldable pub id_from_pub_key : Option PubKey → Result Bytes
  id_from_pub_key none = err invalid_pub_key
  id_from_pub_key (some key) = do b ← x.funcs.marshal_pub_key key; ok (x.multihash_sum b)

  from_multihash : ℕ × Bytes → Result PubKey
  from_multihash (code, digest) =
      if code == identity_code then x.funcs.unmarshal_pub_key digest else err no_public_key

  unfoldable pub extract_pub_key : Bytes → Result PubKey
  unfolding from_multihash
  extract_pub_key pid = x.multihash_decode pid >>= from_multihash

  abbrev pretty_or_nil : Result Bytes → Bytes
  pretty_or_nil (ok id) = x.pretty id
  pretty_or_nil (err e) = []

  unfoldable pub pub_key_to_str : Option PubKey → Bytes
  unfolding id_from_pub_key
  pub_key_to_str key = pretty_or_nil (id_from_pub_key key)

  unfoldable pub str_to_pub_key : Bytes → Result PubKey
  unfolding extract_pub_key
  str_to_pub_key s = do id ← x.peer_decode s; extract_pub_key id

  module _ (lawful : IsLawful x) where
    extract-id :
        (key : PubKey) (id : Bytes)
        → id_from_pub_key (some key) ≡ ok id
        → extract_pub_key id ≡ ok key
    unfolding id_from_pub_key extract_pub_key
    extract-id key id h =
        let (b, made, wrote) = >>=-eq-ok (x.funcs.marshal_pub_key key) _ h in
        rw (ok_injective _ id (sym wrote), lawful.multihash_decode-sum b)
          (unfold from_multihash in lawful.unmarshal-marshal key b made)

    decode-id :
        (key : PubKey) (id : Bytes)
        → id_from_pub_key (some key) ≡ ok id
        → x.peer_decode (x.pretty id) ≡ ok id
    unfolding id_from_pub_key
    decode-id key id h =
        let (b, made, wrote) = >>=-eq-ok (x.funcs.marshal_pub_key key) _ h in
        subst (λ i. x.peer_decode (x.pretty i) ≡ ok i) (ok_injective id _ wrote)
          (lawful.peer_decode-pretty b)

    id-IsPart :
        (key : Option PubKey) (id : Bytes)
        → id_from_pub_key key ≡ ok id
        → IsPart (x.pretty id) × Lacks slash (x.pretty id)
    unfolding id_from_pub_key
    id-IsPart none id h = cc
    id-IsPart (some key) id h =
        let (b, made, wrote) = >>=-eq-ok (x.funcs.marshal_pub_key key) _ h in
        subst (λ i. IsPart (x.pretty i) × Lacks slash (x.pretty i)) (ok_injective id _ wrote)
          (lawful.pretty-IsPart b, lawful.pretty-Lacks b)

    -- The name of a public key is read back as the key.
    pub str_to_pub_key-pub_key_to_str :
        (key : PubKey)
        → pub_key_to_str (some key) ≢ []
        → str_to_pub_key (pub_key_to_str (some key)) ≡ ok key
    unfolding str_to_pub_key pub_key_to_str
    str_to_pub_key-pub_key_to_str key named = elim (Result-cases (id_from_pub_key (some key))) [
      | inl (id, e) ↦ rw (e, decode-id key id e) (extract-id key id e)
      | inr (e', e) ↦ absurd (named (ap pretty_or_nil e))
    ]

    -- What names a key is a clean part of a path, with no slash in it.
    pub pub_key_to_str-IsPart :
        (key : Option PubKey)
        → pub_key_to_str key ≢ []
        → IsPart (pub_key_to_str key) × Lacks slash (pub_key_to_str key)
    unfolding pub_key_to_str
    pub_key_to_str-IsPart key named = elim (Result-cases (id_from_pub_key key)) [
      | inl (id, e) ↦ rw e (id-IsPart key id e)
      | inr (e', e) ↦ absurd (named (ap pretty_or_nil e))
    ]
