-- ===== src/Crdt/Access/Creation.antt =====
-- What creation fixes: an access store grants nothing once it is made, and its address names it.
use p2p_verse.Common.{
  ◌≡◌, ◌≢◌, refl, inl, inr, Option, none, some, List, [], ◌∷◌, Bytes, Error, no_valid_priv_key,
  Result, ok, err, >>=-eq-ok, Result-cases, Option-cases, ok_injective, sym, ap, ◌∙◌, subst,
}
use p2p_verse.Std.Time.RoundTrip
use p2p_verse.External.Crypto
use p2p_verse.External.Crypto.{External, PrivKey, PubKey}
use p2p_verse.External.Datastore.{Datastore}
use p2p_verse.Crdt.Address.{Parsed, make_address, parse_address, parse_address-make_address}
use p2p_verse.Crdt.Crypto.{pub_key_to_str}
use p2p_verse.Crdt.Access.{
  AccessBase, AccessStore, access_key, grant, grant_as, put_granted, grant_all, new_access_store,
  readdress, address,
}

module _ (x : External) (d : Datastore) (b : AccessBase) where
  err-ne-ok :
      (e : Error) (ac : AccessStore b) → ◌≡◌ {A = Result (AccessStore b)} (err e) (ok ac) → ⊥
  err-ne-ok e ac h = cc

  grant-none :
      (val : Bytes) (s : AccessStore b) (access : Bytes)
      → s.priv ≡ none
      → grant x d b val s access ≡ (s, some no_valid_priv_key)
  unfolding grant
  grant-none val s access h = ap (λ p. grant_as x d b p val s access) h

  put_granted_key :
      (s : AccessStore b) (k : Bytes) (m : Result Bytes) → (put_granted x d b s k m).0.key ≡ s.key
  unfolding put_granted
  put_granted_key s [] m = refl
  put_granted_key s (c ∷ k) (err e) = refl
  put_granted_key s (c ∷ k) (ok m) = refl

  grant_as_key :
      (priv : Option PrivKey) (val : Bytes) (s : AccessStore b) (access : Bytes)
      → (grant_as x d b priv val s access).0.key ≡ s.key
  unfolding grant_as
  grant_as_key none val s access = refl
  grant_as_key (some priv) val s access = elim (Result-cases (x.sign priv val)) [
    | inr (e', e) ↦ rw (e, grant_as)
    | inl (sign, e) ↦
        elim (Result-cases (x.signature_data.marshal (record { value = val; sign = sign }))) [
          | inr (e2', e2) ↦ rw (e, e2, grant_as)
          | inl (msd, e2) ↦
              rw (e, e2, grant_as) (put_granted_key s (access_key x s.key access) (ok msd))
        ]
  ]

  grant_all_step :
      (s : AccessStore b) (access val : Bytes) (rest : List (Bytes × Bytes))
      → (grant x d b val s access).1 ≡ none
      → grant_all x d b s ((access, val) ∷ rest) ≡ grant_all x d b (grant x d b val s access).0 rest
  unfolding grant_all
  grant_all_step s access val rest e = rw (e, grant_all)

  grant_all_stop :
      (s : AccessStore b) (access val : Bytes) (rest : List (Bytes × Bytes)) (e : Error)
      → (grant x d b val s access).1 ≡ some e
      → grant_all x d b s ((access, val) ∷ rest) ≡ err e
  unfolding grant_all
  grant_all_stop s access val rest e' e = rw (e, grant_all)

  grant_all_key :
      (s ac : AccessStore b) (accesses : List (Bytes × Bytes))
      → grant_all x d b s accesses ≡ ok ac
      → ac.key ≡ s.key
  unfolding grant_all
  grant_all_key s ac [] h = ap (λ (t : AccessStore b). t.key) (sym (ok_injective _ _ h))
  grant_all_key s ac ((access, val) ∷ rest) h = elim (Option-cases (grant x d b val s access).1) [
    | inl e ↦
        grant_all_key (grant x d b val s access).0 ac rest
          (sym (grant_all_step s access val rest e) ∙ h)
        ∙ unfold grant in grant_as_key s.priv val s access
    | inr (e', e) ↦ absurd (err-ne-ok e' ac (sym (grant_all_stop s access val rest e' e) ∙ h))
  ]

  -- Once an access store is made it can grant nothing more: the private key is gone, every `Grant`
  -- is refused, and its public key is the one that it was made with.
  pub new_access_store_sealed :
      (base : b.State) (priv : Option PrivKey) (key : Option PubKey)
      (accesses : List (Bytes × Bytes)) (ac : AccessStore b) (val access : Bytes)
      → new_access_store x d b base (priv, key) accesses ≡ ok ac
      → (grant x d b val ac access ≡ (ac, some no_valid_priv_key)) × (ac.key ≡ key)
  unfolding new_access_store
  new_access_store_sealed base priv key accesses ac val access h =
      let (made, granted, sealed) = >>=-eq-ok (grant_all x d b _ accesses) _ h in
      let same = ok_injective _ _ sealed in
      let gone : ac.priv ≡ none = ap (λ (t : AccessStore b). t.priv) (sym same) in
      (
        grant-none val ac access gone,
        ap (λ (t : AccessStore b). t.key) (sym same) ∙ grant_all_key _ made accesses granted,
      )

  -- The private key is dropped.
  pub new_access_store-priv :
      (base : b.State) (priv : Option PrivKey) (key : Option PubKey)
      (accesses : List (Bytes × Bytes)) (ac : AccessStore b)
      → new_access_store x d b base (priv, key) accesses ≡ ok ac
      → ac.priv ≡ none
  unfolding new_access_store
  new_access_store-priv base priv key accesses ac h =
      let (made, granted, sealed) = >>=-eq-ok (grant_all x d b _ accesses) _ h in
      ap (λ (t : AccessStore b). t.priv) (sym (ok_injective _ _ sealed))

  -- The address of an access store is read back as the address of the wrapped store with the
  -- identity of the master key, if an address could be made.
  pub parse_address-address :
      (lawful : Crypto.IsLawful x) (s : AccessStore b) (a : Parsed)
      → parse_address x (b.address s.base) ≡ ok a
      → RoundTrip.IsValid a.time_limit
      → address x d b s ≢ []
      → parse_address x (address x d b s) ≡ ok (record a { pid = pub_key_to_str x s.key })
  unfolding address
  parse_address-address lawful s a read valid made =
      let shown : address x d b s
          ≡ make_address x a.name (pub_key_to_str x s.key) a.salt (a.time_limit ∷ []) =
        ap (readdress x d b s) read in
      rw shown (
        parse_address-make_address x lawful a.name (pub_key_to_str x s.key) a.salt
          (a.time_limit ∷ []) valid (subst (λ k. k ≢ []) shown made))
