-- ===== src/Discovery/Known.antt =====
-- The nodes that are found again among the connected peers.
use p2p_verse.Common.{
  ◌≡◌, ◌≢◌, refl, ◌⊎◌, inl, inr, true, Option, none, some, List, [], ◌∷◌, arith, Bytes, bytes_eq,
  bytes_eq_iff, In, Bool-cases, Option-cases, sym, ap, subst, ◌∙◌, if◌then◌else◌,
}
use p2p_verse.External.Addresses.{Addresses, AddrInfo}
use p2p_verse.Discovery.{Lookup, put_all, addr_info_slice_to_map, known_peers}

module _ (a : Addresses) where
  some_same : (x y : AddrInfo a) → Option.some x ≡ some y → x ≡ y
  some_same x y h = cc

  none-ne-some : (x : AddrInfo a) → ◌≢◌ {A = Option (AddrInfo a)} none (some x)
  none-ne-some x h = cc

  -- What the map finds was given, under that identity.
  put_all_sound :
      (m : Lookup a) (os : List (AddrInfo a)) (id : Bytes) (ai : AddrInfo a)
      → put_all a m os id ≡ some ai
      → (m id ≡ some ai) ⊎ (In ai os × (ai.id ≡ id))
  unfolding put_all
  put_all_sound m [] id ai h = inl h
  put_all_sound m (o ∷ os) id ai h =
      elim (put_all_sound (λ j. if bytes_eq j o.id then some o else m j) os id ai h) [
        | inr (there, same) ↦ inr (inr there, same)
        | inl here ↦ elim (Bool-cases (bytes_eq id o.id)) [
          | inr n ↦ inl (rw n at here)
          | inl y ↦
              let found : o ≡ ai = some_same o ai (rw y at here) in
              inr (
                inl (sym found),
                ap (λ (p : AddrInfo a). p.id) (sym found) ∙ sym ((bytes_eq_iff id o.id).0 y),
              )
        ]
      ]

  put_all_keeps :
      (m : Lookup a) (os : List (AddrInfo a)) (id : Bytes) → m id ≢ none → put_all a m os id ≢ none
  unfolding put_all
  put_all_keeps m [] id h = h
  put_all_keeps m (o ∷ os) id h =
      put_all_keeps (λ j. if bytes_eq j o.id then some o else m j) os id (ground (arith, h))

  put_all_complete :
      (m : Lookup a) (os : List (AddrInfo a)) (o : AddrInfo a)
      → In o os
      → put_all a m os o.id ≢ none
  unfolding put_all
  put_all_complete m [] o there = absurd there
  put_all_complete m (p ∷ os) o (inr there) =
      put_all_complete (λ j. if bytes_eq j p.id then some p else m j) os o there
  put_all_complete m (p ∷ os) o (inl same) =
      put_all_keeps (λ j. if bytes_eq j p.id then some p else m j) os o.id
        (rw (bytes_eq-same o p same) (λ h. none-ne-some p (sym h)))
    where
      bytes_eq-same : (o p : AddrInfo a) → o ≡ p → bytes_eq o.id p.id ≡ true
      bytes_eq-same o p e = (bytes_eq_iff o.id p.id).1 (ap (λ (q : AddrInfo a). q.id) e)

  -- The peers that are known are those that the map finds for a connected identity.
  known_peers_sound :
      (m : Lookup a) (ids : List Bytes) (ai : AddrInfo a)
      → In ai (known_peers a m ids)
      → (id : Bytes) × In id ids × (m id ≡ some ai)
  unfolding known_peers
  known_peers_sound m [] ai h = absurd h
  known_peers_sound m (id ∷ ids) ai h = elim (Option-cases (m id)) [
    | inl n ↦
        let (j, there, found) = known_peers_sound m ids ai (rw (n, known_peers) at h) in
        (j, inr there, found)
    | inr (o, y) ↦
        elim (rw (y, known_peers) at h)
          as (λ _. (id' : Bytes) × In id' (id ∷ ids) × (m id' ≡ some ai)) [
            | inl same ↦ (id, inl refl, rw same y)
            | inr later ↦
                let (j, there, found) = known_peers_sound m ids ai later in (j, inr there, found)
          ]
  ]

  known_peers_complete :
      (m : Lookup a) (ids : List Bytes) (id : Bytes) (ai : AddrInfo a)
      → In id ids
      → m id ≡ some ai
      → In ai (known_peers a m ids)
  unfolding known_peers
  known_peers_complete m [] id ai there found = absurd there
  known_peers_complete m (j ∷ ids) id ai (inl same) found =
      let here : m j ≡ some ai = subst (λ k. m k ≡ some ai) same found in
      rw (here, known_peers) (inl refl)
  known_peers_complete m (j ∷ ids) id ai (inr there) found =
      let later = known_peers_complete m ids id ai there found in
      elim (Option-cases (m j)) [
        | inl n ↦ rw (n, known_peers) later
        | inr (o, y) ↦ rw (y, known_peers) (inr later)
      ]

  -- The nodes of `slc` that are listed for the identities are nodes of `slc` of one of them, and
  -- every node of `slc` of one of them is listed, or another of that identity is.
  pub known_slice_sound :
      (slc : List (AddrInfo a)) (ids : List Bytes) (ai : AddrInfo a)
      → In ai (known_peers a (addr_info_slice_to_map a slc) ids)
      → In ai slc × In ai.id ids
  unfolding addr_info_slice_to_map
  known_slice_sound slc ids ai there =
      let (id, listed, found) = known_peers_sound _ ids ai there in
      elim (put_all_sound (λ j. none) slc id ai found) [
        | inl h ↦ absurd (none-ne-some ai h)
        | inr (given, same) ↦ (given, subst (λ j. In j ids) (sym same) listed)
      ]

  pub known_slice_complete :
      (slc : List (AddrInfo a)) (ids : List Bytes) (o : AddrInfo a)
      → In o slc
      → In o.id ids
      → (ai : AddrInfo a) × In ai (known_peers a (addr_info_slice_to_map a slc) ids)
        × (ai.id ≡ o.id)
  unfolding addr_info_slice_to_map
  known_slice_complete slc ids o given listed =
      elim (Option-cases (put_all a (λ j. none) slc o.id)) [
        | inl n ↦ absurd (put_all_complete (λ j. none) slc o given n)
        | inr (ai, found) ↦ elim (put_all_sound (λ j. none) slc o.id ai found) [
          | inl h ↦ absurd (none-ne-some ai h)
          | inr (there, same) ↦ (ai, known_peers_complete _ ids o.id ai listed found, same)
        ]
      ]
