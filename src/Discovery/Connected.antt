-- ===== src/Discovery/Connected.antt =====
-- When connecting to the bootstrap nodes succeeds.
use p2p_verse.Common.{
  ◌≡◌, ◌≢◌, refl, ◌↔◌, ◌⊎◌, inl, inr, Bool, true, false, ◌||◌, none, some, List, [], ◌∷◌, arith,
  Bytes, bytes_eq_refl, if◌then◌else◌, In, Bool-cases, sym, ap, false≢true, no_bootstraps,
}
use p2p_verse.External.Addresses.{Addresses, AddrInfo}
use p2p_verse.External.Network.{Network, IsLawful}
use p2p_verse.Discovery.{greet, greet_all, connect_bootstraps}

or_false : (x y : Bool) → (x || y) ≡ false → (x ≡ false) × (y ≡ false)
or_false true y h = absurd (false≢true (sym h))
or_false false y h = (refl, h)

none_if : (b : Bool) → (if b then none else some no_bootstraps) ≡ none → b ≡ true
none_if true h = refl
none_if false h = cc

module _ {a : Addresses} {S : Type 0} (n : Network a S) (lawful : IsLawful n) where
  greet_keeps :
      (s : S) (o : AddrInfo a) (id : Bytes)
      → n.is_connected s id ≡ true
      → n.is_connected (greet n s o).0 id ≡ true
  unfolding greet
  greet_keeps s o id h = ground (arith, lawful.connected-connect s o id)

  greet_found :
      (s : S) (o : AddrInfo a) → (greet n s o).1 ≡ true → n.is_connected (greet n s o).0 o.id ≡ true
  unfolding greet
  greet_found s o h = ground (arith, lawful.connected-connect s o o.id, bytes_eq_refl o.id)

  -- A connection that a round makes is to the node of the round, and counted.
  greet_new :
      (s : S) (o : AddrInfo a) (id : Bytes)
      → n.is_connected (greet n s o).0 id ≡ true
      → (greet n s o).1 ≡ false
      → n.is_connected s id ≡ true
  unfolding greet
  greet_new s o id h k = ground (arith, lawful.connected-connect s o id)

  greet_known : (s : S) (o : AddrInfo a) → n.is_connected s o.id ≡ true → (greet n s o).1 ≡ true
  unfolding greet
  greet_known s o h = ground arith

  greet_all_keeps :
      (s : S) (b : Bool) (os : List (AddrInfo a)) (id : Bytes)
      → n.is_connected s id ≡ true
      → n.is_connected (greet_all n s b os).0 id ≡ true
  unfolding greet_all
  greet_all_keeps s b [] id h = h
  greet_all_keeps s b (o ∷ os) id h =
      greet_all_keeps (greet n s o).0 ((greet n s o).1 || b) os id (greet_keeps s o id h)

  greet_all_new :
      (s : S) (b : Bool) (os : List (AddrInfo a)) (id : Bytes)
      → n.is_connected (greet_all n s b os).0 id ≡ true
      → (greet_all n s b os).1 ≡ false
      → (b ≡ false) × (n.is_connected s id ≡ true)
  unfolding greet_all
  greet_all_new s b [] id h k = (k, h)
  greet_all_new s b (o ∷ os) id h k =
      let later = greet_all_new (greet n s o).0 ((greet n s o).1 || b) os id h k in
      let first = or_false (greet n s o).1 b later.0 in (first.1, greet_new s o id later.1 first.0)

  greet_all_found :
      (s : S) (b : Bool) (os : List (AddrInfo a))
      → (greet_all n s b os).1 ≡ true
      → (b ≡ true)
        ⊎ ((o : AddrInfo a) × In o os × (n.is_connected (greet_all n s b os).0 o.id ≡ true))
  unfolding greet_all
  greet_all_found s b [] h = inl h
  greet_all_found s b (o ∷ os) h =
      elim (greet_all_found (greet n s o).0 ((greet n s o).1 || b) os h) [
        | inl before ↦ elim (Bool-cases (greet n s o).1) [
          | inl found ↦ inr (
            o,
            inl refl,
            greet_all_keeps (greet n s o).0 ((greet n s o).1 || b) os o.id (greet_found s o found),
          )
          | inr missed ↦ inl (ground (arith, before, missed))
        ]
        | inr (p, m, c) ↦ inr (p, inr m, c)
      ]

  greet_all_connected :
      (s : S) (b : Bool) (os : List (AddrInfo a)) (o : AddrInfo a)
      → In o os
      → n.is_connected (greet_all n s b os).0 o.id ≡ true
      → (greet_all n s b os).1 ≢ false
  unfolding greet_all
  greet_all_connected s b [] p m h k = absurd m
  greet_all_connected s b (o ∷ os) p (inl e) h k =
      let later = greet_all_new (greet n s o).0 ((greet n s o).1 || b) os p.id h k in
      let first = or_false (greet n s o).1 b later.0 in
      let known =
        greet_known s o (rw (ap (λ x. x.id) (sym e)) (greet_new s o p.id later.1 first.0)) in
      cc
  greet_all_connected s b (o ∷ os) p (inr m) h k =
      greet_all_connected (greet n s o).0 ((greet n s o).1 || b) os p m h k

  -- Connecting to the bootstrap nodes succeeds exactly if the host is connected to one of them in
  -- the end, whether that connection was there before or is made now.
  pub connect_bootstraps_iff :
      (s : S) (others : List (AddrInfo a))
      → ((connect_bootstraps n s others).1 ≡ none) ↔ (
          (o : AddrInfo a) × In o others
          × (n.is_connected (connect_bootstraps n s others).0 o.id ≡ true))
  unfolding connect_bootstraps
  connect_bootstraps_iff s others = (
    λ h. elim (greet_all_found s false others (none_if _ h)) [
      | inl e ↦ absurd (false≢true e)
      | inr w ↦ w
    ],
    λ (o, m, c). elim (Bool-cases (greet_all n s false others).1) [
      | inl found ↦ ground (arith, found)
      | inr missed ↦ absurd (greet_all_connected s false others o m c missed)
    ],
  )
