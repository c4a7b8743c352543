-- ===== src/Discovery/Candidates.antt =====
-- How many of the peers that were found are looked at.
use p2p_verse.Common.{
  ℕ, zero, suc, ◌+◌, ◌≡◌, ◌≢◌, refl, ◌⊎◌, true, false, List, [], ◌∷◌, arith, Bool-cases, inl, inr,
  length, ltb, bytes_eq, bytes_eq_iff, sym, subst,
}
use p2p_verse.External.Addresses.{Addresses, AddrInfo}
use p2p_verse.External.Network.{Network}
use p2p_verse.Discovery.{max_success, is_candidate, meet_one, meet_peers}

module _ {a : Addresses} {S : Type 0} (n : Network a S) where
  -- From one state to the other, of the peers in turn so many are met as there are places: the host
  -- itself and a peer with no address are passed over; one that is connected takes a place; and so
  -- does an attempt to connect to one that is not, whether or not it fails.
  pub data Meets : ℕ → S → List (AddrInfo a) → S → Type 0 where
    full : {s : S} {peers : List (AddrInfo a)} → Meets 0 s peers s
    over : {k : ℕ} {s : S} → Meets k s [] s
    passes :
        {k : ℕ} {s t : S} {peer : AddrInfo a} {peers : List (AddrInfo a)}
        → (peer.id ≡ n.self) ⊎ (peer.addrs ≡ [])
        → Meets (suc k) s peers t
        → Meets (suc k) s (peer ∷ peers) t
    counts :
        {k : ℕ} {s t : S} {peer : AddrInfo a} {peers : List (AddrInfo a)}
        → peer.id ≢ n.self
        → peer.addrs ≢ []
        → n.is_connected s peer.id ≡ true
        → Meets k s peers t
        → Meets (suc k) s (peer ∷ peers) t
    connects :
        {k : ℕ} {s t : S} {peer : AddrInfo a} {peers : List (AddrInfo a)}
        → peer.id ≢ n.self
        → peer.addrs ≢ []
        → n.is_connected s peer.id ≡ false
        → Meets k (n.connect s peer).0 peers t
        → Meets (suc k) s (peer ∷ peers) t

  addrs_ne : (peer : AddrInfo a) → ltb 0 (length peer.addrs) ≡ true → peer.addrs ≢ []
  addrs_ne peer h e = absurd (ground (arith, e))

  addrs_nil : (peer : AddrInfo a) → ltb 0 (length peer.addrs) ≡ false → peer.addrs ≡ []
  addrs_nil peer h = go peer.addrs h
    where
      go : (xs : List a.Multiaddr) → ltb 0 (length xs) ≡ false → xs ≡ []
      go [] h = refl
      go (x ∷ xs) h = absurd (ground arith)

  -- Why a peer is no candidate, and what a candidate is.
  is_candidate-false :
      (peer : AddrInfo a) → is_candidate n peer ≡ false → (peer.id ≡ n.self) ⊎ (peer.addrs ≡ [])
  unfolding is_candidate
  is_candidate-false peer h = elim (Bool-cases (bytes_eq peer.id n.self)) [
    | inl y ↦ inl ((bytes_eq_iff _ _).0 y)
    | inr no' ↦ inr (addrs_nil peer (ground arith))
  ]

  is_candidate-true :
      (peer : AddrInfo a)
      → is_candidate n peer ≡ true
      → (peer.id ≢ n.self) × (ltb 0 (length peer.addrs) ≡ true)
  unfolding is_candidate
  is_candidate-true peer h =
      (λ e. absurd (ground (arith, bytes_eq_iff peer.id n.self)), ground arith)

  meet_peers-Meets :
      (k left : ℕ) (s : S) (peers : List (AddrInfo a))
      → k + left ≡ max_success
      → Meets left s peers (meet_peers n k s peers)
  unfolding meet_peers meet_one
  meet_peers-Meets k left s [] h = over
  meet_peers-Meets k zero s (p ∷ ps) h = subst (Meets 0 s (p ∷ ps)) (sym (ground arith)) Meets.full
  meet_peers-Meets k (suc left) s (p ∷ ps) h = elim (Bool-cases (is_candidate n p)) [
    | inl yes' ↦
        let (other, some_addr) = is_candidate-true p yes' in
        let named = addrs_ne p some_addr in
        elim (Bool-cases (n.is_connected s p.id)) [
          | inl there ↦ subst (Meets (suc left) s (p ∷ ps)) (sym (ground arith)) (
              Meets.counts other named there
                (meet_peers-Meets (suc k) left s ps (omega (arith, h))))
          | inr away ↦ subst (Meets (suc left) s (p ∷ ps)) (sym (ground arith)) (
              Meets.connects other named away
                (meet_peers-Meets (suc k) left (n.connect s p).0 ps (omega (arith, h))))
        ]
    | inr no' ↦
        subst (Meets (suc left) s (p ∷ ps)) (sym (ground arith))
          (Meets.passes (is_candidate-false p no') (meet_peers-Meets k (suc left) s ps h))
  ]

  -- Of the peers that were found the first five that are not the host itself and have an address
  -- are met, in their order, and no other: each that is not connected then is connected to, once,
  -- and a connection that fails uses up a place too.
  pub meet_peers_lem :
      (s : S) (peers : List (AddrInfo a)) → Meets 5 s peers (meet_peers n 0 s peers)
  meet_peers_lem s peers = meet_peers-Meets 0 5 s peers (omega arith)
