-- ===== src/Bootstrap/Peers.antt =====
-- The peers of a node that was made.
use p2p_verse.Common.{◌≡◌, ◌≢◌, refl, true, Option, none, some, List, [], ◌∷◌, In, ap, subst, Error}
use p2p_verse.Common.Action.{Ending, returns, returns-bind, returns_injective}
use p2p_verse.External.Addresses.{Addresses, AddrInfo}
use p2p_verse.External.Network.{IsLawful}
use p2p_verse.External.Setup.{Setup}
use p2p_verse.Discovery.{connect_bootstraps, addr_info_slice_to_map, known_peers}
use p2p_verse.Discovery.Connected.{connect_bootstraps_iff}
use p2p_verse.Discovery.Known.{known_slice_sound, known_slice_complete}
use p2p_verse.Crdt.Opening.{World}
use p2p_verse.Bootstrap.{Node, settle, join, new_bootstrap}

returned :
    {W T : Type 0} (w u : W) (b c : T)
    → ◌≡◌ {A = W × Ending T} (w, returns b) (u, returns c)
    → (w ≡ u) × (b ≡ c)
returned w u b c k = (ap (λ p. p.0) k, returns_injective b c (ap (λ p. p.1) k))

module _ {a : Addresses} (g : Setup a) where
  -- The node is connected to some of the given ones, and lists those.
  pub record Lists (others : List (AddrInfo a)) (u : World g) (b : Node g) : Type 0 where
    pub some_peer : (o : AddrInfo a) × In o others × In o b.peers
    pub sound :
        (ai : AddrInfo a)
        → In ai b.peers
        → In ai others × ((g.network b.h).is_connected u.outside ai.id ≡ true)
    pub complete :
        (o : AddrInfo a)
        → In o others
        → (g.network b.h).is_connected u.outside o.id ≡ true
        → (ai : AddrInfo a) × In ai b.peers × (ai.id ≡ o.id)

  module _ (lawful : (h : g.Host) → IsLawful (g.network h)) where
    settle-Lists :
        (h : g.Host) (others : List (AddrInfo a)) (w : World g)
        → ((o : AddrInfo a) × In o others × ((g.network h).is_connected w.outside o.id ≡ true))
        → Lists others w (record {
          h = h;
          peers = known_peers a (addr_info_slice_to_map a others) ((g.network h).peers w.outside);
        })
    settle-Lists h others w (o, given, connected) =
        let ids = (g.network h).peers w.outside in
        let complete : (o : AddrInfo a)
            → In o others
            → (g.network h).is_connected w.outside o.id ≡ true
            → (ai : AddrInfo a) × In ai (known_peers a (addr_info_slice_to_map a others) ids)
              × (ai.id ≡ o.id) =
          λ o given c.
            known_slice_complete a others ids o given (((lawful h).peers_iff w.outside o.id).1 c) in
        let (ai, listed, same) = complete o given connected in
        record {
          some_peer = (ai, (known_slice_sound a others ids ai listed).0, listed);
          sound = λ ai there.
              let (known, among) = known_slice_sound a others ids ai there in
              (known, ((lawful h).peers_iff w.outside ai.id).0 among);
          complete = complete;
        }

    settled :
        (h : g.Host) (others : List (AddrInfo a)) (e : Option Error) (w u : World g) (b : Node g)
        → (e ≡ none
            → (o : AddrInfo a) × In o others × ((g.network h).is_connected w.outside o.id ≡ true))
        → settle g h others e w ≡ (u, returns b)
        → Lists others u b
    unfolding settle
    settled h others (some e) w u b found k = cc
    settled h others none w u b found k =
        let (same, node) = returned w u _ b k in
        subst (λ v. Lists others v b) same
          (subst (λ c. Lists others w c) node (settle-Lists h others w (found refl)))

    joined :
        (h : g.Host) (others : List (AddrInfo a)) (w u : World g) (b : Node g)
        → others ≢ []
        → join g h others w ≡ (u, returns b)
        → Lists others u b
    unfolding join
    joined h [] w u b some_other k = absurd (some_other refl)
    joined h (o ∷ os) w u b some_other k =
        let (s, e) = connect_bootstraps (g.network h) w.outside (o ∷ os) in
        settled h (o ∷ os) e (record w { outside = s }) u b
          (connect_bootstraps_iff (g.network h) (lawful h) w.outside (o ∷ os)).0 k

    -- A bootstrap node that is made with other nodes is connected to one of them at least, and its
    -- `ConnectedPeers` are given nodes that are connected, with one for each identity of a given
    -- node that is connected.
    pub new_bootstrap-Lists :
        (others : List (AddrInfo a)) (w u : World g) (b : Node g)
        → others ≢ []
        → new_bootstrap g others w ≡ (u, returns b)
        → Lists others u b
    unfolding new_bootstrap
    new_bootstrap-Lists others w u b some_other made =
        let (h, w1, _, rest1) = returns-bind _ _ w u b made in
        let (_, w2, _, rest2) = returns-bind _ _ w1 u b rest1 in
        let (_, w3, _, rest3) = returns-bind _ _ w2 u b rest2 in
        let (_, w4, _, rest4) = returns-bind _ _ w3 u b rest3 in
        joined h others w4 u b some_other rest4
