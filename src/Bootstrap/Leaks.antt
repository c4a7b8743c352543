-- ===== src/Bootstrap/Leaks.antt =====
-- What a node that could not be made leaves open.
use p2p_verse.Common.{
  ◌≡◌, refl, ◌⊎◌, inl, inr, Option, none, some, List, [], ◌∷◌, Error, ok, sym, ap, ◌∙◌, arith,
}
use p2p_verse.Common.Action.{returns, fails, fails-bind, bind-returns}
use p2p_verse.External.Addresses.{Addresses, AddrInfo}
use p2p_verse.External.Setup.{Setup}
use p2p_verse.Discovery.{connect_bootstraps}
use p2p_verse.Crdt.Opening.{host, dht, opened, closed, World, calls}
use p2p_verse.Bootstrap.{settle, join, new_bootstrap}

module _ {a : Addresses} (g : Setup a) where
  settle-fails :
      (h : g.Host) (others : List (AddrInfo a)) (o : Option Error) (w u : World g) (e : Error)
      → settle g h others o w ≡ (u, fails e)
      → u.log ≡ closed (dht h) ∷ w.log
  unfolding settle
  settle-fails h others (some z) w u e k = sym (ap (λ p. p.0.log) k)
  settle-fails h others none w u e k = absurd (ground (arith, k))

  join-fails :
      (h : g.Host) (others : List (AddrInfo a)) (w u : World g) (e : Error)
      → join g h others w ≡ (u, fails e)
      → u.log ≡ closed (dht h) ∷ w.log
  unfolding join
  join-fails h [] w u e k = absurd (ground (arith, k))
  join-fails h (o ∷ os) w u e k =
      let (s, z) = connect_bootstraps (g.network h) w.outside (o ∷ os) in
      settle-fails h (o ∷ os) z (record w { outside = s }) u e k

  -- If the host is there and NewBootstrap fails all the same, the host has been opened and is not
  -- closed: the log has grown by its opening, and by no more than the DHT's opening and closing.
  pub new_bootstrap-fails :
      (others : List (AddrInfo a)) (w u : World g) (s : g.State) (h : g.Host) (e : Error)
      → g.generate_host w.outside ≡ (s, ok h)
      → new_bootstrap g others w ≡ (u, fails e)
      → (u.log ≡ opened (host h) ∷ w.log)
        ⊎ (u.log ≡ closed (dht h) ∷ opened (dht h) ∷ opened (host h) ∷ w.log)
  unfolding new_bootstrap
  new_bootstrap-fails others w u s h e made failed =
      let begun : calls g g.generate_host w ≡ (record w { outside = s }, returns h) =
        rw made refl in
      let noted = sym (bind-returns _ _ w _ h begun) ∙ failed in
      let rest = sym (bind-returns _ _ (record w { outside = s }) _ tt refl) ∙ noted in
      elim (fails-bind _ _ _ u e rest) [
        | inl k ↦ inl (sym (ap (λ p. p.0.log) k))
        | inr (_, v, k, l) ↦
            let same : v.log ≡ opened (host h) ∷ w.log = sym (ap (λ p. p.0.log) k) in
            let joined = sym (bind-returns _ _ v _ tt refl) ∙ l in
            inr (
              join-fails h others _ u e joined ∙ ap (λ t. closed (dht h) ∷ opened (dht h) ∷ t) same)
      ]
