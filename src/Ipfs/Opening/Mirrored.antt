-- ===== src/Ipfs/Opening/Mirrored.antt =====
-- Closing an IPFS store closes what opening it has opened.
use p2p_verse.Common.{
  ◌≡◌, refl, Bool, List, [], ◌∷◌, ◌++◌, Bytes, ok, map, Option-cases, inl, inr, subst,
}
use p2p_verse.Common.Action.{returns}
use mathlib.Core.List.{Perm, reverse}
use mathlib.Core.List.Perm
use p2p_verse.External.Addresses.{Addresses, AddrInfo}
use p2p_verse.External.Setup.{Setup}
use p2p_verse.Crdt.Opening.{Resource, host, dht, datastore, opened, closed, World, remove}
use p2p_verse.Crdt.Opening.Mirrored.{
  Returns, Returns-bind, Returns-calls, Returns-opened, Returns-end, Returns-or_cancel,
}
use p2p_verse.Ipfs.Opening.{
  IpfsHandles, new_ipfs_store, start, close, new_cid_getter, close_cid_getter,
}

module _ {a : Addresses} (g : Setup a) where
  start-log :
      (ctx : g.Context) (store : g.Badger) (h : g.Host) (bootstraps : List (AddrInfo a))
      (w : World g)
      → Returns g (start g ctx store h bootstraps) w (λ u x. u.log ≡ w.log)
  unfolding start
  start-log ctx store h bootstraps w =
      Returns-bind g (Returns-calls g _ (λ w1 ipfs e1. Returns-calls g _ (λ w2 x e2. cc)))

  new_ipfs_store-log :
      (dir : Bytes) (save : Bool) (bootstraps : List (AddrInfo a)) (w : World g)
      → Returns g (new_ipfs_store g dir save bootstraps) w (λ u s.
        u.log ≡ opened (dht s.h) ∷ opened (datastore s.d_store) ∷ opened (host s.h) ∷ w.log)
  unfolding new_ipfs_store
  new_ipfs_store-log dir save bootstraps w = Returns-bind g (
      Returns-calls g _ (λ w1 h e1. Returns-bind g (
        Returns-opened g _ (λ w2 e2. Returns-bind g (
          Returns-calls g _ (λ w3 _ e3. Returns-bind g (
            Returns-calls g _ (λ w4 store e4. Returns-bind g (
              Returns-opened g _ (λ w5 e5. Returns-bind g (
                Returns-calls g _ (λ w6 _ e6. Returns-bind g (
                  Returns-opened g _ (λ w7 e7. Returns-bind g (
                    Returns-calls g (λ s. ((g.with_cancel s).0, ok (g.with_cancel s).1))
                      (λ w8 ctx e8. Returns-bind g (
                        Returns-or_cancel g ctx _ w8 _ (record {
                          holds = λ w9 x e9.
                              let kept = (start-log ctx store h bootstraps w8).holds w9 x e9 in
                              Returns-end g _ (λ w10 s e10 same.
                                subst
                                  (λ s.
                                    w10.log
                                    ≡ opened (dht s.h)
                                      ∷ opened (datastore s.d_store)
                                      ∷ opened (host s.h)
                                      ∷ w.log)
                                  same cc);
                        }))))))))))))))))))

  close-log :
      (s : IpfsHandles g) (w : World g)
      → (close g s w).log
        ≡ closed (host s.h) ∷ closed (dht s.h) ∷ closed (datastore s.d_store) ∷ w.log
  unfolding close remove
  close-log s w = elim (Option-cases s.directory) [
    | inl e ↦ rw (e, remove) refl
    | inr (dir, e) ↦ rw (e, remove) refl
  ]

  -- Closing an IPFS store that `NewIpfsStore` has opened closes all that it opened, each once.
  pub close-new_ipfs_store :
      (dir : Bytes) (save : Bool) (bootstraps : List (AddrInfo a)) (w u : World g)
      (s : IpfsHandles g)
      → new_ipfs_store g dir save bootstraps w ≡ (u, returns s)
      → (l : List (Resource g)) × (r : List (Resource g)) × (u.log ≡ map opened l ++ w.log)
        × ((close g s u).log ≡ map closed r ++ u.log)
        × Perm r l
  close-new_ipfs_store dir save bootstraps w u s e = (
    dht s.h ∷ datastore s.d_store ∷ host s.h ∷ [],
    host s.h ∷ dht s.h ∷ datastore s.d_store ∷ [],
    (new_ipfs_store-log dir save bootstraps w).holds u s e,
    close-log s u,
    Perm.trans (Perm.swap _ _ _) (Perm.cons _ (Perm.swap _ _ _)),
  )

  new_cid_getter-log :
      (w : World g)
      → Returns g (new_cid_getter g) w (λ u h. u.log ≡ opened (dht h) ∷ opened (host h) ∷ w.log)
  unfolding new_cid_getter
  new_cid_getter-log w = Returns-bind g (
      Returns-calls g _ (λ w1 h e1. Returns-bind g (
        Returns-opened g _ (λ w2 e2. Returns-bind g (
          Returns-calls g _ (λ w3 _ e3. Returns-bind g (
            Returns-opened g _ (λ w4 e4. Returns-bind g (
              Returns-calls g (λ s. ((g.in_memory_datastore s).0, ok (g.in_memory_datastore s).1))
                (λ w5 store e5. Returns-bind g (
                  Returns-calls g _ (λ w6 ipfs e6. Returns-end g h (λ w7 k e7 same.
                    subst (λ k. w7.log ≡ opened (dht k) ∷ opened (host k) ∷ w.log) same
                      cc)))))))))))))

  -- Closing a CID getter that `NewCidGetter` has opened closes its DHT and its host, in the reverse
  -- order of their opening.
  pub close-new_cid_getter :
      (w u : World g) (h : g.Host)
      → new_cid_getter g w ≡ (u, returns h)
      → (l : List (Resource g)) × (u.log ≡ map opened l ++ w.log)
        × ((close_cid_getter g h u).log ≡ reverse (map closed l) ++ u.log)
  unfolding close_cid_getter
  close-new_cid_getter w u h e = (dht h ∷ host h ∷ [], (new_cid_getter-log w).holds u h e, refl)
