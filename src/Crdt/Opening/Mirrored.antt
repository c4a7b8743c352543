-- ===== src/Crdt/Opening/Mirrored.antt =====
-- Closing a store undoes opening it.
use p2p_verse.Common.{
  ◌≡◌, refl, Option, none, some, List, [], ◌∷◌, ◌++◌, Bytes, Result, ok, sym, ap, ◌∙◌, subst, map,
}
use p2p_verse.Common.Action.{
  returns_injective, Ending, returns, fails, panics, Action, ◌>>=◌, returns-bind,
}
use mathlib.Core.List.{reverse}
use p2p_verse.External.Addresses.{Addresses}
use p2p_verse.External.Setup.{Setup}
use p2p_verse.Crdt.Opening.{
  CrdtVerse, Resource, host, dht, datastore, crdt, opened, closed, World, Handles, calls, notes,
  setup_store, init_crdt, or_cancel, cancel, close, remove,
}

module _ {a : Addresses} (g : Setup a) where
  -- Where the action returns, the predicate holds of the state and of what is returned.
  pub record Returns {T : Type 0} (f : Action (World g) T) (w : World g) (Q : World g → T → Type 0)
      : Type 0 where
    pub holds : (u : World g) (x : T) → f w ≡ (u, returns x) → Q u x

  pub Returns-bind :
      {T U : Type 0} {f : Action (World g) T} {h : T → Action (World g) U} {w : World g}
      {Q : World g → U → Type 0}
      → Returns f w (λ v x. Returns (h x) v Q)
      → Returns (f >>= h) w Q
  Returns-bind {f} {h} {w} k = record {
    holds = λ u y e.
        let (x, v, first, rest) = returns-bind f h w u y e in (k.holds v x first).holds u y rest;
  }

  pub Returns-calls :
      {T : Type 0} {w : World g} {Q : World g → T → Type 0} (f : g.State → g.State × Result T)
      → ((u : World g) (x : T) → u.log ≡ w.log → Q u x)
      → Returns (calls g f) w Q
  Returns-calls f k = record { holds = λ u x e. k u x (ap (λ r. r.0.log) (sym e)) }

  pub Returns-opened :
      {w : World g} {Q : World g → Unit {0} → Type 0} (r : Resource g)
      → ((u : World g) → u.log ≡ opened r ∷ w.log → Q u tt)
      → Returns (notes g (opened r)) w Q
  Returns-opened r k = record { holds = λ u x e. k u (ap (λ q. q.0.log) (sym e)) }

  pub Returns-end :
      {T : Type 0} {w : World g} {Q : World g → T → Type 0} (x : T)
      → ((u : World g) (y : T) → u.log ≡ w.log → x ≡ y → Q u y)
      → Returns (λ u. (u, returns x)) w Q
  Returns-end x k = record {
    holds = λ u y e. k u y (ap (λ q. q.0.log) (sym e)) (returns_injective x y (ap (λ q. q.1) e));
  }

  setup_store-log :
      (cv : CrdtVerse a) (ctx : g.Context) (h : g.Host) (name : Bytes) (w : World g)
      → Returns
          (setup_store g cv ctx h name)
          w
          (λ u x. u.log ≡ opened (crdt x.1) ∷ opened (datastore x.0) ∷ opened (dht h) ∷ w.log)
  unfolding setup_store
  setup_store-log cv ctx h name w = Returns-bind (
      Returns-calls _ (λ w1 _ e1. Returns-bind (
        Returns-opened _ (λ w2 e2. Returns-bind (
          Returns-calls _ (λ w3 store e3. Returns-bind (
            Returns-opened _ (λ w4 e4. Returns-bind (
              Returns-calls _ (λ w5 ipfs e5. Returns-bind (
                Returns-calls _ (λ w6 gossip e6. Returns-bind (
                  Returns-calls _ (λ w7 _ e7. Returns-bind (
                    Returns-calls _ (λ w8 psbc e8. Returns-bind (
                      Returns-calls _ (λ w9 dt e9. Returns-bind (
                        Returns-opened _ (λ w10 e10. Returns-bind (
                          Returns-calls _ (λ w11 _ e11.
                            Returns-end (store, dt)
                              (λ w12 x e12 same.
                                subst
                                  (λ p.
                                    w12.log
                                    ≡ opened (crdt p.1)
                                      ∷ opened (datastore p.0)
                                      ∷ opened (dht h)
                                      ∷ w.log)
                                  same cc)))))))))))))))))))))))

  pub Returns-or_cancel :
      {T : Type 0} (ctx : g.Context) (f : Action (World g) T) (w : World g)
      (Q : World g → T → Type 0)
      → Returns f w Q
      → Returns (or_cancel g ctx f) w Q
  unfolding or_cancel
  Returns-or_cancel {T} ctx f w Q k = record { holds = λ u x e. go (f w) refl u x e }
    where
      go :
          (r : World g × Ending T)
          → f w ≡ r
          → (u : World g) (x : T) → or_cancel g ctx (λ _. r) w ≡ (u, returns x)
          → Q u x
      go (v, returns y) first u x e = k.holds u x (first ∙ e)
      go (v, fails y) first u x e = cc
      go (v, panics) first u x e = cc

  init_crdt-log :
      (cv : CrdtVerse a) (name : Bytes) (w : World g)
      → Returns (init_crdt g cv name) w (λ u s.
        u.log
        ≡ opened (crdt s.dt)
          ∷ opened (datastore s.d_store)
          ∷ opened (dht s.h)
          ∷ opened (host s.h)
          ∷ w.log)
  unfolding init_crdt
  init_crdt-log cv name w = Returns-bind (
      Returns-calls _ (λ w1 h e1. Returns-bind (
        Returns-opened _ (λ w2 e2. Returns-bind (
          Returns-calls _ (λ w3 _ e3. Returns-bind (
            Returns-calls (λ s. ((g.with_cancel s).0, ok (g.with_cancel s).1))
              (λ w4 ctx e4. Returns-bind (
                Returns-or_cancel ctx _ w4 _ (record {
                  holds = λ w5 sp e5.
                      let made = (setup_store-log cv ctx h name w4).holds w5 sp e5 in
                      Returns-end _ (λ w6 s e6 same.
                        subst
                          (λ s.
                            w6.log
                            ≡ opened (crdt s.dt)
                              ∷ opened (datastore s.d_store)
                              ∷ opened (dht s.h)
                              ∷ opened (host s.h)
                              ∷ w.log)
                          same cc);
                }))))))))))

  close-log : (s : Handles g) (w : World g) → (close g s w).log ≡ (cancel g s w).log
  unfolding close
  close-log s w = go s.directory (cancel g s w)
    where
      go : (dir : Option Bytes) (u : World g) → (remove g dir u).log ≡ u.log
      go none u = refl
      go (some dir) u = refl

  -- Closing a store that `initCRDT` has opened closes all that it opened, in the reverse order, and
  -- each once: the replicated datastore, then badger, then the DHT, then the host.
  pub close-init_crdt :
      (cv : CrdtVerse a) (name : Bytes) (w u : World g) (s : Handles g)
      → init_crdt g cv name w ≡ (u, returns s)
      → (l : List (Resource g)) × (u.log ≡ map opened l ++ w.log)
        × ((close g s u).log ≡ reverse (map closed l) ++ u.log)
  unfolding cancel
  close-init_crdt cv name w u s e = (
    crdt s.dt ∷ datastore s.d_store ∷ dht s.h ∷ host s.h ∷ [],
    (init_crdt-log cv name w).holds u s e,
    close-log s u,
  )
