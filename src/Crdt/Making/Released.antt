-- ===== src/Crdt/Making/Released.antt =====
-- A store that could not be made leaves nothing open.
use p2p_verse.Common.{
  ℕ, ◌≡◌, refl, ◌≢◌, none, some, List, ◌++◌, Bytes, Error, length, map, get_elem?, get_elem?-length,
  get_elem?-set_elem, ap, sym, ◌∙◌, Option-cases, inl, inr,
}
use p2p_verse.Common.Action.{Ending, returns, fails, bind-returns}
use mathlib.Core.List.{reverse}
use p2p_verse.External.Addresses.{Addresses}
use p2p_verse.External.Crypto.{External}
use p2p_verse.External.Datastore.{Datastore}
use p2p_verse.External.Setup.{Setup}
use p2p_verse.Crdt.Options.{StoreOpts}
use p2p_verse.Crdt.Opening.{CrdtVerse, Handles, World, Resource, opened, closed, init_crdt, close}
use p2p_verse.Crdt.Opening.Mirrored.{close-init_crdt}
use p2p_verse.Crdt.Verse.{mode_of, Stores, new_store, put_first}
use p2p_verse.Crdt.Making.{Sources, AnyStore, Shop, plain}
use p2p_verse.Crdt.Making.Instance.{any_stores, new_of, shelve, put_at, close_at}

returns-ne-fails : {T : Type 0} (y : T) (e : Error) → ◌≢◌ {A = Ending T} (returns y) (fails e)
returns-ne-fails y e h = cc

module _ {W S : Type 0} (o : Stores W S) where
  put_first-returns :
      (s : S) (w : W)
      → (o.init_put s w).1 ≡ none
      → put_first o s w ≡ ((o.init_put s w).0, returns s)
  unfolding put_first
  put_first-returns s w k = rw (k, put_first) refl

  put_first-closes :
      (s : S) (w : W) (y : Error)
      → (o.init_put s w).1 ≡ some y
      → put_first o s w ≡ (o.close s (o.init_put s w).0, fails y)
  unfolding put_first
  put_first-closes s w y k = rw (k, put_first) refl

  -- A first Put that fails is followed by closing the store.
  put_first-fails :
      (s : S) (w u : W) (e : Error)
      → put_first o s w ≡ (u, fails e)
      → u ≡ o.close s (o.init_put s w).0
  put_first-fails s w u e h = elim (Option-cases (o.init_put s w).1) [
    | inl k ↦ absurd (returns-ne-fails s e (ap (λ r. r.1) (sym (put_first-returns s w k) ∙ h)))
    | inr (y, k) ↦ ap (λ r. r.0) (sym h ∙ put_first-closes s w y k)
  ]

module _ (x : External) {a : Addresses} (g : Setup a) (d : Datastore) (c : Sources g d)
    (cv : CrdtVerse a) where
  -- The store at a place holds these handles open.
  abbrev HasHandles : ℕ → Handles g → Shop g d → Type 0
  HasHandles i h w = (st : AnyStore d) × (get_elem? w.stores i ≡ some (h, st))

  put_at-HasHandles :
      (i : ℕ) (h : Handles g) (w : Shop g d)
      → HasHandles i h w
      → HasHandles i h (put_at x g d c i (get_elem? w.stores i) w).0
        × ((put_at x g d c i (get_elem? w.stores i) w).0.world ≡ w.world)
  unfolding put_at
  put_at-HasHandles i h w (st, e) = rw e ((_, get_elem?-set_elem w.stores i (h, st) _ e), refl)

  close_at-world :
      (i : ℕ) (h : Handles g) (w : Shop g d)
      → HasHandles i h w
      → (close_at x g d c (get_elem? w.stores i) w).world ≡ close g h w.world
  unfolding close_at
  close_at-world i h w (st, e) = rw e refl

  -- If `initCRDT` opens a store and `newStore` fails all the same, all that was opened has been
  -- closed, in the reverse order: the log has grown by just that.
  pub new_store-closes :
      (name mode : Bytes) (opt : StoreOpts) (w u : Shop g d) (v : World g) (h : Handles g)
      (e : Error)
      → init_crdt g cv name w.world ≡ (v, returns h)
      → new_store (any_stores x g d c cv) name mode opt w ≡ (u, fails e)
      → (l : List (Resource g)) × (u.world.log
          ≡ reverse (map closed l) ++ (map opened l ++ w.world.log))
  unfolding new_store new_of shelve
  new_store-closes name mode opt w u v h e made failed =
      let o = any_stores x g d c cv in
      let shop = shelve x g d c (mode_of mode) name opt (returns h) v w in
      let begun : new_of x g d c cv (mode_of mode) name opt w ≡ shop =
        ap (λ r. shelve x g d c (mode_of mode) name opt r.1 r.0 w) made in
      let ended =
        put_first-fails o (plain (length w.stores)) shop.0 u e
          (sym (bind-returns _ (put_first o) w shop.0 (plain (length w.stores)) begun) ∙ failed) in
      let (there, same) =
        put_at-HasHandles (length w.stores) h shop.0 (_, get_elem?-length w.stores _) in
      let (l, opening, closing) = close-init_crdt g cv name w.world v h made in
      (
        l,
        ap (λ (t : Shop g d). t.world.log) ended
            ∙ ap (λ (z : World g). z.log) (close_at-world (length w.stores) h _ there)
            ∙ ap (λ z. (close g h z).log) same
            ∙ closing
            ∙ ap (λ m. reverse (map closed l) ++ m) opening,
      )
