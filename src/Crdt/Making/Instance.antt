-- ===== src/Crdt/Making/Instance.antt =====
-- The five stores as the interface that `NewStore` is written for: `New…Store`, `initPut`, `Sync`,
-- `autoSync`, `loadCheck`, `Cancel` and `Close` of a store at its place, and `loadAccessStore`
-- (crdt/access.go). An `accessStore` passes those methods on to the store that it wraps. The
-- goroutine of `autoSync` is in Crdt.Base.Running.
use p2p_verse.Common.{
  ℕ, Bool, true, false, Option, none, some, [], ◌∷◌, ◌++◌, Bytes, Error, invalid_base_store, Result,
  ok, err, ◌>>=◌, length, get_elem?, set_elem,
}
use p2p_verse.Common.Action.{Ending, returns, fails, panics}
use p2p_verse.Std.Time.{Time, zero_time}
use p2p_verse.External.Addresses.{Addresses}
use p2p_verse.External.Crypto.{External, PrivKey}
use p2p_verse.External.Datastore.{Datastore}
use p2p_verse.External.Setup.{Setup}
use p2p_verse.Crdt.Base
use p2p_verse.Crdt.Base.{BaseStore}
use p2p_verse.Crdt.Options.{StoreOpts, get_access_opts}
use p2p_verse.Crdt.Opening
use p2p_verse.Crdt.Opening.{CrdtVerse, Handles, World, init_crdt}
use p2p_verse.Crdt.Verse.{Mode, Stores}
use p2p_verse.Crdt.Access
use p2p_verse.Crdt.Access.{AccessBase}
use p2p_verse.Crdt.Access.Bases.{hash_base, signature_base, updatable_signature_base}
use p2p_verse.Crdt.Making.{
  Sources, AnyStore, log_store, updatable_store, hash_store, signature_store,
  updatable_signature_store, Pointer, plain, Shop, base_of, with_base, made, init_put, load_check,
}

module _ (x : External) {a : Addresses} (g : Setup a) (d : Datastore) (c : Sources g d) where
  -- The end of a constructor: the store that is made of what `initCRDT` has opened.
  unfoldable pub shelve :
      Mode → Bytes → StoreOpts → Ending (Handles g) → World g → Shop g d → Shop g d × Ending Pointer
  shelve m name opt (returns h) u w =
      let st : BaseStore d = record {
        name = name;
        time_limit = zero_time;
        in_time = true;
        dt = c.contents u.outside h.dt;
      } in
      (
        record {
          world = u;
          stores = w.stores ++ ((h, made x d (c.now u.outside) (c.fresh u.outside) m opt st) ∷ []);
        },
        returns (plain (length w.stores)),
      )
  shelve m name opt (fails e) u w = (record w { world = u }, fails e)
  shelve m name opt panics u w = (record w { world = u }, panics)

  -- `NewLogStore`, `NewHashStore` and so on
  unfoldable pub new_of :
      CrdtVerse a → Mode → Bytes → StoreOpts → Shop g d → Shop g d × Ending Pointer
  new_of cv m name opt w = let (u, e) = init_crdt g cv name w.world in shelve m name opt e u w

  unfoldable pub put_at : ℕ → Option (Handles g × AnyStore d) → Shop g d → Shop g d × Option Error
  put_at i none w = (w, none)
  put_at i (some (h, st)) w =
      let (st', e) = init_put x d (c.now w.world.outside) st in
      (record w { stores = set_elem i (h, st') w.stores }, e)

  unfoldable pub close_at : Option (Handles g × AnyStore d) → Shop g d → Shop g d
  close_at none w = w
  close_at (some (h, st)) w = record w { world = Opening.close g h w.world }

  unfoldable pub cancel_at : Option (Handles g × AnyStore d) → Shop g d → Shop g d
  cancel_at none w = w
  cancel_at (some (h, st)) w = record w { world = Opening.cancel g h w.world }

  unfoldable pub sync_at : ℕ → Option (Handles g × AnyStore d) → Shop g d → Shop g d × Option Error
  sync_at i none w = (w, none)
  sync_at i (some (h, st)) w =
      let (b, e) = Base.sync d (base_of d st) in
      (record w { stores = set_elem i (h, with_base d st b) w.stores }, e)

  unfoldable pub check_at : Option (Handles g × AnyStore d) → Bool
  check_at none = false
  check_at (some (h, st)) = load_check x d st

  -- `autoSync` before its goroutine, which a sync that fails prevents: the sync of a store in time.
  unfoldable pub auto_sync : ℕ → Shop g d → Shop g d
  auto_sync i w = (sync_at i (get_elem? w.stores i) w).0

  -- `loadAccessStore` of a store of one of the three kinds, with the private key of its options.
  unfoldable pub wrap_in : (b : AccessBase) → b.State → Option PrivKey → ℕ → Bytes → Result Pointer
  wrap_in b base priv i pid = do
    ac ← Access.load_access_store x d b base priv pid
    ok (record { place = i; master = some (ac.priv, ac.key) })

  -- `st.(IAccessBaseStore)` and `getAccessOpts`. Where the store signs, its constructor has filled
  -- the same options, so that the private key is the store's.
  unfoldable pub wrap : ℕ → AnyStore d → Bytes → StoreOpts → Time → Bytes → Result Pointer
  wrap i (log_store s) pid opt now fresh = err invalid_base_store
  wrap i (updatable_store s) pid opt now fresh = err invalid_base_store
  wrap i (hash_store s) pid opt now fresh =
      wrap_in (hash_base x d) s (get_access_opts x fresh (opt ∷ [])).1 i pid
  wrap i (signature_store s) pid opt now fresh = wrap_in (signature_base x d) s s.priv i pid
  wrap i (updatable_signature_store s) pid opt now fresh =
      wrap_in (updatable_signature_base x d now) s s.priv i pid

  unfoldable pub wrap_at :
      ℕ → Option (Handles g × AnyStore d) → Bytes → StoreOpts → Shop g d → Result Pointer
  wrap_at i none pid opt w = err invalid_base_store
  wrap_at i (some (h, st)) pid opt w =
      wrap i st pid opt (c.now w.world.outside) (c.fresh w.world.outside)

  abbrev pub any_stores : CrdtVerse a → Stores (Shop g d) Pointer
  any_stores cv = record {
    new_of = new_of cv;
    init_put = λ p w. put_at p.place (get_elem? w.stores p.place) w;
    close = λ p w. close_at (get_elem? w.stores p.place) w;
    cancel = λ p w. cancel_at (get_elem? w.stores p.place) w;
    sync = λ p w. sync_at p.place (get_elem? w.stores p.place) w;
    load_check = λ p w. (w, check_at (get_elem? w.stores p.place));
    auto_sync = λ p w. auto_sync p.place w;
    ticks = λ w. c.ticks w.world.outside;
    load_access_store = λ p pid opt w. (w, wrap_at p.place (get_elem? w.stores p.place) pid opt w);
  }
