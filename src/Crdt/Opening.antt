-- ===== src/Crdt/Opening.antt =====
-- Opening and closing a store: `initCRDT`, `Cancel` and `Close` of crdt/crdtverse.go, `setupStore`
-- of crdt/setup.go. Beside the outside state there is a log of what was opened and closed.
pub mod Leaks
pub mod Mirrored
use p2p_verse.Common.{
  Bool, true, false, Option, none, some, List, [], ◌∷◌, Bytes, codes, Error, Result, ok, err,
  if◌then◌else◌,
}
use p2p_verse.Common.Action.{Ending, returns, fails, panics, of_result, unit_or, Action, ◌>>=◌}
use p2p_verse.External.Addresses.{Addresses, AddrInfo}
use p2p_verse.External.Setup.{Setup}
use p2p_verse.Discovery.{bootstrap}

-- `crdtVerse`, whose host generator is outside
pub record CrdtVerse (a : Addresses) : Type 0 where
  pub dir_path : Bytes
  pub save : Bool
  pub bootstraps : List (AddrInfo a)

module _ {a : Addresses} (g : Setup a) where
  -- What holds a resource until it is closed.
  pub data Resource : Type 0 where
    host : g.Host → Resource
    dht : g.Host → Resource
    datastore : g.Badger → Resource
    crdt : g.Crdt → Resource

  pub data Event : Type 0 where
    opened : Resource → Event
    closed : Resource → Event

  pub record World : Type 0 where
    pub outside : g.State
    pub log : List Event

  -- The part of `baseStore` that `initCRDT` sets and that `Cancel` and `Close` use; the DHT is that
  -- of the host, and `directory` is the directory that `dsCancel` removes, if any.
  pub record Handles : Type 0 where
    pub ctx : g.Context
    pub directory : Option Bytes
    pub h : g.Host
    pub d_store : g.Badger
    pub dt : g.Crdt

  abbrev pub calls : {T : Type 0} → (g.State → g.State × Result T) → Action World T
  calls f w = (record w { outside = (f w.outside).0 }, of_result (f w.outside).1)

  abbrev pub tries : (g.State → g.State × Option Error) → Action World (Unit {0})
  tries f = calls (λ s. ((f s).0, unit_or (f s).1))

  abbrev pub notes : Event → Action World (Unit {0})
  notes e w = (record w { log = e ∷ w.log }, returns tt)

  -- `setupStore`, with the two handles that the store keeps beside the DHT.
  unfoldable pub setup_store :
      CrdtVerse a → g.Context → g.Host → Bytes → Action World (g.Badger × g.Crdt)
  setup_store cv ctx h name = do
    _ ← tries (λ s. (g.network h).kad_new s)
    _ ← notes (opened (dht h))
    store ← calls (λ s. g.new_datastore s (g.join_path cv.dir_path name))
    _ ← notes (opened (datastore store))
    ipfs ← calls (λ s. g.new_ipfs s ctx store h)
    gossip ← calls (λ s. g.new_gossip_sub s ctx h)
    _ ← tries (λ s. g.register_topic_validator s gossip name h store ipfs)
    psbc ← calls (λ s. g.new_broadcaster s ctx gossip name)
    dt ← calls (λ s. g.new_crdt s store name ipfs psbc)
    _ ← notes (opened (crdt dt))
    _ ← tries (λ s. bootstrap (g.network h) s (codes "crdt-keyword") cv.bootstraps)
    λ w. (w, returns (store, dt))

  -- `if err != nil { cancel(); return err }`
  unfoldable pub or_cancel : {T : Type 0} → g.Context → Action World T → Action World T
  or_cancel ctx act w =
      let (u, e) = act w in
      elim e [ fails x ↦ (record u { outside = g.cancel u.outside ctx }, fails x) | r ↦ (u, r) ]

  -- `initCRDT`
  unfoldable pub init_crdt : CrdtVerse a → Bytes → Action World Handles
  init_crdt cv name = do
    h ← calls g.generate_host
    _ ← notes (opened (host h))
    _ ← tries (λ s. g.mkdir_all s (g.join_path cv.dir_path name))
    ctx ← calls (λ s. ((g.with_cancel s).0, ok (g.with_cancel s).1))
    sp ← or_cancel ctx (setup_store cv ctx h name)
    λ w. (
      w,
      returns (record {
        ctx = ctx;
        directory = if cv.save then none else some (g.join_path cv.dir_path name);
        h = h;
        d_store = sp.0;
        dt = sp.1;
      }),
    )

  -- `Cancel`
  unfoldable pub cancel : Handles → World → World
  cancel s w = record {
    outside =
        g.host_close
          ((g.network s.h).kad_close
            (g.datastore_close (g.crdt_close (g.cancel w.outside s.ctx) s.dt) s.d_store))
          s.h;
    log =
        closed (host s.h)
        ∷ closed (dht s.h)
        ∷ closed (datastore s.d_store)
        ∷ closed (crdt s.dt)
        ∷ w.log;
  }

  unfoldable pub remove : Option Bytes → World → World
  remove none w = w
  remove (some dir) w = record w { outside = g.remove_all w.outside dir }

  -- `Close`
  unfoldable pub close : Handles → World → World
  unfolding remove
  close s w = remove s.directory (cancel s w)
