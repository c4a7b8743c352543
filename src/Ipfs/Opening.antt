-- ===== src/Ipfs/Opening.antt =====
-- `NewIpfsStore` and `Close` of ipfs/ipfsverse.go, `NewCidGetter` and `Close` of
-- ipfs/cidgetter.go, with the log of what is opened and closed.
pub mod Mirrored
use p2p_verse.Common.{Bool, Option, none, some, List, ◌∷◌, Bytes, codes, ok, if◌then◌else◌}
use p2p_verse.Common.Action.{returns, Action, ◌>>=◌}
use p2p_verse.External.Addresses.{Addresses, AddrInfo}
use p2p_verse.External.Setup.{Setup}
use p2p_verse.Discovery.{bootstrap}
use p2p_verse.Crdt.Opening.{
  host, dht, datastore, opened, closed, World, calls, tries, notes, or_cancel, remove,
}

-- The part of `ipfsStore` that `Close` uses; the DHT is that of the host.
pub record IpfsHandles {a : Addresses} (g : Setup a) : Type 0 where
  pub ctx : g.Context
  pub directory : Option Bytes
  pub h : g.Host
  pub d_store : g.Badger

module _ {a : Addresses} (g : Setup a) where
  -- The steps of `NewIpfsStore` whose failure cancels the context.
  unfoldable pub start :
      g.Context → g.Badger → g.Host → List (AddrInfo a) → Action (World g) (Unit {0})
  start ctx store h bootstraps = do
    _ ← calls g (λ s. g.new_ipfs s ctx store h)
    tries g (λ s. bootstrap (g.network h) s (codes "ipfs-keyword") bootstraps)

  -- `NewIpfsStore`
  unfoldable pub new_ipfs_store :
      Bytes → Bool → List (AddrInfo a) → Action (World g) (IpfsHandles g)
  new_ipfs_store dir_path save bootstraps = do
    h ← calls g g.generate_host
    _ ← notes g (opened (host h))
    _ ← tries g (λ s. g.mkdir_all s dir_path)
    store ← calls g (λ s. g.new_datastore s dir_path)
    _ ← notes g (opened (datastore store))
    _ ← tries g (λ s. (g.network h).kad_new s)
    _ ← notes g (opened (dht h))
    ctx ← calls g (λ s. ((g.with_cancel s).0, ok (g.with_cancel s).1))
    _ ← or_cancel g ctx (start ctx store h bootstraps)
    λ w. (
      w,
      returns (record {
        ctx = ctx;
        directory = if save then none else some dir_path;
        h = h;
        d_store = store;
      }),
    )

  -- `Close`
  unfoldable pub close : IpfsHandles g → World g → World g
  close s w =
      let w1 : World g = record {
        outside = g.datastore_close (g.cancel w.outside s.ctx) s.d_store;
        log = closed (datastore s.d_store) ∷ w.log;
      } in
      let w2 = remove g s.directory w1 in
      record {
        outside = g.host_close ((g.network s.h).kad_close w2.outside) s.h;
        log = closed (host s.h) ∷ closed (dht s.h) ∷ w2.log;
      }

  -- `NewCidGetter`; the DHT of the getter is that of the host that it returns.
  unfoldable pub new_cid_getter : Action (World g) g.Host
  new_cid_getter = do
    h ← calls g g.generate_host
    _ ← notes g (opened (host h))
    _ ← tries g (λ s. (g.network h).kad_new s)
    _ ← notes g (opened (dht h))
    store ← calls g (λ s. ((g.in_memory_datastore s).0, ok (g.in_memory_datastore s).1))
    _ ← calls g (λ s. g.new_ipfs s g.background store h)
    λ w. (w, returns h)

  -- `Close` of the getter
  unfoldable pub close_cid_getter : g.Host → World g → World g
  close_cid_getter h w = record {
    outside = g.host_close ((g.network h).kad_close w.outside) h;
    log = closed (host h) ∷ closed (dht h) ∷ w.log;
  }
