-- ===== src/Bootstrap.antt =====
-- bootstrap.go: a node that other hosts begin their search with. The log of what is opened and
-- closed is that of the stores.
pub mod Peers
pub mod Leaks
use p2p_verse.Common.{Option, none, some, List, [], ◌∷◌, Error}
use p2p_verse.Common.Action.{Ending, returns, fails, panics, Action, ◌>>=◌}
use p2p_verse.External.Addresses.{Addresses, AddrInfo}
use p2p_verse.External.Setup.{Setup}
use p2p_verse.Discovery.{connect_bootstraps, addr_info_slice_to_map, known_peers}
use p2p_verse.Crdt.Opening.{host, dht, opened, closed, World, calls, tries, notes}

-- `getSeed`, where `reader` is `rand.Reader`
pub get_seed : {Reader : Type 0} → Reader → List Reader → Reader
get_seed reader [] = reader
get_seed reader (seed ∷ seeds) = seed

module _ {a : Addresses} (g : Setup a) where
  -- `bootstrap`; the DHT is that of the host.
  pub record Node : Type 0 where
    pub h : g.Host
    pub peers : List (AddrInfo a)

  -- `AddrInfo` and `HostToAddrInfo` (util.go)
  pub addr_info : Node → g.State → AddrInfo a
  addr_info b s = record { id = (g.network b.h).self; addrs = g.host_addrs s b.h }

  -- What follows `connectBootstraps`, whose error closes the DHT again.
  unfoldable pub settle : g.Host → List (AddrInfo a) → Option Error → Action (World g) Node
  settle h others (some e) w = (
    record { outside = (g.network h).kad_close w.outside; log = closed (dht h) ∷ w.log },
    fails e,
  )
  settle h others none w = (
    w,
    returns (record {
      h = h;
      peers = known_peers a (addr_info_slice_to_map a others) ((g.network h).peers w.outside);
    }),
  )

  -- `if len(others) > 0` and its block
  unfoldable pub join : g.Host → List (AddrInfo a) → Action (World g) Node
  join h [] w = (w, returns (record { h = h; peers = [] }))
  join h (other ∷ others) w =
      let (s, e) = connect_bootstraps (g.network h) w.outside (other ∷ others) in
      settle h (other ∷ others) e (record w { outside = s })

  -- `NewBootstrap`
  unfoldable pub new_bootstrap : List (AddrInfo a) → Action (World g) Node
  new_bootstrap others = do
    h ← calls g g.generate_host
    _ ← notes g (opened (host h))
    _ ← tries g (λ s. (g.network h).kad_new s)
    _ ← notes g (opened (dht h))
    join h others

  -- `Close`
  unfoldable pub close : Node → World g → World g
  close b w = record {
    outside = g.host_close ((g.network b.h).kad_close w.outside) b.h;
    log = closed (host b.h) ∷ closed (dht b.h) ∷ w.log;
  }
