-- ===== src/External/Network.antt =====
-- The network of a libp2p host with its DHT: `host.Host`, `kad.IpfsDHT` and the routing discovery.
use p2p_verse.Common.{
  ◌≡◌, Bool, true, false, Option, none, some, List, Bytes, Error, Result, if◌then◌else◌, bytes_eq,
  In, ◌↔◌,
}
use p2p_verse.External.Addresses.{Addresses, AddrInfo}

pub record Network (a : Addresses) (State : Type 0) : Type 0 where
  -- `h.ID()`
  pub self : Bytes
  -- `kad.New(ctx, h)`
  pub kad_new : State → State × Option Error
  -- `d.Close()` of the DHT
  pub kad_close : State → State
  -- `h.Network().Connectedness(id) == network.Connected`
  pub is_connected : State → Bytes → Bool
  -- `h.Connect(ctx, ai)`
  pub connect : State → AddrInfo a → State × Option Error
  -- `h.Network().Peers()`
  pub peers : State → List Bytes
  -- `d.Bootstrap(ctx)` of the DHT
  pub bootstrap : State → State × Option Error
  -- `discutil.Advertise`
  pub advertise : State → Bytes → State
  -- `FindPeers`, with all that its channel delivers.
  pub find_peers : State → Bytes → State × Result (List (AddrInfo a))

abbrev pub is_done : Option Error → Bool
is_done none = true
is_done (some e) = false

-- Connecting connects, failing to connect changes no connection, and meanwhile none is lost.
pub record IsLawful {a : Addresses} {State : Type 0} (n : Network a State) : Type 0 where
  pub connected-connect :
      (s : State) (ai : AddrInfo a) (id : Bytes)
      → n.is_connected (n.connect s ai).0 id ≡ (
          if is_done (n.connect s ai).1
          then (if bytes_eq id ai.id then true else n.is_connected s id)
          else n.is_connected s id)
  -- `Peers` lists the peers that are connected.
  pub peers_iff : (s : State) (id : Bytes) → In id (n.peers s) ↔ (n.is_connected s id ≡ true)
