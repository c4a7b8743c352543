-- ===== src/External/Setup.antt =====
-- What `initCRDT` and `setupStore` call to open a store: the host generator, the file system, badger,
-- ipfs-lite, go-libp2p-pubsub and go-ds-crdt.
use p2p_verse.Common.{List, Bytes, Error, Option, Result}
use p2p_verse.External.Addresses.{Addresses}
use p2p_verse.External.Network.{Network}

pub record Setup (a : Addresses) : Type 1 where
  pub State : Type 0
  pub Host : Type 0
  pub Context : Type 0
  pub Badger : Type 0
  pub Ipfs : Type 0
  pub Router : Type 0
  pub Broadcaster : Type 0
  pub Crdt : Type 0
  pub generate_host : State → State × Result Host
  pub host_close : State → Host → State
  -- The host's network, with its DHT
  pub network : Host → Network a State
  -- `h.Addrs()`
  pub host_addrs : State → Host → List a.Multiaddr
  -- `filepath.Join`
  pub join_path : Bytes → Bytes → Bytes
  pub mkdir_all : State → Bytes → State × Option Error
  pub remove_all : State → Bytes → State
  -- `context.Background()`
  pub background : Context
  -- `ipfslt.NewInMemoryDatastore()`
  pub in_memory_datastore : State → State × Badger
  pub with_cancel : State → State × Context
  pub cancel : State → Context → State
  pub new_datastore : State → Bytes → State × Result Badger
  pub datastore_close : State → Badger → State
  pub new_ipfs : State → Context → Badger → Host → State × Result Ipfs
  pub new_gossip_sub : State → Context → Host → State × Result Router
  -- `RegisterTopicValidator` of the store's validator
  pub register_topic_validator :
      State → Router → Bytes → Host → Badger → Ipfs → State × Option Error
  pub new_broadcaster : State → Context → Router → Bytes → State × Result Broadcaster
  pub new_crdt : State → Badger → Bytes → Ipfs → Broadcaster → State × Result Crdt
  pub crdt_close : State → Crdt → State
