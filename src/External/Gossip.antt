-- ===== src/External/Gossip.antt =====
-- The rest of what a node of pubsub/pubsub.go calls: the host generator, go-libp2p-pubsub, contexts
-- and the clock. One state stands for all of it.
use p2p_verse.Common.{◌≡◌, ◌≢◌, ◌⊎◌, Bool, Option, none, some, List, Bytes, Error, Result}
use p2p_verse.Std.Time.{Time}
use p2p_verse.External.Addresses.{Addresses}
use p2p_verse.External.Messages.{Codec}
use p2p_verse.External.Network.{Network}

-- `pb.Message` of pubsub/pb
pub record PbMessage : Type 0 where
  pub data_bytes : Bytes
  pub time : Bytes

-- `p2ppubsub.Message`, by its sender and its data
pub record Message : Type 0 where
  pub from : Bytes
  pub data_bytes : Bytes

-- What `sub.Next(ctx)` returns under a timeout of a second, with whether the context is done then.
pub record Delivery : Type 0 where
  pub message : Option Message
  pub error : Option Error
  pub timed_out : Bool

pub record Gossip (a : Addresses) : Type 1 where
  pub State : Type 0
  pub Host : Type 0
  pub Router : Type 0
  pub Topic : Type 0
  pub Subscription : Type 0
  pub Context : Type 0
  pub generate_host : State → State × Result Host
  pub host_close : State → Host → State
  pub network : Host → Network a State
  -- `NewGossipSub` with the discovery of the host's DHT
  pub new_gossip_sub : State → Host → State × Result Router
  pub join : State → Router → Bytes → State × Result Topic
  pub subscribe : State → Topic → State × Result Subscription
  pub topic_close : State → Topic → State
  pub subscription_cancel : State → Subscription → State
  pub list_peers : State → Topic → List Bytes
  -- `topic.Publish(ctx, data, ready)`, where `ready` waits for one peer
  pub publish : State → Topic → Context → Bytes → State × Option Error
  pub next : State → Subscription → State × Delivery
  -- `context.WithCancel(context.Background())`, and the function that cancels it
  pub with_cancel : State → State × Context
  pub cancel : State → Context → State
  pub now : State → Time
  pub message : Codec PbMessage

-- `Next` returns a message exactly if it returns no error.
abbrev pub IsDelivery : Delivery → Type 0
IsDelivery d =
    (d.message ≡ none) × (d.error ≢ none)
    ⊎ ((m : Message) × (d.message ≡ some m)) × (d.error ≡ none)
