-- ===== src/PubSub/Node.antt =====
-- `pubSub`: the objects that rooms share by their pointers, and `NewPubSub`, `Close`, `JoinTopic`.
use p2p_verse.Common.{
  get_elem?, set_elem, ℕ, Option, none, some, List, [], ◌∷◌, ◌++◌, Bytes, codes, Error, Result, ok,
  length,
}
use p2p_verse.Common.Action.{returns, panics, of_result, unit_or, Action, ◌>>=◌}
use p2p_verse.External.Addresses.{Addresses, AddrInfo}
use p2p_verse.External.Gossip.{Gossip}
use p2p_verse.Discovery.{bootstrap}
use p2p_verse.PubSub.Messages.{encode_topic_name}

-- `pubsubKeyword`
abbrev pub pubsub_keyword : Bytes
pubsub_keyword = codes "pubsub:ejvoaenvaeo;vn;aeo"

-- `pubSub`; `router` is the field `ps`, and the DHT is that of the host.
pub record PubSub {a : Addresses} (g : Gossip a) : Type 0 where
  pub bs : List (AddrInfo a)
  pub h : g.Host
  pub router : Option g.Router

-- The state outside, and the objects that were made, in that order; a pointer is a place there.
pub record World {a : Addresses} (g : Gossip a) : Type 0 where
  pub outside : g.State
  pub objects : List (PubSub g)

-- `room`; `ps` is nil after `Close`.
pub record Room {a : Addresses} (g : Gossip a) : Type 0 where
  pub ctx : g.Context
  pub ps : Option ℕ
  pub topic_name : Bytes
  pub topic : g.Topic
  pub sub : g.Subscription

module _ {a : Addresses} (g : Gossip a) where
  -- A call of the outside, which leaves the objects alone.
  abbrev pub calls : {T : Type 0} → (g.State → g.State × Result T) → Action (World g) T
  calls f w = (record w { outside = (f w.outside).0 }, of_result (f w.outside).1)

  abbrev pub tries : (g.State → g.State × Option Error) → Action (World g) (Unit {0})
  tries f = calls (λ s. ((f s).0, unit_or (f s).1))

  -- `new`, for a pointer
  abbrev pub alloc : PubSub g → Action (World g) ℕ
  alloc p w = (record w { objects = w.objects ++ (p ∷ []) }, returns (length w.objects))

  -- `NewPubSub`
  unfoldable pub new_pub_sub : List (AddrInfo a) → Action (World g) ℕ
  new_pub_sub bootstraps = do
    self ← calls g.generate_host
    _ ← tries (λ s. (g.network self).kad_new s)
    gossip ← calls (λ s. g.new_gossip_sub s self)
    _ ← tries (λ s. bootstrap (g.network self) s pubsub_keyword bootstraps)
    alloc (record { bs = bootstraps; h = self; router = some gossip })

  -- `Close` of the object at a place.
  unfoldable pub shut : ℕ → Option (PubSub g) → Action (World g) (Unit {0})
  shut i none w = (w, panics)
  shut i (some p) w = (
    record {
      outside = g.host_close ((g.network p.h).kad_close w.outside) p.h;
      objects = set_elem i (record p { router = none }) w.objects;
    },
    returns tt,
  )

  unfoldable pub close : Option ℕ → Action (World g) (Unit {0})
  unfolding shut get_elem?
  close none w = (w, panics)
  close (some i) w = shut i (get_elem? w.objects i) w

  unfoldable pub join_by : Bytes → ℕ → g.Router → Action (World g) (Room g)
  join_by topic_name i router = do
    topic ← calls (λ s. g.join s router (encode_topic_name topic_name))
    sub ← calls (λ s. g.subscribe s topic)
    ctx ← calls (λ s. ((g.with_cancel s).0, ok (g.with_cancel s).1))
    λ w. (
      w,
      returns
          (record { ctx = ctx; ps = some i; topic_name = topic_name; topic = topic; sub = sub }),
    )

  unfoldable pub join_at : Bytes → ℕ → Option (PubSub g) → Action (World g) (Room g)
  unfolding join_by
  join_at topic_name i none w = (w, panics)
  join_at topic_name i (some p) w = elim p.router [
    | none ↦ (w, panics)
    | some router ↦ join_by topic_name i router w
  ]

  -- `JoinTopic`, which panics on an object that is closed.
  unfoldable pub join_topic : ℕ → Bytes → Action (World g) (Room g)
  unfolding join_at
  join_topic i topic_name w = join_at topic_name i (get_elem? w.objects i) w
