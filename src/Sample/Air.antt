-- ===== src/Sample/Air.antt =====
-- A network where every peer that has an address can be connected to, and a topic whose messages
-- are those of a queue. Its hosts and the like are all alike.
use p2p_verse.Common.{
  ◌≡◌, refl, Bool, true, false, Option, none, some, List, [], ◌∷◌, Bytes, codes, Error, foreign,
  Result, ok, err, bytes_eq, bytes_eq_iff, In, ◌↔◌, arith, if◌then◌else◌,
}
use p2p_verse.Std.Time.{utc}
use p2p_verse.External.Addresses.{AddrInfo}
use p2p_verse.External.Messages
use p2p_verse.External.Network.{Network, IsLawful, is_done}
use p2p_verse.External.Gossip.{Gossip, Delivery, PbMessage}
use p2p_verse.Sample.Addresses.{plain}
use p2p_verse.Sample.Crypto.{codec_of, codec_of-IsLawful}

-- The connected peers, and what the subscription delivers next.
pub record Air : Type 0 where
  pub ids : List Bytes
  pub queue : List Delivery

unfoldable pub among : Bytes → List Bytes → Bool
among id [] = false
among id (j ∷ ids) = let rest = among id ids in if bytes_eq id j then true else rest

abbrev reach : Air → AddrInfo plain → List Bytes → Air × Option Error
reach s ai [] = (s, some (foreign (codes "no address")))
reach s ai (m ∷ ms) = (record s { ids = ai.id ∷ s.ids }, none)

abbrev pub net : Network plain Air
net = record {
  self = codes "pme";
  kad_new = λ s. (s, none);
  kad_close = λ s. s;
  is_connected = λ s id. among id s.ids;
  connect = λ s ai. reach s ai ai.addrs;
  peers = λ s. s.ids;
  bootstrap = λ s. (s, none);
  advertise = λ s k. s;
  find_peers = λ s k. (s, ok []);
}

among_iff : (id : Bytes) (ids : List Bytes) → In id ids ↔ (among id ids ≡ true)
unfolding among
among_iff id [] = (λ m. absurd m, λ h. cc)
among_iff id (j ∷ ids) = ground (arith, among_iff id ids, bytes_eq_iff id j)

pub net-IsLawful : IsLawful net
unfolding among
net-IsLawful = record {
  connected-connect = λ s ai id. go s ai id ai.addrs;
  peers_iff = λ s id. among_iff id s.ids;
}
  where
    go :
        (s : Air) (ai : AddrInfo plain) (id : Bytes) (ms : List Bytes)
        → among id (reach s ai ms).0.ids ≡ (
            if is_done (reach s ai ms).1
            then (if bytes_eq id ai.id then true else among id s.ids)
            else among id s.ids)
    go s ai id [] = refl
    go s ai id (m ∷ ms) = refl

abbrev silence : Delivery
silence = record { message = none; error = some (foreign (codes "deadline")); timed_out = true }

abbrev pop : List Delivery → Air → Air × Delivery
pop [] s = (s, silence)
pop (d ∷ ds) s = (record s { queue = ds }, d)

abbrev build : List Bytes → Result PbMessage
build (d ∷ t ∷ []) = ok (record { data_bytes = d; time = t })
build _ = err (foreign [])

abbrev pub air : Gossip plain
air = record {
  State = Air;
  Host = Unit;
  Router = Unit;
  Topic = Unit;
  Subscription = Unit;
  Context = Unit;
  generate_host = λ s. (s, ok tt);
  host_close = λ s h. s;
  network = λ h. net;
  new_gossip_sub = λ s h. (s, ok tt);
  join = λ s r n. (s, ok tt);
  subscribe = λ s t. (s, ok tt);
  topic_close = λ s t. s;
  subscription_cancel = λ s b. s;
  list_peers = λ s t. s.ids;
  publish = λ s t c m. (s, none);
  next = λ s b. pop s.queue s;
  with_cancel = λ s. (s, tt);
  cancel = λ s c. s;
  now = λ s. record { sec = 63800000000; nsec = 7; zone = utc };
  message = codec_of (λ (m : PbMessage). m.data_bytes ∷ m.time ∷ []) build;
}

pub air_message-IsLawful : Messages.IsLawful air.message
air_message-IsLawful = codec_of-IsLawful _ _ (λ m. refl)
