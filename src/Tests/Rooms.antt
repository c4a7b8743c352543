-- ===== src/Tests/Rooms.antt =====
-- Bootstrap nodes, and a room that has no peers before it is reset.
use p2p_verse.Common.{
  get_elem?, set_elem, ℕ, ◌≡◌, refl, ◌↔◌, inl, true, false, none, some, List, [], ◌∷◌, arith, codes,
  Bytes, ok, no_bootstraps, map,
}
use p2p_verse.Common.Action.{returns, panics, ◌>>=◌}
use mathlib.Core.List.{Perm}
use p2p_verse.Std.Time
use p2p_verse.Std.Time.{Time, utc, to_utc, before}
use p2p_verse.External.Addresses.{AddrInfo}
use p2p_verse.External.Gossip.{Message, Delivery, IsDelivery}
use p2p_verse.Sample.Addresses.{plain}
use p2p_verse.Sample.Fields.{write_fields, seal_bytes}
use p2p_verse.Sample.Air.{Air, among, net, air, air_message-IsLawful}
use p2p_verse.Discovery.{meet_peers, connect_bootstraps, greet, greet_all, bootstrap}
use p2p_verse.Discovery.Candidates.{Meets, meet_peers_lem}
use p2p_verse.PubSub.Messages.{ReceivedMessage, convert, convert_message}
use p2p_verse.PubSub.Node.{PubSub, shut, join_at, join_by, new_pub_sub, join_topic, close}
use p2p_verse.PubSub.Room.{
  Member, has_peers, list_peers, base_reset, renew, reset, reset_tries, reset_rounds, publish, send,
  taken, next, get, get_all,
}
use p2p_verse.PubSub.Resets.{Reaches, reset_iff}
use p2p_verse.PubSub.Received.{Stream, converted, get_all_lem}
use p2p_verse.PubSub.Sorting.{IsSorted}
use p2p_verse.PubSub.Sharing.{join_topic-base_reset}
use p2p_verse.PubSub.Exchange.{sent, convert-publish, get-panics_iff}

abbrev quiet_air : Air
quiet_air = record { ids = []; queue = [] }

-- A peer that cannot be connected to, and one that can.
abbrev down : AddrInfo plain
down = record { id = codes "pd"; addrs = [] }

abbrev up : AddrInfo plain
up = record { id = codes "pu"; addrs = codes "/u" ∷ [] }

all_down : (connect_bootstraps net quiet_air (down ∷ down ∷ [])).1 ≡ some no_bootstraps
unfolding connect_bootstraps greet_all greet among
all_down = refl

meet_peers_lem_example :
    Meets net 5 quiet_air (down ∷ up ∷ []) (meet_peers net 0 quiet_air (down ∷ up ∷ []))
meet_peers_lem_example = meet_peers_lem net quiet_air (down ∷ up ∷ [])

abbrev node : PubSub air
node = record { bs = down ∷ up ∷ []; h = tt; router = some tt }

abbrev at : Air → List (PubSub air) → ℕ → Member air
at s objects i = record {
  world = record { outside = s; objects = objects };
  room = record { ctx = tt; ps = some i; topic_name = codes "t"; topic = tt; sub = tt };
}

abbrev lonely : Member air
lonely = at quiet_air (node ∷ []) 0

abbrev joined : Air
joined = record { ids = codes "pu" ∷ []; queue = [] }

abbrev company : Member air
company = at joined (record node { router = none } ∷ node ∷ []) 1

reset_iff_example :
    (reset air lonely ≡ (company, returns tt)) ↔ Reaches air reset_rounds lonely company
reset_iff_example = reset_iff air lonely company

node_there : get_elem? lonely.world.objects 0 ≡ some node
unfolding get_elem?
node_there = refl

join_topic-base_reset_example :
    (join_topic air 0 (codes "u") (base_reset air lonely).0.world).1 ≡ panics
join_topic-base_reset_example = join_topic-base_reset air lonely 0 node (codes "u") refl node_there

-- The reset connects the room to the bootstrap node that is up.
lonely_run : reset air lonely ≡ (company, returns tt)
unfolding reset_tries has_peers list_peers base_reset renew close shut get_elem? set_elem
    new_pub_sub bootstrap meet_peers connect_bootstraps greet_all greet among join_topic join_at
    join_by ◌>>=◌
lonely_run = refl

abbrev noon : Time
noon = record { sec = 63800000000; nsec = 7; zone = utc }

abbrev noon_bytes : Bytes
noon_bytes = 1 ∷ 0 ∷ 0 ∷ 0 ∷ 14 ∷ 218 ∷ 198 ∷ 190 ∷ 0 ∷ 0 ∷ 0 ∷ 0 ∷ 7 ∷ 255 ∷ 255 ∷ []

abbrev greeting : Bytes
greeting = codes "hi"

greeting_published : publish air greeting company ≡ (company, returns tt)
unfolding publish send reset_tries has_peers list_peers write_fields seal_bytes Time.marshal ◌>>=◌
greeting_published = refl

convert-publish_example :
    (mm : Bytes) × (t : Member air) × (reset air company ≡ (t, returns tt))
    × (has_peers air t ≡ true)
    × (let (o, e) = air.publish t.world.outside t.room.topic t.room.ctx mm in
        (e ≡ none) × (company ≡ record t { world = record t.world { outside = o } }))
    × (convert air.message (record { from = codes "pz"; data_bytes = mm })
        ≡ ok (sent air (codes "pz") greeting noon))
convert-publish_example =
    convert-publish air air_message-IsLawful greeting (codes "pz") company company
      (record { sec_fits = omega arith; nsec_fits = omega arith }) greeting_published

company_run : reset air company ≡ (company, returns tt)
unfolding reset_tries has_peers list_peers
company_run = refl

company_silent : IsDelivery (next air company).1
unfolding next
company_silent = inl (refl, λ h. cc)

get-panics_iff_example :
    ((get air company).1 ≡ panics)
    ↔ (((next air company).1.message ≡ none) × ((next air company).1.timed_out ≡ true))
get-panics_iff_example = get-panics_iff air company company company_run company_silent

-- `Get` in a room where nobody says anything for a second.
company_get : (get air company).1 ≡ panics
unfolding get next taken convert_message reset_tries has_peers list_peers ◌>>=◌
company_get = refl

abbrev later_bytes : Bytes
later_bytes = 1 ∷ 0 ∷ 0 ∷ 0 ∷ 14 ∷ 218 ∷ 198 ∷ 191 ∷ 0 ∷ 0 ∷ 0 ∷ 0 ∷ 7 ∷ 255 ∷ 255 ∷ []

abbrev message_at : Bytes → Message
message_at t = record { from = codes "pz"; data_bytes = write_fields (greeting ∷ t ∷ []) }

abbrev delivered : Message → Delivery
delivered m = record { message = some m; error = none; timed_out = false }

-- A later message, one that cannot be read, and an earlier one.
abbrev messages : List Message
messages = message_at later_bytes ∷ message_at [] ∷ message_at noon_bytes ∷ []

abbrev busy : Member air
busy = at (record joined { queue = map delivered messages }) (node ∷ []) 0

abbrev served : Member air
served = at joined (node ∷ []) 0

busy-Stream : Stream air busy messages served none
unfolding next
busy-Stream =
    Stream.arrives refl refl refl
      (Stream.arrives refl refl refl (Stream.arrives refl refl refl (Stream.quiet refl)))

get_all_lem_example :
    (l : List ReceivedMessage) × (get_all air 4 busy ≡ some (served, returns l))
    × Perm l (converted air messages)
    × IsSorted l
get_all_lem_example = get_all_lem air busy served messages 4 busy-Stream (omega arith)
