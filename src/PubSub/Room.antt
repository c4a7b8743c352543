-- ===== src/PubSub/Room.antt =====
-- The operations of `room`, each on the room and on what it shares with others.
use p2p_verse.Common.{
  get_elem?, ℕ, zero, suc, Bool, true, false, Option, none, some, List, [], Bytes, reset_timeout,
  if◌then◌else◌, length, ltb,
}
use p2p_verse.Common.Action.{unit_or, Ending, returns, fails, panics, of_result, Action, ◌>>=◌}
use p2p_verse.Std.Time
use p2p_verse.Std.Time.{to_utc}
use p2p_verse.External.Addresses.{Addresses, AddrInfo}
use p2p_verse.External.Gossip.{Gossip, Delivery}
use p2p_verse.Crdt.TimeParams.{bytes_or_nil}
use p2p_verse.PubSub.Messages.{ReceivedMessage, convert_message, append_converted, mess_sort}
use p2p_verse.PubSub.Node.{PubSub, World, Room, close, new_pub_sub, join_topic}

-- A room, which its operations change, in the world.
pub record Member {a : Addresses} (g : Gossip a) : Type 0 where
  pub world : World g
  pub room : Room g

-- `N` of `reset`
abbrev pub reset_rounds : ℕ
reset_rounds = 50

module _ {a : Addresses} (g : Gossip a) where
  abbrev pub in_world : {T : Type 0} → Action (World g) T → Action (Member g) T
  in_world f s = (record s { world = (f s.world).0 }, (f s.world).1)

  -- What `Close` and `baseReset` begin with.
  abbrev pub leave : Room g → g.State → g.State
  leave r o = g.topic_close (g.subscription_cancel (g.cancel o r.ctx) r.sub) r.topic

  abbrev pub outside : (g.State → g.State) → Action (World g) (Unit {0})
  outside f w = (record w { outside = f w.outside }, returns tt)

  unfoldable pub list_peers : Member g → List Bytes
  list_peers s = g.list_peers s.world.outside s.room.topic

  unfoldable pub has_peers : Member g → Bool
  has_peers s = ltb 0 (length (list_peers s))

  -- `Close`
  unfoldable pub close_room : Member g → Member g
  close_room s = record {
    world = record s.world { outside = leave s.room s.world.outside };
    room = record s.room { ps = none };
  }

  -- `r.ps.bs`
  abbrev pub bs_of : Option (PubSub g) → List (AddrInfo a)
  bs_of none = []
  bs_of (some p) = p.bs

  abbrev pub bs_at : Option ℕ → World g → List (AddrInfo a)
  bs_at none w = []
  bs_at (some i) w = bs_of (get_elem? w.objects i)

  -- The rest of `baseReset`, once the old node is closed.
  unfoldable pub renew : Room g → Action (Member g) (Unit {0})
  renew r = do
    i ← in_world (λ w. new_pub_sub g (bs_at r.ps w) w)
    room2 ← in_world (join_topic g i r.topic_name)
    λ t. (record t { room = room2 }, returns tt)

  -- `baseReset`
  unfoldable pub base_reset : Action (Member g) (Unit {0})
  base_reset s =
      (do _ ← in_world (outside (leave s.room)); _ ← in_world (close g s.room.ps); renew s.room) s

  -- The loop of `reset`, by the rounds that are left.
  unfoldable pub reset_tries : ℕ → Action (Member g) (Unit {0})
  reset_tries zero s = (s, fails reset_timeout)
  reset_tries (suc n) s = elim (has_peers s) [
    | true ↦ (s, returns tt)
    | false ↦ (base_reset >>= (λ _. reset_tries n)) s
  ]

  abbrev pub reset : Action (Member g) (Unit {0})
  reset = reset_tries reset_rounds

  unfoldable pub send : Bytes → Action (Member g) (Unit {0})
  send mm s =
      let (o, e) = g.publish s.world.outside s.room.topic s.room.ctx mm in
      (record s { world = record s.world { outside = o } }, of_result (unit_or e))

  -- `Publish`
  unfoldable pub publish : Bytes → Action (Member g) (Unit {0})
  unfolding send
  publish data_bytes s =
      let t = bytes_or_nil (Time.marshal (to_utc (g.now s.world.outside))) in
      (do
        mm ←
            (λ w. (w, of_result (g.message.marshal (record { data_bytes = data_bytes; time = t }))))
        _ ← reset
        send mm)
        s

  -- `r.sub.Next` with its timeout
  unfoldable pub next : Member g → Member g × Delivery
  next s =
      let (o, d) = g.next s.world.outside s.room.sub in
      (record s { world = record s.world { outside = o } }, d)

  -- What `Get` makes of a delivery.
  unfoldable pub taken : Delivery → Ending ReceivedMessage
  taken d =
      if d.timed_out
      then convert_message g.message d.message
      else elim d.error [ some e ↦ fails e | none ↦ convert_message g.message d.message ]

  -- `Get`
  unfoldable pub get : Action (Member g) ReceivedMessage
  get = reset >>= (λ _ s. ((next s).0, taken (next s).1))

  -- The loop of `GetAll`, which ends when `Next` times out or fails, or never; `none` is that the
  -- fuel is used up.
  unfoldable pub get_all_from :
      ℕ → List ReceivedMessage → Member g → Option (Member g × Ending (List ReceivedMessage))
  get_all_from zero mess s = none
  get_all_from (suc n) mess s =
      let (t, d) = next s in
      elim d.timed_out [
        | true ↦ some (t, returns (if ltb 0 (length mess) then mess_sort mess else mess))
        | false ↦ elim d.error [
          | some e ↦ some (t, fails e)
          | none ↦ elim (convert_message g.message d.message) [
            | panics ↦ some (t, panics)
            | e ↦ get_all_from n (append_converted g.message mess e) t
          ]
        ]
      ]

  -- `GetAll`
  unfoldable pub get_all : ℕ → Member g → Option (Member g × Ending (List ReceivedMessage))
  unfolding get_all_from
  get_all n s = get_all_from n [] s
