-- ===== src/PubSub/Sharing.antt =====
-- What a room's `reset` does to the `PubSub` that it was joined from.
use p2p_verse.Common.{
  get_elem?-append, get_elem?-set_elem, get_elem?, ℕ, ◌≡◌, refl, Option, none, some, List,
  Option-cases, inl, inr, Bytes, Result, ok, sym, subst,
}
use p2p_verse.Common.Action.{Ending, returns, fails, panics, Action, ◌>>=◌, resume}
use p2p_verse.External.Addresses.{Addresses, AddrInfo}
use p2p_verse.External.Gossip.{Gossip}
use p2p_verse.PubSub.Node.{
  shut, PubSub, World, Room, close, new_pub_sub, join_topic, calls, alloc, join_by, join_at,
}
use p2p_verse.PubSub.Room.{Member, base_reset, in_world, renew, leave, bs_at}

module _ {a : Addresses} (g : Gossip a) (i : ℕ) where
  -- The object at the place is closed.
  pub record IsClosed (w : World g) : Type 0 where
    pub object : PubSub g
    pub found : get_elem? w.objects i ≡ some object
    pub no_router : object.router ≡ none

  -- The action leaves a closed object closed, however it ends.
  record Keeps {W T : Type 0} (v : W → World g) (f : Action W T) : Type 0 where
    keeps : (w : W) → IsClosed (v w) → IsClosed (v (f w).0)

  IsClosed-bind :
      {W T U : Type 0} (v : W → World g) (f : Action W T) (h : T → Action W U) (w : W)
      → IsClosed (v (f w).0)
      → ((x : T) → Keeps v (h x))
      → IsClosed (v ((f >>= h) w).0)
  unfolding ◌>>=◌
  IsClosed-bind v f h w c kh = go (f w).1 (f w).0 c
    where
      go : (e : Ending _) (w : _) → IsClosed (v w) → IsClosed (v (resume e h w).0)
      go (returns x) w d = (kh x).keeps w d
      go (fails e) w d = d
      go panics w d = d

  Keeps-bind :
      {W T U : Type 0} {v : W → World g} {f : Action W T} {h : T → Action W U}
      → Keeps v f
      → ((x : T) → Keeps v (h x))
      → Keeps v (f >>= h)
  Keeps-bind {v} {f} {h} kf kh = record { keeps = λ w c. IsClosed-bind v f h w (kf.keeps w c) kh }

  abbrev KeepsIt : {T : Type 0} → Action (World g) T → Type 0
  KeepsIt = Keeps (λ w. w)

  Keeps-calls : {T : Type 0} (f : g.State → g.State × Result T) → KeepsIt (calls g f)
  Keeps-calls f = record {
    keeps = λ w c. record { object = c.object; found = c.found; no_router = c.no_router };
  }

  Keeps-alloc : (p : PubSub g) → KeepsIt (alloc g p)
  Keeps-alloc p = record {
    keeps = λ w c. record {
      object = c.object;
      found = get_elem?-append w.objects _ i c.object c.found;
      no_router = c.no_router;
    };
  }

  new_pub_sub-Keeps : (bs : List (AddrInfo a)) → KeepsIt (new_pub_sub g bs)
  unfolding new_pub_sub
  new_pub_sub-Keeps bs = Keeps-bind (Keeps-calls _) (λ self.
      Keeps-bind (Keeps-calls _) (λ u.
        Keeps-bind (Keeps-calls _) (λ gossip. Keeps-bind (Keeps-calls _) (λ v. Keeps-alloc _))))

  join_by-Keeps : (j : ℕ) (name : Bytes) (router : g.Router) → KeepsIt (join_by g name j router)
  unfolding join_by
  join_by-Keeps j name router = Keeps-bind (Keeps-calls _) (λ topic.
      Keeps-bind (Keeps-calls _) (λ sub.
        Keeps-bind (Keeps-calls (λ s. ((g.with_cancel s).0, ok (g.with_cancel s).1)))
          (λ ctx. record { keeps = λ w c. c })))

  join_topic-Keeps : (j : ℕ) (name : Bytes) → KeepsIt (join_topic g j name)
  unfolding join_topic join_at
  join_topic-Keeps j name = record { keeps = λ w c. go w c (get_elem? w.objects j) }
    where
      go : (w : World g) → IsClosed w → (o : Option (PubSub g)) → IsClosed (join_at g name j o w).0
      go w c none = c
      go w c (some p) = elim (Option-cases p.router) [
        | inl r ↦ rw (r, join_at) c
        | inr (router, r) ↦ rw (r, join_at) ((join_by-Keeps j name router).keeps w c)
      ]

  in_world-Keeps :
      {T : Type 0} {f : Action (World g) T} → KeepsIt f → Keeps Member.world (in_world g f)
  in_world-Keeps k = record { keeps = λ s c. k.keeps s.world c }

  renew-Keeps : (r : Room g) → Keeps Member.world (renew g r)
  unfolding renew
  renew-Keeps r =
      Keeps-bind
        (in_world-Keeps (record { keeps = λ w c. (new_pub_sub-Keeps (bs_at g r.ps w)).keeps w c }))
        (λ j.
          Keeps-bind (in_world-Keeps (join_topic-Keeps j r.topic_name))
            (λ r2. record { keeps = λ w c. c }))

  close-IsClosed :
      (p : PubSub g) (w : World g)
      → get_elem? w.objects i ≡ some p
      → IsClosed (close g (some i) w).0 × ((close g (some i) w).1 ≡ returns tt)
  unfolding close shut
  close-IsClosed p w h = rw h (
    record {
      object = record p { router = none };
      found = get_elem?-set_elem w.objects i p (record p { router = none }) h;
      no_router = refl;
    },
    refl,
  )

  base_reset-IsClosed :
      (s : Member g) (p : PubSub g)
      → s.room.ps ≡ some i
      → get_elem? s.world.objects i ≡ some p
      → IsClosed (base_reset g s).0.world
  unfolding base_reset ◌>>=◌
  base_reset-IsClosed s p h k =
      let left = record s { world = record s.world { outside = leave g s.room s.world.outside } } in
      IsClosed-bind (λ m. m.world) (in_world g (close g s.room.ps)) (λ _. renew g s.room) left
        (subst (λ o. IsClosed (close g o left.world).0) (sym h) (close-IsClosed p left.world k).0)
        (λ _. renew-Keeps s.room)

  -- Joining a topic through a closed object panics.
  join_topic-IsClosed :
      (name : Bytes) (w : World g) → IsClosed w → (join_topic g i name w).1 ≡ panics
  unfolding join_topic join_at
  join_topic-IsClosed name w c = rw (c.found, c.no_router) refl

module _ {a : Addresses} (g : Gossip a) where
  -- After a reset of a room, however it ends, joining any topic through the node that the room was
  -- joined from panics: the reset has closed that node, which other rooms and the caller share.
  pub join_topic-base_reset :
      (s : Member g) (i : ℕ) (p : PubSub g) (topic_name : Bytes)
      → s.room.ps ≡ some i
      → get_elem? s.world.objects i ≡ some p
      → (join_topic g i topic_name (base_reset g s).0.world).1 ≡ panics
  join_topic-base_reset s i p topic_name h k =
      join_topic-IsClosed g i topic_name (base_reset g s).0.world (base_reset-IsClosed g i s p h k)
