-- ===== src/Crdt/Opening/Leaks.antt =====
-- What opening leaves open.
use p2p_verse.Common.{
  ◌≡◌, refl, List, [], ◌∷◌, ◌++◌, Bytes, Result, ok, append_assoc, sym, ap, ◌∙◌, All, All-append,
}
use p2p_verse.Common.Action.{Ending, returns, fails, panics, Action, ◌>>=◌, resume}
use p2p_verse.External.Addresses.{Addresses}
use p2p_verse.External.Setup.{Setup}
use p2p_verse.Crdt.Opening.{
  CrdtVerse, Resource, Event, opened, closed, World, calls, notes, setup_store, init_crdt,
  or_cancel,
}

module _ {a : Addresses} (g : Setup a) where
  abbrev pub IsOpened : Event g → Type 0
  IsOpened (opened r) = Unit
  IsOpened (closed r) = ⊥

  -- The log has grown, and only by what was opened.
  pub record Grows (w u : World g) : Type 0 where
    pub news : List (Event g)
    pub grown : u.log ≡ news ++ w.log
    pub all_opened : All IsOpened news

  Grows-trans : {w u v : World g} → Grows w u → Grows u v → Grows w v
  Grows-trans {w} p q = record {
    news = q.news ++ p.news;
    grown = q.grown ∙ ap (λ l. q.news ++ l) p.grown ∙ sym (append_assoc q.news p.news w.log);
    all_opened = All-append IsOpened q.news p.news q.all_opened p.all_opened;
  }

  Grows-refl : (w u : World g) → u.log ≡ w.log → Grows w u
  Grows-refl w u h = record { news = []; grown = h; all_opened = tt }

  record Opens {T : Type 0} (f : Action (World g) T) : Type 0 where
    grows : (w : World g) → Grows w (f w).0

  Opens-bind :
      {T U : Type 0} {f : Action (World g) T} {h : T → Action (World g) U}
      → Opens f
      → ((x : T) → Opens (h x))
      → Opens (f >>= h)
  unfolding ◌>>=◌
  Opens-bind {f} {h} kf kh = record { grows = λ w. Grows-trans (kf.grows w) (go (f w).1 (f w).0) }
    where
      go : (e : Ending _) (w : World g) → Grows w (resume e h w).0
      go (returns x) w = (kh x).grows w
      go (fails e) w = Grows-refl w w refl
      go panics w = Grows-refl w w refl

  Opens-calls : {T : Type 0} (f : g.State → g.State × Result T) → Opens (calls g f)
  Opens-calls f = record { grows = λ w. Grows-refl w _ refl }

  Opens-opened : (r : Resource g) → Opens (notes g (opened r))
  Opens-opened r = record {
    grows = λ w. record { news = opened r ∷ []; grown = refl; all_opened = (tt, tt) };
  }

  Opens-or_cancel :
      {T : Type 0} (ctx : g.Context) {f : Action (World g) T} → Opens f → Opens (or_cancel g ctx f)
  unfolding or_cancel
  Opens-or_cancel {T} ctx {f} k = record { grows = λ w. go w (f w).0 (f w).1 (k.grows w) }
    where
      go : (w u : World g) (e : Ending T) → Grows w u → Grows w (or_cancel g ctx (λ _. (u, e)) w).0
      go w u (returns x) p = p
      go w u (fails e) p = Grows-trans p (Grows-refl u _ refl)
      go w u panics p = p

  setup_store-Opens :
      (cv : CrdtVerse a) (ctx : g.Context) (h : g.Host) (name : Bytes)
      → Opens (setup_store g cv ctx h name)
  unfolding setup_store
  setup_store-Opens cv ctx h name = Opens-bind (Opens-calls _) (λ _.
      Opens-bind (Opens-opened _) (λ _. Opens-bind (Opens-calls _) (λ store.
        Opens-bind (Opens-opened _) (λ _. Opens-bind (Opens-calls _) (λ ipfs.
          Opens-bind (Opens-calls _) (λ gossip. Opens-bind (Opens-calls _) (λ _.
            Opens-bind (Opens-calls _) (λ psbc. Opens-bind (Opens-calls _) (λ dt.
              Opens-bind (Opens-opened _) (λ _.
                Opens-bind (Opens-calls _)
                  (λ _. record { grows = λ w. Grows-refl w w refl })))))))))))

  init_crdt-Opens : (cv : CrdtVerse a) (name : Bytes) → Opens (init_crdt g cv name)
  unfolding init_crdt
  init_crdt-Opens cv name = Opens-bind (Opens-calls _) (λ h. Opens-bind (Opens-opened _) (λ _.
      Opens-bind (Opens-calls _) (λ _.
        Opens-bind (Opens-calls (λ s. ((g.with_cancel s).0, ok (g.with_cancel s).1))) (λ ctx.
          Opens-bind (Opens-or_cancel ctx (setup_store-Opens cv ctx h name))
            (λ sp. record { grows = λ w. Grows-refl w w refl })))))

  -- However `initCRDT` ends, with an error or not, it has closed nothing: the log has grown by
  -- nothing but what was opened, so that an error leaves open all that was opened before it.
  pub init_crdt-Grows :
      (cv : CrdtVerse a) (name : Bytes) (w : World g) → Grows w (init_crdt g cv name w).0
  init_crdt-Grows cv name w = (init_crdt-Opens cv name).grows w
