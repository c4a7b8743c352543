-- ===== src/Crdt/Base/Refinement.antt =====
-- `baseStore` as a map that only grows: the abstract view of `Put` and `Get`.
use p2p_verse.Common.{
  ◌≡◌, refl, ◌↔◌, Bool, true, false, Option, none, some, Option-cases, List, [], ◌∷◌, Bytes, Error,
  already_exist, ok, bytes_eq, Bool-cases, inl, inr, subst, sym, ap, ◌∙◌, if◌then◌else◌, All,
}
use mathlib.Core.Path.{ap₂}
use p2p_verse.Std.Text.{IsClean}
use p2p_verse.External.Datastore.{Datastore, IsLawful}
use p2p_verse.Crdt.Base.{BaseStore, has, put, get, is_true}
use p2p_verse.Crdt.Base.AppendOnly.{put_exists}

-- The abstract store: what each key has been given, if anything.
abbrev pub Contents : Type 0
Contents = Bytes → Option Bytes

-- The first value that a key is given stays.
unfoldable pub assign : Contents → Bytes → Bytes → Contents × Option Error
assign m key val = elim (m key) [
  | some v ↦ (m, some already_exist)
  | none ↦ (λ j. if bytes_eq j key then some val else m j, none)
]

unfoldable pub assign_all : Contents → List (Bytes × Bytes) → Contents × List (Option Error)
assign_all m [] = (m, [])
assign_all m ((key, val) ∷ ops) =
    let (m', e) = assign m key val in let (m'', es) = assign_all m' ops in (m'', e ∷ es)

abbrev is_some : Option Bytes → Bool
is_some none = false
is_some (some v) = true

module _ (d : Datastore) where
  -- `Put` for each of the keys and values in turn, with the errors.
  unfoldable pub put_all : BaseStore d → List (Bytes × Bytes) → BaseStore d × List (Option Error)
  put_all s [] = (s, [])
  put_all s ((key, val) ∷ ops) =
      let (s', e) = put d s key val in let (s'', es) = put_all s' ops in (s'', e ∷ es)

  -- `Has` and `Get` of the store answer as the map does.
  pub record Shows (s : BaseStore d) (m : Contents) : Type 0 where
    pub has_shows : (k : Bytes) → IsClean k → has d s k ≡ ok (is_some (m k))
    pub get_shows : (k v : Bytes) → IsClean k → (get d s k ≡ ok v) ↔ (m k ≡ some v)

  module _ (lawful : IsLawful d)
      (writes : (s : d.State) (k v : Bytes) → (d.put s k v).1 ≡ none) where
    same_key :
        (j k : Bytes) → IsClean j → IsClean k → bytes_eq (d.new_key j) (d.new_key k) ≡ bytes_eq j k
    unfolding bytes_eq
    same_key j k cj ck = rw (lawful.new_key_clean j cj, lawful.new_key_clean k ck) refl

    -- The same error, and stores that agree.
    abbrev Matches : BaseStore d × Option Error → Contents × Option Error → Type 0
    Matches p q = (p.1 ≡ q.1) × Shows p.0 q.0

    written-Shows :
        (s : BaseStore d) (m : Contents) (key val : Bytes)
        → IsClean key
        → Shows s m
        → Shows
            (record s { dt = (d.put s.dt (d.new_key key) val).0 })
            (λ j. if bytes_eq j key then some val else m j)
    unfolding has get
    written-Shows s m key val clean shows =
        let done = writes s.dt (d.new_key key) val in
        record {
          has_shows = λ k c. elim (Bool-cases (bytes_eq k key)) [
            | inl e ↦
                rw
                  (
                    lawful.has-put s.dt (d.new_key key) val (d.new_key k) done,
                    same_key k key c clean,
                    e,
                  )
                  refl
            | inr e ↦
                rw
                  (
                    lawful.has-put s.dt (d.new_key key) val (d.new_key k) done,
                    same_key k key c clean,
                    e,
                  )
                  (shows.has_shows k c)
          ];
          get_shows = λ k v c. elim (Bool-cases (bytes_eq k key)) [
            | inl e ↦
                rw
                  (
                    lawful.get-put s.dt (d.new_key key) val (d.new_key k) done,
                    same_key k key c clean,
                    e,
                  )
                  (λ h. cc, λ h. cc)
            | inr e ↦
                rw
                  (
                    lawful.get-put s.dt (d.new_key key) val (d.new_key k) done,
                    same_key k key c clean,
                    e,
                  )
                  (shows.get_shows k v c)
          ];
        }

    put_absent :
        (s : BaseStore d) (key val : Bytes)
        → has d s key ≡ ok false
        → put d s key val ≡ (record s { dt = (d.put s.dt (d.new_key key) val).0 }, none)
    unfolding put
    put_absent s key val h = rw (h, writes s.dt (d.new_key key) val) refl

    assign_known :
        (m : Contents) (key val v : Bytes)
        → m key ≡ some v
        → assign m key val ≡ (m, some already_exist)
    unfolding assign
    assign_known m key val v h = rw (h, assign) refl

    assign_fresh :
        (m : Contents) (key val : Bytes)
        → m key ≡ none
        → assign m key val ≡ (λ j. if bytes_eq j key then some val else m j, none)
    unfolding assign
    assign_fresh m key val h = rw (h, assign) refl

    put-Matches :
        (s : BaseStore d) (m : Contents) (key val : Bytes)
        → IsClean key
        → Shows s m
        → Matches (put d s key val) (assign m key val)
    put-Matches s m key val clean shows = elim (Option-cases (m key)) [
      | inl e ↦
          let absent = shows.has_shows key clean ∙ ap (λ o. ok (is_some o)) e in
          subst (λ q. Matches (put d s key val) q) (sym (assign_fresh m key val e))
            (subst (λ p. Matches p (λ j. if bytes_eq j key then some val else m j, none))
              (sym (put_absent s key val absent)) (refl, written-Shows s m key val clean shows))
      | inr (v, e) ↦
          let present = shows.has_shows key clean ∙ ap (λ o. ok (is_some o)) e in
          subst (λ q. Matches (put d s key val) q) (sym (assign_known m key val v e))
            (subst (λ p. Matches p (m, some already_exist))
              (sym (put_exists d s key val (ap is_true present))) (refl, shows))
    ]

    -- If no write to the datastore fails, `baseStore` refines the map that only grows: from a store
    -- that answers as a map does, any sequence of `Put`s of clean keys returns the errors of the map
    -- and leads to a store whose `Has` and `Get` answer as the map does then.
    pub put_all-Shows :
        (s : BaseStore d) (m : Contents) (ops : List (Bytes × Bytes))
        → All (λ (op : Bytes × Bytes). IsClean op.0) ops
        → Shows s m
        → ((put_all s ops).1 ≡ (assign_all m ops).1) × Shows (put_all s ops).0 (assign_all m ops).0
    unfolding put_all assign_all
    put_all-Shows s m [] clean shows = (refl, shows)
    put_all-Shows s m ((key, val) ∷ ops) (c, clean) shows =
        let (same, shown) = put-Matches s m key val c shows in
        let (all_same, all_shown) =
          put_all-Shows (put d s key val).0 (assign m key val).0 ops clean shown in
        (ap₂ ◌∷◌ same all_same, all_shown)
