-- ===== src/Crdt/Base/AppendOnly.antt =====
-- The store is append-only: what `Put` and `Get` of `baseStore` promise over a lawful datastore.
use p2p_verse.Common.{
  ◌≡◌, Bool, true, false, none, some, arith, Bytes, already_exist, Result, ok, bytes_eq,
  bytes_eq_iff, bytes_eq_refl, Bool-cases, inl, inr, subst,
}
use p2p_verse.External.Datastore.{Datastore, IsLawful}
use p2p_verse.Crdt.Base.{BaseStore, has, put, get, is_true}

present_absent : (r : Result Bool) → r ≡ ok true → is_true r ≡ false → ⊥
present_absent r h k = ground arith

module _ (d : Datastore) where
  -- A key that is present is refused, and the store stays as it is.
  pub put_exists :
      (s : BaseStore d) (key val : Bytes)
      → is_true (has d s key) ≡ true
      → put d s key val ≡ (s, some already_exist)
  unfolding put
  put_exists s key val h = rw h

  pub put_fresh :
      (s : BaseStore d) (key val : Bytes)
      → (put d s key val).1 ≡ none
      → (is_true (has d s key) ≡ false)
        × ((d.put s.dt (d.new_key key) val).1 ≡ none)
        × ((put d s key val).0 ≡ record s { dt = (d.put s.dt (d.new_key key) val).0 })
  unfolding put
  put_fresh s key val h = ground arith

  module _ (lawful : IsLawful d) where
    -- After a successful `Put` the key reads back as the value.
    pub get-put :
        (s : BaseStore d) (key val : Bytes)
        → (put d s key val).1 ≡ none
        → get d (put d s key val).0 key ≡ ok val
    unfolding get
    get-put s key val h =
        let (absent, wrote, same) = put_fresh s key val h in
        rw (same, lawful.get-put s.dt (d.new_key key) val (d.new_key key) wrote, bytes_eq_refl)

    -- A second `Put` under the same key is refused with ErrAlreadyExist and changes nothing.
    pub put-put :
        (s : BaseStore d) (key val other : Bytes)
        → (put d s key val).1 ≡ none
        → put d (put d s key val).0 key other ≡ ((put d s key val).0, some already_exist)
    unfolding has
    put-put s key val other h =
        let (absent, wrote, same) = put_fresh s key val h in
        put_exists (put d s key val).0 key other
          (rw (same, lawful.has-put s.dt (d.new_key key) val (d.new_key key) wrote, bytes_eq_refl))

    raw_get :
        (s : BaseStore d) (key v : Bytes)
        → get d s key ≡ ok v
        → d.get s.dt (d.new_key key) ≡ ok (some v)
    unfolding get
    raw_get s key v h = ground arith

    -- No successful `Put`, under whatever key, changes what another key reads as.
    pub put_keeps :
        (s : BaseStore d) (key val other v : Bytes)
        → (put d s key val).1 ≡ none
        → get d s other ≡ ok v
        → get d (put d s key val).0 other ≡ ok v
    unfolding get has
    put_keeps s key val other v h stored =
        let (absent, wrote, same) = put_fresh s key val h in
        let raw = raw_get s other v stored in
        rw (same, lawful.get-put s.dt (d.new_key key) val (d.new_key other) wrote)
          (elim (Bool-cases (bytes_eq (d.new_key other) (d.new_key key))) [
            | inl e ↦
                let same_key : d.new_key other ≡ d.new_key key = (bytes_eq_iff _ _).0 e in
                let there = lawful.has_of_get s.dt (d.new_key other) v raw in
                let here : d.has s.dt (d.new_key key) ≡ ok true =
                  subst (λ k. d.has s.dt k ≡ ok true) same_key there in
                absurd (present_absent _ here absent)
            | inr e ↦ rw (e, raw)
          ])
