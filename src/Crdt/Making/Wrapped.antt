-- ===== src/Crdt/Making/Wrapped.antt =====
-- `NewStore` of an address that names a master key.
use p2p_verse.Common.{
  ◌≡◌, ◌≢◌, ℕ, refl, ◌⊎◌, inl, inr, Option, none, some, [], ◌∷◌, Bytes, Error, Result, ok, err,
  get_elem?, Result-cases, ok_injective, sym, ap, ◌∙◌,
}
use p2p_verse.Common.Action.{returns, fails, bind-returns}
use p2p_verse.Std.Time.{Time}
use p2p_verse.External.Addresses.{Addresses}
use p2p_verse.External.Crypto.{External, PrivKey, PubKey}
use p2p_verse.External.Datastore.{Datastore}
use p2p_verse.External.Setup.{Setup}
use p2p_verse.Crdt.Access
use p2p_verse.Crdt.Access.{AccessBase}
use p2p_verse.Crdt.Address.{Parsed, parse_address}
use p2p_verse.Crdt.Crypto.{str_to_pub_key}
use p2p_verse.Crdt.Options.{StoreOpts}
use p2p_verse.Crdt.Opening.{CrdtVerse, Handles}
use p2p_verse.Crdt.Verse.{
  Stores, salt_of, load_store, settle, finish, grant_access, new_or_load, make_store,
}
use p2p_verse.Crdt.Making.{
  Sources, AnyStore, log_store, updatable_store, hash_store, signature_store,
  updatable_signature_store, Pointer, Shop,
}
use p2p_verse.Crdt.Making.Instance.{any_stores, wrap_in, wrap, wrap_at}

-- A store of one of the kinds that have access entries.
abbrev pub IsAccessBase : {d : Datastore} → AnyStore d → Type 0
IsAccessBase (log_store s) = ⊥
IsAccessBase (updatable_store s) = ⊥
IsAccessBase (hash_store s) = Unit
IsAccessBase (signature_store s) = Unit
IsAccessBase (updatable_signature_store s) = Unit

-- The options with what the address says.
abbrev pub named_opts : Parsed → StoreOpts → StoreOpts
named_opts p opt = record opt { salt = salt_of p.salt; time_limit = p.time_limit }

module _ {W S : Type 0} (o : Stores W S) where
  -- After the wrapping, a store that was wrapped is kept in sync, and an error is returned.
  finished :
      (pid : Bytes) (opt : StoreOpts) (s : S) (e : Option Error) (w : W) (r : Result S)
      → pid ≢ []
      → o.load_access_store s pid opt w ≡ (w, r)
      → finish o pid opt (s, e) w ≡ grant_access o s opt (w, r)
  unfolding finish
  finished [] opt s e w r named h = absurd (named refl)
  finished (c ∷ pid) opt s e w r named h = ap (grant_access o s opt) h

module _ (x : External) {a : Addresses} (g : Setup a) (d : Datastore) (c : Sources g d) where
  -- A store was wrapped: it is of a kind that can be, and the master key is that of the identity.
  pub record Wraps (i : ℕ) (pid : Bytes) (w : Shop g d) (q : Pointer) : Type 0 where
    pub store : AnyStore d
    pub handles : Handles g
    pub priv : Option PrivKey
    pub key : PubKey
    pub there : get_elem? w.stores i ≡ some (handles, store)
    pub is_base : IsAccessBase store
    pub named : str_to_pub_key x pid ≡ ok key
    pub wrapped : q ≡ record { place = i; master = some (priv, some key) }

  -- No store was wrapped: one of such a kind means that the identity is that of no key.
  abbrev pub Refuses : ℕ → Bytes → Shop g d → Error → Type 0
  Refuses i pid w z =
      (h : Handles g) (st : AnyStore d)
      → get_elem? w.stores i ≡ some (h, st)
      → IsAccessBase st
      → str_to_pub_key x pid ≡ err z

  wrap_in-ok :
      (b : AccessBase) (base : b.State) (priv : Option PrivKey) (i : ℕ) (pid : Bytes) (q : Pointer)
      → wrap_in x g d c b base priv i pid ≡ ok q
      → (key : PubKey) × (str_to_pub_key x pid ≡ ok key)
        × (q ≡ record { place = i; master = some (priv, some key) })
  unfolding wrap_in Access.load_access_store
  wrap_in-ok b base priv i pid q h = elim (Result-cases (str_to_pub_key x pid)) [
    | inl (key, e) ↦ (key, e, sym (ok_injective _ _ (rw e at h)))
    | inr (z, e) ↦ absurd (err-ne-ok z q (rw e at h))
  ]
    where
      err-ne-ok : (z : Error) (q : Pointer) → ◌≡◌ {A = Result Pointer} (err z) (ok q) → ⊥
      err-ne-ok z q h = cc

  wrap_in-err :
      (b : AccessBase) (base : b.State) (priv : Option PrivKey) (i : ℕ) (pid : Bytes) (z : Error)
      → wrap_in x g d c b base priv i pid ≡ err z
      → str_to_pub_key x pid ≡ err z
  unfolding wrap_in Access.load_access_store
  wrap_in-err b base priv i pid z h = elim (Result-cases (str_to_pub_key x pid)) [
    | inl (key, e) ↦ absurd (ok-ne-err _ z (rw e at h))
    | inr (z', e) ↦ e ∙ ap (λ y. Result.err y) (err_injective z' z (rw e at h))
  ]
    where
      ok-ne-err : (q : Pointer) (z : Error) → ◌≡◌ {A = Result Pointer} (ok q) (err z) → ⊥
      ok-ne-err q z h = cc

      err_injective : (y z : Error) → ◌≡◌ {A = Result Pointer} (err y) (err z) → y ≡ z
      err_injective y z h = cc

  wrap-err :
      (i : ℕ) (st : AnyStore d) (pid : Bytes) (opt : StoreOpts) (now : Time) (fresh : Bytes)
      (z : Error)
      → wrap x g d c i st pid opt now fresh ≡ err z
      → IsAccessBase st
      → str_to_pub_key x pid ≡ err z
  unfolding wrap
  wrap-err i (log_store s) pid opt now fresh z k kind = absurd kind
  wrap-err i (updatable_store s) pid opt now fresh z k kind = absurd kind
  wrap-err i (hash_store s) pid opt now fresh z k kind = wrap_in-err _ s _ i pid z k
  wrap-err i (signature_store s) pid opt now fresh z k kind = wrap_in-err _ s _ i pid z k
  wrap-err i (updatable_signature_store s) pid opt now fresh z k kind = wrap_in-err _ s _ i pid z k

  wrap_at-err :
      (i : ℕ) (pid : Bytes) (opt : StoreOpts) (w : Shop g d) (z : Error)
      → wrap_at x g d c i (get_elem? w.stores i) pid opt w ≡ err z
      → (h : Handles g) (st : AnyStore d) → get_elem? w.stores i ≡ some (h, st)
      → IsAccessBase st
      → str_to_pub_key x pid ≡ err z
  unfolding wrap_at
  wrap_at-err i pid opt w z k h st there kind = wrap-err i st pid opt _ _ z (rw there at k) kind

  wrap_in-Wraps :
      (h : Handles g) (st : AnyStore d) (w : Shop g d) {i : ℕ}
      → get_elem? w.stores i ≡ some (h, st)
      → IsAccessBase st
      → (b : AccessBase) (base : b.State) (priv : Option PrivKey) (pid : Bytes) (q : Pointer)
      → wrap_in x g d c b base priv i pid ≡ ok q
      → Wraps i pid w q
  wrap_in-Wraps h st w there kind b base priv pid q k =
      let (key, named, wrapped) = wrap_in-ok b base priv _ pid q k in
      record {
        store = st;
        handles = h;
        priv = priv;
        key = key;
        there = there;
        is_base = kind;
        named = named;
        wrapped = wrapped;
      }

  wrap-ok :
      (i : ℕ) (h : Handles g) (st : AnyStore d) (pid : Bytes) (opt : StoreOpts) (now : Time)
      (fresh : Bytes) (w : Shop g d) (q : Pointer)
      → get_elem? w.stores i ≡ some (h, st)
      → wrap x g d c i st pid opt now fresh ≡ ok q
      → Wraps i pid w q
  unfolding wrap
  wrap-ok i h (log_store s) pid opt now fresh w q there k = cc
  wrap-ok i h (updatable_store s) pid opt now fresh w q there k = cc
  wrap-ok i h (hash_store s) pid opt now fresh w q there k =
      wrap_in-Wraps h (hash_store s) w there tt _ s _ pid q k
  wrap-ok i h (signature_store s) pid opt now fresh w q there k =
      wrap_in-Wraps h (signature_store s) w there tt _ s _ pid q k
  wrap-ok i h (updatable_signature_store s) pid opt now fresh w q there k =
      wrap_in-Wraps h (updatable_signature_store s) w there tt _ s _ pid q k

  wrap_at-ok :
      (i : ℕ) (o : Option (Handles g × AnyStore d)) (pid : Bytes) (opt : StoreOpts) (w : Shop g d)
      (q : Pointer)
      → get_elem? w.stores i ≡ o
      → wrap_at x g d c i o pid opt w ≡ ok q
      → Wraps i pid w q
  unfolding wrap_at
  wrap_at-ok i none pid opt w q there k = cc
  wrap_at-ok i (some (h, st)) pid opt w q there k = wrap-ok i h st pid opt _ _ w q there k

  -- `NewStore` of an address with the identity of a master key, once `loadStore` has returned a
  -- store, whatever error came with it: either it returns an access store round that one, which is
  -- of a kind that can be wrapped, with the public key of that identity; or it fails, because the
  -- store is of another kind or the identity is that of no key, and leaves the store open, with
  -- nothing changed since it was loaded.
  pub make_store-Wraps :
      (cv : CrdtVerse a) (name mode : Bytes) (opt : StoreOpts) (p : Parsed) (w u : Shop g d)
      (s : Pointer) (e : Option Error)
      → parse_address x name ≡ ok p
      → p.pid ≢ []
      → load_store (any_stores x g d c cv) p.name mode (named_opts p opt) w ≡ (u, returns (s, e))
      → let o = any_stores x g d c cv in
        ((q : Pointer) × Wraps s.place p.pid u q
          × (make_store x o name mode opt w ≡ (o.auto_sync q u, returns q)))
        ⊎ ((z : Error) × (make_store x o name mode opt w ≡ (u, fails z))
            × Refuses s.place p.pid u z)
  unfolding make_store new_or_load grant_access settle
  make_store-Wraps cv name mode opt p w u s e read named loaded =
      let o = any_stores x g d c cv in
      let opt' = named_opts p opt in
      let wrapping = wrap_at x g d c s.place (get_elem? u.stores s.place) p.pid opt' u in
      let ends : make_store x o name mode opt w ≡ grant_access o s opt' (u, wrapping) =
        ap (λ r. new_or_load o r name mode opt w) read
        ∙ bind-returns _ (finish o p.pid opt') w u (s, e) loaded
        ∙ finished o p.pid opt' s e u wrapping named refl in
      elim (Result-cases wrapping) [
        | inl (q, k) ↦ inl (
          q,
          wrap_at-ok s.place (get_elem? u.stores s.place) p.pid opt' u q refl k,
          ends ∙ ap (λ r. grant_access o s opt' (u, r)) k,
        )
        | inr (z, k) ↦ inr (
          z,
          ends ∙ ap (λ r. grant_access o s opt' (u, r)) k,
          λ h st there kind. wrap_at-err s.place p.pid opt' u z k h st there kind,
        )
      ]
