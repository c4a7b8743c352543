-- ===== src/Crdt/Making/Granting.antt =====
-- `NewAccessStore` (crdt/access.go) of a store at its place, which it closes when a grant fails. The
-- channel of accesses is the list of what it delivers, each with the random bytes of its grant.
use p2p_verse.Common.{
  ℕ, ◌≡◌, refl, ◌⊎◌, inl, inr, Option, none, some, List, [], Bytes, Error, invalid_base_store,
  Result, ok, err, get_elem?, set_elem, get_elem?-set_elem, ap, ◌∙◌,
}
use p2p_verse.Common.Action.{Ending, returns, fails, Action}
use p2p_verse.External.Addresses.{Addresses}
use p2p_verse.External.Crypto.{External, PrivKey, PubKey}
use p2p_verse.External.Datastore.{Datastore}
use p2p_verse.External.Setup.{Setup}
use p2p_verse.Crdt.Access
use p2p_verse.Crdt.Access.{AccessBase, AccessStore}
use p2p_verse.Crdt.Access.Bases.{hash_base, signature_base, updatable_signature_base}
use p2p_verse.Crdt.Access.Creation.{new_access_store_sealed, new_access_store-priv}
use p2p_verse.Crdt.Options.{StoreOpts, get_access_opts}
use p2p_verse.Crdt.Opening
use p2p_verse.Crdt.Opening.{Handles}
use p2p_verse.Crdt.Making.{
  Sources, AnyStore, log_store, updatable_store, hash_store, signature_store,
  updatable_signature_store, Pointer, Shop,
}
use p2p_verse.Crdt.Making.Wrapped.{IsAccessBase}

module _ (x : External) {a : Addresses} (g : Setup a) (d : Datastore) (c : Sources g d) where
  -- After the loop of grants: the access store, or `ac.Close()`. The entries that were granted are
  -- those of the store at its place.
  unfoldable pub granted :
      (b : AccessBase)
      → (b.State → AnyStore d)
      → ℕ
      → Handles g
      → Result (AccessStore b)
      → Action (Shop g d) Pointer
  granted b into i h (ok ac) w = (
    record w { stores = set_elem i (h, into ac.base) w.stores },
    returns (record { place = i; master = some (ac.priv, ac.key) }),
  )
  granted b into i h (err e) w = (record w { world = Opening.close g h w.world }, fails e)

  -- The type test and the loop, with the key pair of `getAccessOpts`
  unfoldable pub grant_to :
      ℕ
      → Handles g
      → AnyStore d
      → Option PrivKey × Option PubKey
      → List (Bytes × Bytes)
      → Action (Shop g d) Pointer
  grant_to i h (log_store s) keys accesses w = (w, fails invalid_base_store)
  grant_to i h (updatable_store s) keys accesses w = (w, fails invalid_base_store)
  grant_to i h (hash_store s) keys accesses w =
      granted (hash_base x d) hash_store i h
        (Access.new_access_store x d (hash_base x d) s keys accesses) w
  grant_to i h (signature_store s) keys accesses w =
      granted (signature_base x d) signature_store i h
        (Access.new_access_store x d (signature_base x d) s keys accesses) w
  grant_to i h (updatable_signature_store s) keys accesses w =
      let b = updatable_signature_base x d (c.now w.world.outside) in
      granted b updatable_signature_store i h (Access.new_access_store x d b s keys accesses) w

  abbrev pub keys_of : List StoreOpts → Shop g d → Option PrivKey × Option PubKey
  keys_of opts w =
      let (opts', priv, key) = get_access_opts x (c.fresh w.world.outside) opts in (priv, key)

  new_access_in :
      ℕ
      → Option (Handles g × AnyStore d)
      → List (Bytes × Bytes)
      → List StoreOpts
      → Action (Shop g d) Pointer
  new_access_in i none accesses opts w = (w, fails invalid_base_store)
  new_access_in i (some (h, st)) accesses opts w = grant_to i h st (keys_of opts w) accesses w

  -- `NewAccessStore`
  unfoldable pub new_access_at :
      ℕ → List (Bytes × Bytes) → List StoreOpts → Action (Shop g d) Pointer
  unfolding new_access_in
  new_access_at i accesses opts w = new_access_in i (get_elem? w.stores i) accesses opts w

  -- The access store was made: it keeps the public key and no private key, and its store is open.
  pub record Seals (i : ℕ) (h : Handles g) (key : Option PubKey) (w u : Shop g d) (q : Pointer)
      : Type 0 where
    pub sealed : q ≡ record { place = i; master = some (none, key) }
    pub held_open : u.world ≡ w.world
    pub kept : (st : AnyStore d) × IsAccessBase st × (get_elem? u.stores i ≡ some (h, st))

  -- How it ends: with such an access store, or with an error and the store closed.
  abbrev pub SealsOrCloses :
      ℕ → Handles g → Option PubKey → Shop g d → Shop g d × Ending Pointer → Type 0
  SealsOrCloses i h key w r =
      ((q : Pointer) × (r.1 ≡ returns q) × Seals i h key w r.0 q)
      ⊎ ((e : Error) × (r.1 ≡ fails e) × (r.0.world ≡ Opening.close g h w.world))

  granted-SealsOrCloses :
      (b : AccessBase) (into : b.State → AnyStore d) (i : ℕ) (h : Handles g) (st : AnyStore d)
      (base : b.State) (priv : Option PrivKey) (key : Option PubKey)
      (accesses : List (Bytes × Bytes)) (w : Shop g d) (r : Result (AccessStore b))
      → ((s : b.State) → IsAccessBase (into s))
      → get_elem? w.stores i ≡ some (h, st)
      → Access.new_access_store x d b base (priv, key) accesses ≡ r
      → SealsOrCloses i h key w (granted b into i h r w)
  unfolding granted
  granted-SealsOrCloses b into i h st base priv key accesses w (err e) kind there made =
      inr (e, refl, refl)
  granted-SealsOrCloses b into i h st base priv key accesses w (ok ac) kind there made =
      let same = (new_access_store_sealed x d b base priv key accesses ac [] [] made).1 in
      let gone = new_access_store-priv x d b base priv key accesses ac made in
      inl (
        _,
        refl,
        record {
          sealed =
              ap (λ p. record { place = i; master = some (p, ac.key) }) gone
              ∙ ap (λ k. record { place = i; master = some (none, k) }) same;
          held_open = refl;
          kept = (into ac.base, kind ac.base, get_elem?-set_elem w.stores i (h, st) _ there);
        },
      )

  -- NewAccessStore of an open store of a kind that has access entries returns an access store with
  -- the public key of the options and no private key, or fails and has closed the store.
  pub new_access_at-SealsOrCloses :
      (i : ℕ) (h : Handles g) (st : AnyStore d) (accesses : List (Bytes × Bytes))
      (opts : List StoreOpts) (w : Shop g d)
      → get_elem? w.stores i ≡ some (h, st)
      → IsAccessBase st
      → SealsOrCloses i h (keys_of opts w).1 w (new_access_at i accesses opts w)
  unfolding new_access_at grant_to
  new_access_at-SealsOrCloses i h (log_store s) accesses opts w there kind = absurd kind
  new_access_at-SealsOrCloses i h (updatable_store s) accesses opts w there kind = absurd kind
  new_access_at-SealsOrCloses i h (hash_store s) accesses opts w there kind = rw there (
      granted-SealsOrCloses (hash_base x d) hash_store i h (hash_store s) s _ _ accesses w _
        (λ t. tt) there refl)
  new_access_at-SealsOrCloses i h (signature_store s) accesses opts w there kind = rw there (
      granted-SealsOrCloses (signature_base x d) signature_store i h (signature_store s) s _ _
        accesses w _ (λ t. tt) there refl)
  new_access_at-SealsOrCloses i h (updatable_signature_store s) accesses opts w there kind =
      let b = updatable_signature_base x d (c.now w.world.outside) in
      rw there (
        granted-SealsOrCloses b updatable_signature_store i h (updatable_signature_store s) s _ _
          accesses w _ (λ t. tt) there refl)
