-- ===== src/Crdt/Making/Shared.antt =====
-- An access store that one peer made, at another peer: its address, and the store that `NewStore`
-- opens at it.
use p2p_verse.Common.{
  ◌≡◌, ◌≢◌, inl, inr, Option, some, [], Bytes, Error, Result, ok, err, get_elem?, sym, ap, subst,
  ◌∙◌, ok_injective,
}
use p2p_verse.Common.Action.{returns}
use p2p_verse.Std.Time.RoundTrip
use p2p_verse.External.Addresses.{Addresses}
use p2p_verse.External.Crypto
use p2p_verse.External.Crypto.{External, PrivKey, PubKey}
use p2p_verse.External.Datastore.{Datastore}
use p2p_verse.External.Setup.{Setup}
use p2p_verse.Crdt.Access
use p2p_verse.Crdt.Access.{AccessBase, AccessStore}
use p2p_verse.Crdt.Access.Creation.{parse_address-address}
use p2p_verse.Crdt.Address.{Parsed, parse_address}
use p2p_verse.Crdt.Crypto.{pub_key_to_str, str_to_pub_key, str_to_pub_key-pub_key_to_str}
use p2p_verse.Crdt.Options.{StoreOpts}
use p2p_verse.Crdt.Opening.{CrdtVerse, Handles}
use p2p_verse.Crdt.Verse.{load_store, make_store}
use p2p_verse.Crdt.Making.{Sources, AnyStore, Pointer, Shop}
use p2p_verse.Crdt.Making.Instance.{any_stores}
use p2p_verse.Crdt.Making.Wrapped.{IsAccessBase, named_opts, make_store-Wraps}

ok-ne-err : (k : PubKey) (z : Error) → Result.ok k ≡ err z → ⊥
ok-ne-err k z h = cc

module _ (x : External) (lawful : Crypto.IsLawful x) {a : Addresses} (g : Setup a) (d : Datastore)
    (c : Sources g d) where
  -- `NewStore` of the address of an access store returns, where the store that it loads is of a kind
  -- that can be wrapped, and whatever error came with it, an access store round it with the same
  -- public key.
  pub make_store-address :
      (b : AccessBase) (ac : AccessStore b) (key : PubKey) (at : Parsed) (cv : CrdtVerse a)
      (mode : Bytes) (opt : StoreOpts) (w u : Shop g d) (s : Pointer) (e : Option Error)
      (h : Handles g) (st : AnyStore d)
      → ac.key ≡ some key
      → pub_key_to_str x (some key) ≢ []
      → parse_address x (b.address ac.base) ≡ ok at
      → RoundTrip.IsValid at.time_limit
      → Access.address x d b ac ≢ []
      → load_store (any_stores x g d c cv) at.name mode (named_opts at opt) w ≡ (u, returns (s, e))
      → get_elem? u.stores s.place ≡ some (h, st)
      → IsAccessBase st
      → let o = any_stores x g d c cv in
        (priv : Option PrivKey) × (make_store x o (Access.address x d b ac) mode opt w ≡ (
          o.auto_sync (record { place = s.place; master = some (priv, some key) }) u,
          returns (record { place = s.place; master = some (priv, some key) }),
        ))
  make_store-address b ac key at cv mode opt w u s e h st mine named read valid made loaded there
        kind =
      let o = any_stores x g d c cv in
      let pid = pub_key_to_str x (some key) in
      let known : str_to_pub_key x pid ≡ ok key =
        str_to_pub_key-pub_key_to_str x lawful key named in
      let parsed : parse_address x (Access.address x d b ac) ≡ ok (record at { pid = pid }) =
        parse_address-address x d b lawful ac at read valid made
        ∙ ap (λ k. Result.ok (record at { pid = pub_key_to_str x k })) mine in
      elim (make_store-Wraps x g d c cv (Access.address x d b ac) mode opt (record at { pid = pid })
        w u s e parsed named loaded) [
          | inl (q, wraps, opened) ↦
              let same : wraps.key ≡ key = ok_injective _ _ (sym wraps.named ∙ known) in
              let shape : q ≡ record { place = s.place; master = some (wraps.priv, some key) } =
                wraps.wrapped
                ∙ ap (λ k. record { place = s.place; master = some (wraps.priv, some k) }) same in
              (
                wraps.priv,
                subst
                    (λ p.
                      make_store x o (Access.address x d b ac) mode opt w
                      ≡ (o.auto_sync p u, returns p))
                    shape opened,
              )
          | inr (z, failed, refuses) ↦
              absurd (ok-ne-err key z (sym known ∙ refuses h st there kind))
        ]
