-- ===== src/Crdt/UpdatableSignature/Stored.antt =====
-- What `Put` of the updatable signature store leaves in the datastore.
use p2p_verse.Common.{
  ◌≡◌, refl, none, some, ◌∷◌, ◌++◌, arith, Bytes, Result, ok, err, ap, ◌∙◌, subst, append_assoc,
}
use p2p_verse.Std.Base64.{encode}
use p2p_verse.Std.Text.{slash, IsClean}
use p2p_verse.Std.Time.{Time}
use p2p_verse.Std.Time.RoundTrip.{IsValid}
use p2p_verse.External.Crypto
use p2p_verse.External.Crypto.{External, PrivKey, PubKey, IsPair}
use p2p_verse.External.Datastore
use p2p_verse.External.Datastore.{Datastore}
use p2p_verse.Crdt.Crypto.{pub_key_to_str}
use p2p_verse.Crdt.Base
use p2p_verse.Crdt.Signature.{seal}
use p2p_verse.Crdt.Signature.Stored.{seal_ok, IsClean-name, parts_of_name, Sealed-IsSigned}
use p2p_verse.Crdt.Signature.Valid.{IsSigned}
use p2p_verse.Crdt.Updatable
use p2p_verse.Crdt.Updatable.Stamped.{
  IsDated, stamped_key_ok, stamped-IsClean, stamped-IsDated, put_wrote,
}
use p2p_verse.Crdt.UpdatableSignature.{UpdatableSignatureStore, put_sealed, put}

module _ (x : External) (d : Datastore) where
  put_sealed_wrote :
      (now : Time) (s : UpdatableSignatureStore d) (r : Result (Bytes × Bytes))
      → (put_sealed x d now s r).1 ≡ none
      → (full msd : Bytes) × (r ≡ ok (full, msd))
        × ((Updatable.put d now s.base full msd).1 ≡ none)
        × ((put_sealed x d now s r).0.base ≡ (Updatable.put d now s.base full msd).0)
  unfolding put_sealed
  put_sealed_wrote now s (err e) h = absurd (ground arith)
  put_sealed_wrote now s (ok (full, msd)) h = (full, msd, refl, h, refl)

  module _ (lawful : Crypto.IsLawful x) (stored : Datastore.IsLawful d) where
    -- A successful `Put` of a matching key pair under a clean key is one of the base store, of an
    -- entry that carries the writer's signature and whose key ends in the time of the clock.
    pub put_base :
        (now : Time) (s : UpdatableSignatureStore d) (priv : PrivKey) (key : PubKey) (k val : Bytes)
        → IsValid now
        → s.priv ≡ some priv
        → s.key ≡ some key
        → IsPair x priv key
        → IsClean k
        → (put x d now s k val).1 ≡ none
        → (at m : Bytes) × ((Base.put d s.base at m).1 ≡ none)
          × ((put x d now s k val).0.base ≡ (Base.put d s.base at m).0)
          × IsSigned x (d.new_key at) m
          × IsDated (d.new_key at)
    unfolding put
    put_base now s priv key k val v owned is pair clean h =
        let (full, msd, sealed, wrote, same) = put_sealed_wrote now s _ h in
        let (at, stamped, wrote', same') = put_wrote d now s.base full msd wrote in
        let (tb, made, at_is) = stamped_key_ok now full at stamped in
        let q = seal_ok x priv (some key) k val full msd (
          subst (λ p. seal x p (some key) k val ≡ ok (full, msd)) owned
            (subst (λ p. seal x s.priv p k val ≡ ok (full, msd)) is sealed)) in
        let id = pub_key_to_str x (some key) in
        let long : at ≡ id ++ (slash ∷ (k ++ (slash ∷ encode tb))) =
          at_is
          ∙ (ap (λ (f : Bytes). f ++ (slash ∷ encode tb)) q.placed
              ∙ append_assoc id (slash ∷ k) (slash ∷ encode tb)) in
        let tail = stamped-IsClean now k tb made clean in
        let spelled : d.new_key at ≡ slash ∷ at =
          stored.new_key_clean at (rw long (IsClean-name x d lawful stored key _ q.named tail)) in
        (
          at,
          msd,
          wrote',
          same ∙ same',
          Sealed-IsSigned x d lawful stored priv key k val full msd (d.new_key at) pair q
              (rw (spelled, long) (parts_of_name x d lawful stored key _ q.named)),
          rw (spelled, at_is) (stamped-IsDated now full tb v made),
        )
