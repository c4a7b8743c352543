-- ===== src/PubSub/Resets.antt =====
-- When `reset` finds peers.
use p2p_verse.Common.{
  ℕ, zero, suc, ◌<◌, ◌≡◌, refl, ◌↔◌, inl, inr, true, false, arith, Bool-cases, ap, sym, ◌∙◌, subst,
}
use p2p_verse.Common.Action.{Ending, returns, fails, panics, ◌>>=◌, resume}
use p2p_verse.External.Addresses.{Addresses}
use p2p_verse.External.Gossip.{Gossip}
use p2p_verse.PubSub.Room.{Member, has_peers, base_reset, reset_tries, reset, reset_rounds}

module _ {a : Addresses} (g : Gossip a) where
  -- So many resets, each of a room without peers and each without an error, lead to the room.
  pub data Resets : ℕ → Member g → Member g → Type 0 where
    here : {s : Member g} → Resets 0 s s
    again :
        {n : ℕ} {s t u : Member g}
        → has_peers g s ≡ false
        → base_reset g s ≡ (t, returns tt)
        → Resets n t u
        → Resets (suc n) s u

  -- The room has peers after fewer than so many resets.
  abbrev pub Reaches : ℕ → Member g → Member g → Type 0
  Reaches n s t = (k : ℕ) × (k < n) × Resets k s t × (has_peers g t ≡ true)

  Reaches-suc :
      {n : ℕ} {s t u : Member g}
      → has_peers g s ≡ false
      → base_reset g s ≡ (t, returns tt)
      → Reaches n t u
      → Reaches (suc n) s u
  Reaches-suc h e (k, l, r, p) = (suc k, omega (arith, l), Resets.again h e r, p)

  reset_tries-here :
      (n : ℕ) (s : Member g) → has_peers g s ≡ true → reset_tries g (suc n) s ≡ (s, returns tt)
  unfolding reset_tries
  reset_tries-here n s h = rw (h, reset_tries) refl

  reset_tries-again :
      (n : ℕ) (s : Member g) (r : Member g × Ending (Unit {0}))
      → has_peers g s ≡ false
      → base_reset g s ≡ r
      → reset_tries g (suc n) s ≡ resume r.1 (λ _. reset_tries g n) r.0
  unfolding reset_tries ◌>>=◌
  reset_tries-again n s r h e = rw (h, e, reset_tries) refl

  after :
      (n : ℕ) (s t : Member g) (r : Member g × Ending (Unit {0}))
      → ((u : Member g) → reset_tries g n u ≡ (t, returns tt) → Reaches n u t)
      → has_peers g s ≡ false
      → base_reset g s ≡ r
      → resume r.1 (λ _. reset_tries g n) r.0 ≡ (t, returns tt)
      → Reaches (suc n) s t
  after n s t (u, returns tt) rest h e k = Reaches-suc h e (rest u k)
  after n s t (u, fails x) rest h e k = cc
  after n s t (u, panics) rest h e k = cc

  finds : (n : ℕ) (s t : Member g) → reset_tries g n s ≡ (t, returns tt) → Reaches n s t
  unfolding reset_tries
  finds zero s t h = cc
  finds (suc n) s t h = elim (Bool-cases (has_peers g s)) [
    | inl yes' ↦
        let same = ap (λ r. r.0) (sym (reset_tries-here n s yes') ∙ h) in
        (
          0,
          omega arith,
          subst (Resets 0 s) same Resets.here,
          subst (λ u. has_peers g u ≡ true) same yes',
        )
    | inr no' ↦
        after n s t (base_reset g s) (λ u. finds n u t) no' refl
          (sym (reset_tries-again n s (base_reset g s) no' refl) ∙ h)
  ]

  found :
      (n : ℕ) (k : ℕ) (s t : Member g)
      → k < n
      → Resets k s t
      → has_peers g t ≡ true
      → reset_tries g n s ≡ (t, returns tt)
  unfolding reset_tries
  found zero k s t l r p = absurd (omega (arith, l))
  found (suc n) k s t l Resets.here p = reset_tries-here n s p
  found (suc n) k s t l (Resets.again {n = k'} {t = u} h e r) p =
      reset_tries-again n s (u, returns tt) h e ∙ found n k' u t (omega (arith, l)) r p

  -- `reset` returns without an error exactly if the room has peers after fewer than fifty resets
  -- that succeed, none of them of a room that has peers, and it returns that very room.
  pub reset_iff : (s t : Member g) → (reset g s ≡ (t, returns tt)) ↔ Reaches reset_rounds s t
  reset_iff s t = (finds reset_rounds s t, λ (k, l, r, p). found reset_rounds k s t l r p)
