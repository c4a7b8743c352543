-- ===== src/Crdt/Setup/Validator.antt =====
-- Which messages the topic validator takes.
use p2p_verse.Common.{
  ◌≡◌, ◌≢◌, refl, ◌↔◌, inl, inr, Bool, true, false, List, [], ◌∷◌, Bytes, Error, Result, ok, err,
  length, ltb, bytes_eq, bytes_eq_iff, arith, All, sym, subst, ok_injective, Result-cases,
  Bool-cases, ◌∙◌,
}
use p2p_verse.Crdt.Base.{is_true}
use p2p_verse.Crdt.Setup.{
  Element, Delta, Exchange, value_key, validate, validate_elements, validate_deltas, fetch_deltas,
  delta_of, msg_to_crdt_heads, msg_to_deltas, validator_func,
}

-- An entry that the store's validator takes and that the local datastore does not hold yet.
abbrev pub IsNewEntry : Exchange → (Bytes → Bytes → Bool) → Bytes → Element → Type 0
IsNewEntry w v ns e = (v e.key e.value ≡ true) × (is_true (w.has (value_key w ns e.key)) ≡ false)

-- A delta that only adds such entries.
abbrev pub IsAppend : Exchange → (Bytes → Bytes → Bool) → Bytes → Delta → Type 0
IsAppend w v ns delta = All (IsNewEntry w v ns) delta.elements × (delta.tombstones ≡ [])

err-ne-ok : (e : Error) (ds : List Delta) → ◌≡◌ {A = Result (List Delta)} (err e) (ok ds) → ⊥
err-ne-ok e ds h = cc

module _ (w : Exchange) (v : Bytes → Bytes → Bool) (ns : Bytes) where
  validate_elements_iff :
      (es : List Element) → (validate_elements w v ns es ≡ true) ↔ All (IsNewEntry w v ns) es
  unfolding validate_elements validate
  validate_elements_iff [] = (λ _. tt, λ _. refl)
  validate_elements_iff (e ∷ es) = ground (arith, validate_elements_iff es)

  no_tombstones : (ts : List Element) → ltb 0 (length ts) ≡ false → ts ≡ []
  no_tombstones [] h = refl
  no_tombstones (t ∷ ts) h = absurd (ground arith)

  validate_deltas_iff :
      (ds : List Delta) → (validate_deltas w v ns ds ≡ true) ↔ All (IsAppend w v ns) ds
  unfolding validate_deltas
  validate_deltas_iff [] = (λ _. tt, λ _. refl)
  validate_deltas_iff (delta ∷ ds) = ground (
    arith,
    validate_deltas_iff ds,
    validate_elements_iff delta.elements,
    no_tombstones delta.tombstones,
  )

  -- Of a message of another peer exactly those are taken whose heads decode and whose deltas, as
  -- far as they can be fetched and read, only append: every entry passes the store's validator and
  -- is not yet in the local datastore, and nothing is deleted.
  pub validator_func_iff :
      (hid pid msg : Bytes)
      → hid ≢ pid
      → (validator_func w hid v ns pid msg ≡ true)
        ↔ ((ds : List Delta) × (msg_to_deltas w msg ≡ ok ds) × All (IsAppend w v ns) ds)
  unfolding validator_func
  validator_func_iff hid pid msg other = elim (Result-cases (msg_to_deltas w msg)) [
    | inl (ds, e) ↦ (
      λ h. (ds, e, (validate_deltas_iff ds).0 (ground (arith, bytes_eq_iff hid pid))),
      λ (ds', e', all).
          let same = ok_injective _ _ (sym e ∙ e') in
          let kept = (validate_deltas_iff ds).1 (subst (All (IsAppend w v ns)) (sym same) all) in
          ground (arith, bytes_eq_iff hid pid),
    )
    | inr (e', e) ↦ (
      λ h. absurd (ground (arith, bytes_eq_iff hid pid)),
      λ (ds, e2, all). absurd (err-ne-ok e' ds (sym e ∙ e2)),
    )
  ]

  fetch_deltas_none :
      (heads : List Bytes)
      → All (λ c. (e : Error) × (delta_of w (w.fetch c) ≡ err e)) heads
      → fetch_deltas w heads ≡ []
  unfolding fetch_deltas
  fetch_deltas_none [] h = refl
  fetch_deltas_none (c ∷ cs) ((e', e), h) = rw (e, fetch_deltas) (fetch_deltas_none cs h)

  -- If no head of a message can be fetched and read, the message is taken without any check.
  pub validator_func_unfetched :
      (hid pid msg : Bytes) (heads : List Bytes)
      → msg_to_crdt_heads w msg ≡ ok heads
      → All (λ c. (e : Error) × (delta_of w (w.fetch c) ≡ err e)) heads
      → validator_func w hid v ns pid msg ≡ true
  unfolding validator_func msg_to_deltas
  validator_func_unfetched hid pid msg heads read missing =
      rw (read, fetch_deltas_none heads missing)
        (elim (Bool-cases (bytes_eq hid pid)) [
          | inl e ↦ rw e
          | inr e ↦ rw e (unfold validate_deltas in refl)
        ])
