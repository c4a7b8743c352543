-- ===== src/Crdt/Updatable/Latest.antt =====
-- `Query` of the updatable store gives the newest entry of each category, once.
use Prim.Native.Nat.{Ordering}
use p2p_verse.Common.{
  ◌≡◌, ◌≢◌, refl, ◌⊎◌, inl, inr, true, false, List, [], ◌∷◌, arith, Bytes, ok, ◌>>=◌, bytes_eq,
  bytes_eq_iff, bytes_eq_refl, keep, In, All, Bool-cases, sym, ap, ◌∙◌, subst, Result-cases,
  ok_injective,
}
use p2p_verse.External.Datastore.{Datastore, Entry, Query}
use p2p_verse.Crdt.Base.{BaseStore}
use p2p_verse.Crdt.Updatable.{
  is_full, category, updatable_order, latest, base_query, query, query_all,
}

-- No category twice.
abbrev pub IsDistinct : List Entry → Type 0
IsDistinct [] = Unit
IsDistinct (o ∷ os) = All (λ p. category p ≢ category o) os × IsDistinct os

-- No entry of the list is newer than `o`, unless it is `o` itself or of another category.
abbrev pub Covers : Entry → Entry → Type 0
Covers o r = (category o ≡ category r) × ((o ≡ r) ⊎ (updatable_order o r ≢ Ordering.gt))

skip_short :
    (c : Bytes) (r : Entry) (rs : List Entry) → is_full r ≡ false → latest c (r ∷ rs) ≡ latest c rs
unfolding latest
skip_short c r rs h = ground arith

skip_same :
    (c : Bytes) (r : Entry) (rs : List Entry)
    → bytes_eq c (category r) ≡ true
    → latest c (r ∷ rs) ≡ latest c rs
unfolding latest
skip_same c r rs h = ground arith

send :
    (c : Bytes) (r : Entry) (rs : List Entry)
    → is_full r ≡ true
    → bytes_eq c (category r) ≡ false
    → latest c (r ∷ rs) ≡ r ∷ latest (category r) rs
unfolding latest
send c r rs h k = ground arith

-- The two ways of a round: the result is passed over, or it is sent.
Turn : Bytes → Entry → List Entry → Type 0
Turn c r rs =
    ((latest c (r ∷ rs) ≡ latest c rs) × ((is_full r ≡ false) ⊎ (c ≡ category r)))
    ⊎ ((latest c (r ∷ rs) ≡ r ∷ latest (category r) rs) × (category r ≢ c))

differs : (c k : Bytes) → bytes_eq c k ≡ false → k ≢ c
differs c k h e = cc (bytes_eq_refl c, h, e)

Turn-cases : (c : Bytes) (r : Entry) (rs : List Entry) → Turn c r rs
unfolding Turn
Turn-cases c r rs = elim (Bool-cases (is_full r)) [
  | inr short ↦ inl (skip_short c r rs short, inl short)
  | inl full ↦ elim (Bool-cases (bytes_eq c (category r))) [
    | inl same ↦ inl (skip_same c r rs same, inr ((bytes_eq_iff _ _).0 same))
    | inr other ↦ inr (send c r rs full other, differs c (category r) other)
  ]
]

-- `latest` does not look at short keys.
latest-keep : (c : Bytes) (rs : List Entry) → latest c rs ≡ latest c (keep is_full rs)
unfolding keep
latest-keep c [] = refl
latest-keep c (r ∷ rs) = elim (Bool-cases (is_full r)) [
  | inr short ↦ skip_short c r rs short ∙ rw short (latest-keep c rs)
  | inl full ↦ elim (Bool-cases (bytes_eq c (category r))) [
    | inl same ↦
        rw full
          (skip_same c r rs same ∙ (latest-keep c rs ∙ sym (skip_same c r (keep is_full rs) same)))
    | inr other ↦ rw full (
        send c r rs full other
        ∙ (ap (λ (t : List Entry). r ∷ t) (latest-keep (category r) rs)
            ∙ sym (send c r (keep is_full rs) full other)))
  ]
]

-- What holds of every result holds of every one that is sent.
latest-All : (P : Entry → Type 0) (c : Bytes) (rs : List Entry) → All P rs → All P (latest c rs)
unfolding Turn
latest-All P c [] h = unfold latest in tt
latest-All P c (r ∷ rs) (p, h) = elim (Turn-cases c r rs) [
  | inl (e, why) ↦ rw e (latest-All P c rs h)
  | inr (e, new) ↦ rw e (p, latest-All P (category r) rs h)
]

All-from : (P : Entry → Type 0) (rs : List Entry) → ((r : Entry) → In r rs → P r) → All P rs
All-from P [] h = tt
All-from P (r ∷ rs) h = (h r (inl refl), All-from P rs (λ b m. h b (inr m)))

All-self : (rs : List Entry) → All (λ o. In o rs) rs
All-self rs = All-from (λ o. In o rs) rs (λ r m. m)

module _ (d : Datastore) where
  -- `Query` is the pass of `latest` over what `QueryAll` gives, on every branch: where one fails
  -- so does the other, with the same error.
  pub query-query_all :
      (s : BaseStore d) (qs : List Query)
      → query d s qs ≡ (query_all d s qs >>= λ rs. ok (latest [] rs))
  unfolding query query_all
  query-query_all s qs = elim (Result-cases (base_query d s qs)) [
    | inl (rs, e) ↦ rw (e, latest-keep [] rs)
    | inr (e', e) ↦ rw e
  ]

  -- Whatever the order of the answer, every entry that `Query` sends is one of the answer's.
  pub query_In :
      (s : BaseStore d) (qs : List Query) (rs out : List Entry)
      → base_query d s qs ≡ ok rs
      → query d s qs ≡ ok out
      → All (λ o. In o rs) out
  unfolding query
  query_In s qs rs out answered sent =
      let shown : ok (latest [] rs) ≡ ok out = sym (rw answered) ∙ sent in
      subst (All (λ o. In o rs)) (ok_injective _ _ shown)
        (latest-All (λ o. In o rs) [] rs (All-self rs))
