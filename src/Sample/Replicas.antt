-- ===== src/Sample/Replicas.antt =====
-- A replica over the datastore in memory: a message is one head, whose delta and whose ancestors'
-- deltas are given by functions. Merging writes all the elements, one after the other, under their
-- cleaned keys.
use p2p_verse.Common.{
  ◌≡◌, ◌≢◌, ◌⊎◌, refl, inl, inr, Bool, true, false, Option, some, List, [], ◌∷◌, ◌++◌, arith, Bytes,
  In, Result, ok, bytes_eq, bytes_eq_iff, if◌then◌else◌, Bool-cases, sym, subst, ap, ◌∙◌,
}
use p2p_verse.Std.Text.{slash}
use p2p_verse.Sample.Paths.{
  canon, canon-canon, canon-cases, canon-nil, canon-slash, canon_clean, canon_parent,
  append_cancel_left, append_cancel_right,
}
use p2p_verse.Sample.Memory.{Writes, memory, lookup}
use p2p_verse.Crdt.Setup.{Element, Delta, value_key}
use p2p_verse.Crdt.Replication
use p2p_verse.Crdt.Replication.{Replica, IsKey, IsHeld, elements_of}

abbrev child : Bytes → Bytes → Bytes
child a b = a ++ (slash ∷ canon b)

-- The key as `ds.NewKey` spells it.
abbrev spelled : Bytes → Bytes
spelled key = slash ∷ canon key

-- Whether a write under the key `j` is one of these, where `place` says how the keys are kept.
unfoldable pub holds : (Bytes → Bytes) → Writes → Bytes → Bool
holds place [] j = false
holds place ((k, v) ∷ s) j =
    let rest = holds place s j in if bytes_eq j (place k) then true else rest

unfoldable pub write_all : List Element → Writes → Writes
write_all [] s = s
write_all (e ∷ es) s = (spelled e.key, e.value) ∷ write_all es s

-- Where a key of the store "st" is kept.
abbrev place : Bytes → Bytes
place key =
    child (child (child (child (slash ∷ b's' ∷ b't' ∷ []) (b's' ∷ [])) (b'k' ∷ [])) key) (b'v' ∷ [])

module _ (delta_of : Bytes → Delta) (ancestors : Bytes → List Delta) where
  abbrev pub chain : Replica memory
  chain = record {
    name = b's' ∷ b't' ∷ [];
    self = b'a' ∷ [];
    exchange = λ s. record {
      unmarshal_broadcast = λ m. ok (record { unknown = []; heads = m ∷ [] });
      cast = λ c. ok c;
      fetch = λ c. ok (some c);
      unmarshal_delta = λ m. ok (delta_of m);
      has = λ k. ok (holds place s k);
      child_string = child;
    };
    brings = λ s m. delta_of m ∷ ancestors m;
    merge = λ s m. write_all (elements_of (delta_of m ∷ ancestors m)) s;
  }

holds-lookup :
    (place : Bytes → Bytes) (s : Writes) (key val : Bytes)
    → lookup key s ≡ some val
    → holds place s (place key) ≡ true
unfolding holds lookup
holds-lookup place [] key val h = cc
holds-lookup place ((k, v) ∷ s) key val h = elim (Bool-cases (bytes_eq key k)) [
  | inl e ↦
      let here : bytes_eq (place key) (place k) ≡ true =
        (bytes_eq_iff _ _).1 (ap place ((bytes_eq_iff key k).0 e)) in
      rw here
  | inr e ↦ elim (Bool-cases (bytes_eq (place key) (place k))) [
    | inl y ↦ rw y
    | inr n ↦ rw n (holds-lookup place s key val (rw e at h))
  ]
]

place_eq : (j k : Bytes) → canon j ≡ canon k → place j ≡ place k
place_eq j k h =
    ap
      (λ (c : Bytes).
        child (child (child (slash ∷ b's' ∷ b't' ∷ []) (b's' ∷ [])) (b'k' ∷ []) ++ (slash ∷ c))
          (b'v' ∷ []))
      h

place_injective : (j k : Bytes) → place j ≡ place k → canon j ≡ canon k
place_injective j k h = tail_of (canon j) (canon k) (
    append_cancel_left (child (child (slash ∷ b's' ∷ b't' ∷ []) (b's' ∷ [])) (b'k' ∷ []))
      (slash ∷ canon j) (slash ∷ canon k) (append_cancel_right _ _ (slash ∷ canon (b'v' ∷ [])) h))
  where
    tail_of : (s t : Bytes) → ◌≡◌ {A = Bytes} (slash ∷ s) (slash ∷ t) → s ≡ t
    tail_of s t e = cc

IsKey-canon : (key : Bytes) → IsKey key → key ≡ spelled key
IsKey-canon _ IsKey.root = ap (λ (c : Bytes). slash ∷ c) (sym (canon-slash [] ∙ canon-nil))
IsKey-canon _ (IsKey.path {k} clean) =
    ap (λ (c : Bytes). slash ∷ c) (sym (canon-slash k ∙ canon_clean k clean))

spelled-IsKey : (key : Bytes) → IsKey (spelled key)
spelled-IsKey key = elim (canon-cases key) [
  | inl nil ↦ rw nil IsKey.root
  | inr clean ↦ IsKey.path clean
]

lookup-write_all_ne :
    (es : List Element) (s : Writes) (key : Bytes)
    → ((e : Element) → In e es → place e.key ≢ place key)
    → lookup key (write_all es s) ≡ lookup key s
unfolding write_all lookup
lookup-write_all_ne [] s key h = refl
lookup-write_all_ne (e ∷ es) s key h = elim (Bool-cases (bytes_eq key (spelled e.key))) [
  | inl y ↦ absurd (
      h e (inl refl) (
        place_eq e.key key
          (sym (ap canon ((bytes_eq_iff key (spelled e.key)).0 y) ∙ canon-canon e.key))))
  | inr n ↦ rw n (lookup-write_all_ne es s key (λ f m. h f (inr m)))
]

some_injective : (v w : Bytes) → Option.some v ≡ some w → v ≡ w
some_injective v w h = cc

-- The entry of a merged message that a value comes from.
abbrev From : List Element → Bytes → Bytes → Type 0
From es key val =
    IsKey key × ((e : Element) × In e es × (place e.key ≡ place key) × (e.value ≡ val))

From-later :
    (e : Element) (es : List Element) (key val : Bytes) → From es key val → From (e ∷ es) key val
From-later e es key val (spelt, (f, m, p, q)) = (spelt, (f, inr m, p, q))

From-first :
    (e : Element) (es : List Element) (key : Bytes)
    → key ≡ spelled e.key
    → From (e ∷ es) key e.value
From-first e es key same = (
  subst IsKey (sym same) (spelled-IsKey e.key),
  (e, inl refl, place_eq e.key key (sym (ap canon same ∙ canon-canon e.key)), refl),
)

lookup-write_all :
    (es : List Element) (s : Writes) (key val : Bytes)
    → lookup key (write_all es s) ≡ some val
    → (lookup key s ≡ some val) ⊎ From es key val
unfolding write_all lookup
lookup-write_all [] s key val h = inl h
lookup-write_all (e ∷ es) s key val h = elim (Bool-cases (bytes_eq key (spelled e.key))) [
  | inl y ↦ inr (
      subst (From (e ∷ es) key) (some_injective _ _ (sym (rw y) ∙ h))
        (From-first e es key ((bytes_eq_iff key (spelled e.key)).0 y)))
  | inr n ↦ elim (lookup-write_all es s key val (rw n at h)) [
    | inl before ↦ inl before
    | inr found ↦ inr (From-later e es key val found)
  ]
]

write_all-lookup :
    (es : List Element) (s : Writes) (e : Element)
    → In e es
    → (val : Bytes) × (lookup (spelled e.key) (write_all es s) ≡ some val)
unfolding write_all lookup
write_all-lookup [] s e m = absurd m
write_all-lookup (f ∷ es) s e m = elim (Bool-cases (bytes_eq (spelled e.key) (spelled f.key))) [
  | inl y ↦ (f.value, rw y refl)
  | inr n ↦ elim m [
    | inl same ↦ absurd (
        ground (
          arith,
          bytes_eq_iff (spelled e.key) (spelled f.key),
          ap (λ (g : Element). spelled g.key) same,
        ))
    | inr there ↦ let (val, found) = write_all-lookup es s e there in (val, rw n found)
  ]
]

ok_some : (a b : Option Bytes) → Result.ok a ≡ ok b → a ≡ b
ok_some a b h = cc

module _ (delta_of : Bytes → Delta) (ancestors : Bytes → List Delta) where
  pub chain-IsLawful : Replication.IsLawful (chain delta_of ancestors)
  unfolding value_key
  chain-IsLawful = record {
    held = λ s key val h. holds-lookup place s key val (ok_some _ _ h);
    slot_clean = λ s k clean. place_eq k (slash ∷ k) (sym (canon-slash k));
    slot_injective = λ s j k a b h.
        IsKey-canon j a
        ∙ (ap (λ (c : Bytes). slash ∷ c) (place_injective j k h) ∙ sym (IsKey-canon k b));
    slot_parent = λ s p k part plain. place_eq _ _ (canon_parent p k part plain);
    untouched = λ s msg key val adds away h.
        ap (λ (o : Option Bytes). Result.ok o) (lookup-write_all_ne _ s key away) ∙ h;
    source = λ s msg key val adds h. elim (lookup-write_all _ s key val (ok_some _ _ h)) [
      | inl before ↦ inl (ap (λ (o : Option Bytes). Result.ok o) before)
      | inr found ↦ inr found
    ];
    arrives = λ s msg key e adds m spelt same.
        let (val, found) = write_all-lookup _ s e m in
        let at : key ≡ spelled e.key =
          IsKey-canon key spelt
          ∙ ap (λ (c : Bytes). slash ∷ c) (sym (place_injective e.key key same)) in
        (val, rw at (ap (λ (o : Option Bytes). Result.ok o) found));
    get-sync = λ s key j. refl;
  }
