-- ===== src/Sample/Paths.antt =====
-- `path.Clean` of a path below the root, without the slash before it.
use p2p_verse.Common.{
  ℕ, zero, suc, ◌≡◌, ◌≢◌, refl, ◌⊎◌, inl, inr, Bool, false, ◌||◌, List, [], ◌∷◌, ◌++◌, arith, Bytes,
  bytes_eq, bytes_eq_iff, ◌==◌, if◌then◌else◌, All, Lacks, Bool-cases, sym, ap, ◌∙◌, append-nil,
  append_assoc, length, length-append,
}
use p2p_verse.Std.Text.{slash, split, split_from, join, IsPart, IsClean, split-slash, split_one}

abbrev dot : Bytes
dot = b'.' ∷ []

abbrev dots : Bytes
dots = b'.' ∷ b'.' ∷ []

abbrev nothing : Bytes → Bool
nothing p = bytes_eq p [] || bytes_eq p dot

abbrev place_part : Bytes → ℕ × List Bytes → ℕ × List Bytes
place_part p (zero, ps) = (0, p ∷ ps)
place_part p (suc n, ps) = (n, ps)

abbrev resolve : Bytes → ℕ × List Bytes → ℕ × List Bytes
resolve p r = if nothing p then r else if bytes_eq p dots then (suc r.0, r.1) else place_part p r

-- The parts that are left, with how many ".." reach up before them.
unfoldable pub walk : List Bytes → ℕ × List Bytes
walk [] = (0, [])
walk (p ∷ ps) = resolve p (walk ps)

unfoldable pub canon : Bytes → Bytes
unfolding walk
canon key = join (walk (split key)).1

ne_false : (p q : Bytes) → p ≢ q → bytes_eq p q ≡ false
ne_false p q h = elim (Bool-cases (bytes_eq p q)) [
  | inl y ↦ absurd (h ((bytes_eq_iff p q).0 y))
  | inr n ↦ n
]

eq_false : (p q : Bytes) → bytes_eq p q ≡ false → p ≢ q
eq_false p q h e = absurd (ground (arith, bytes_eq_iff p q))

resolve-IsPart : (p : Bytes) (r : ℕ × List Bytes) → IsPart p → resolve p r ≡ place_part p r
resolve-IsPart p r (h, k, l) = rw (ne_false p [] h, ne_false p dot k, ne_false p dots l) refl

walk-IsPart : (ps : List Bytes) → All IsPart ps → walk ps ≡ (0, ps)
unfolding walk
walk-IsPart [] h = refl
walk-IsPart (p ∷ ps) (h, hs) = ap (resolve p) (walk-IsPart ps hs) ∙ resolve-IsPart p (0, ps) h

abbrev IsPlain : Bytes → Type 0
IsPlain p = IsPart p × Lacks slash p

place_part-All :
    (p : Bytes) (r : ℕ × List Bytes) → IsPlain p → All IsPlain r.1 → All IsPlain (place_part p r).1
place_part-All p (zero, ps) h k = (h, k)
place_part-All p (suc n, ps) h k = k

resolve-All :
    (p : Bytes) (r : ℕ × List Bytes) → Lacks slash p → All IsPlain r.1 → All IsPlain (resolve p r).1
resolve-All p r plain all = elim (Bool-cases (bytes_eq p [])) [
  | inl e ↦ rw e all
  | inr h ↦ elim (Bool-cases (bytes_eq p dot)) [
    | inl e ↦ rw (h, e) all
    | inr k ↦ elim (Bool-cases (bytes_eq p dots)) [
      | inl e ↦ rw (h, k, e) all
      | inr l ↦
          rw (h, k, l)
            (place_part-All p r ((eq_false p [] h, eq_false p dot k, eq_false p dots l), plain) all)
    ]
  ]
]

walk-All : (ps : List Bytes) → All (Lacks slash) ps → All IsPlain (walk ps).1
unfolding walk
walk-All [] h = tt
walk-All (p ∷ ps) (h, hs) = resolve-All p (walk ps) h (walk-All ps hs)

Lacks-snoc : (p : Bytes) (c : ℕ) → Lacks slash p → c ≢ slash → Lacks slash (p ++ (c ∷ []))
Lacks-snoc [] c h k = (k, tt)
Lacks-snoc (x ∷ p) c (h, hs) k = (h, Lacks-snoc p c hs k)

split_from-Lacks : (cur s : Bytes) → Lacks slash cur → All (Lacks slash) (split_from cur s)
unfolding split_from
split_from-Lacks cur [] h = (h, tt)
split_from-Lacks cur (c ∷ s) h =
    ground
      (arith, split_from-Lacks [] s tt, split_from-Lacks (cur ++ (c ∷ [])) s, Lacks-snoc cur c h)

split-Lacks : (s : Bytes) → All (Lacks slash) (split s)
unfolding split
split-Lacks s = split_from-Lacks [] s tt

join-split_from :
    (p cur s : Bytes) → join (p ∷ split_from cur s) ≡ p ++ (slash ∷ join (split_from cur s))
unfolding split_from join
join-split_from p cur [] = refl
join-split_from p cur (c ∷ s) = elim (Bool-cases (c == slash)) [
  | inl y ↦ ground arith
  | inr n ↦ ground (arith, join-split_from p (cur ++ (c ∷ [])) s)
]

join_split : (cur s : Bytes) → join (split_from cur s) ≡ cur ++ s
unfolding split_from
join_split cur [] = unfold join in sym (append-nil cur)
join_split cur (c ∷ s) = elim (Bool-cases (c == slash)) [
  | inl y ↦ ground (arith, join-split_from cur [] s, join_split [] s)
  | inr n ↦ ground (arith, join_split (cur ++ (c ∷ [])) s, append_assoc cur (c ∷ []) s)
]

split-join :
    (p : Bytes) (ps : List Bytes) → All (Lacks slash) (p ∷ ps) → split (join (p ∷ ps)) ≡ p ∷ ps
unfolding join
split-join p [] (h, _) = split_one p h
split-join p (q ∷ ps) (h, hs) =
    split-slash p (join (q ∷ ps)) h ∙ ap (λ (t : List Bytes). p ∷ t) (split-join q ps hs)

-- A clean path is left as it is, with a slash before it too.
pub canon_clean : (k : Bytes) → IsClean k → canon k ≡ k
unfolding canon split
canon_clean k clean =
    ap (λ (r : ℕ × List Bytes). join r.1) (walk-IsPart (split k) clean) ∙ join_split [] k

pub canon-slash : (k : Bytes) → canon (slash ∷ k) ≡ canon k
unfolding canon walk bytes_eq
canon-slash k = rw (split-slash [] k tt) refl

-- ".." takes the part before it away.
pub canon_parent :
    (p k : Bytes)
    → IsPart p
    → Lacks slash p
    → canon (slash ∷ (p ++ (slash ∷ b'.' ∷ b'.' ∷ slash ∷ k))) ≡ canon (slash ∷ k)
unfolding canon walk join bytes_eq
canon_parent p k part plain =
    rw
      (
        split-slash [] (p ++ (slash ∷ b'.' ∷ b'.' ∷ slash ∷ k)) tt,
        split-slash p (b'.' ∷ b'.' ∷ slash ∷ k) plain,
        split-slash dots k (omega arith),
        split-slash [] k tt,
        resolve-IsPart p (suc (walk (split k)).0, (walk (split k)).1) part,
      )
      refl

All-fst : (ps : List Bytes) → All IsPlain ps → All IsPart ps × All (Lacks slash) ps
All-fst [] h = (tt, tt)
All-fst (p ∷ ps) ((h, k), hs) = let (a, b) = All-fst ps hs in ((h, a), (k, b))

pub canon-nil : canon [] ≡ []
unfolding canon walk split join bytes_eq
canon-nil = refl

-- What is left is nothing, or a clean path.
pub canon-cases : (k : Bytes) → (canon k ≡ []) ⊎ IsClean (canon k)
unfolding canon
canon-cases k = go (walk (split k)).1 (walk-All (split k) (split-Lacks k))
  where
    go : (ps : List Bytes) → All IsPlain ps → (join ps ≡ []) ⊎ IsClean (join ps)
    go [] h = inl (unfold join in refl)
    go (p ∷ ps) h =
        let (parts, plain) = All-fst (p ∷ ps) h in inr (rw (split-join p ps plain) parts)

append_ne : (x : ℕ) (s v : Bytes) → v ≢ x ∷ (s ++ v)
append_ne x s v h = absurd (omega (arith, length-append s v, ap (λ (t : Bytes). length t) h))

tail_eq : (x y : ℕ) (s t : Bytes) → ◌≡◌ {A = Bytes} (x ∷ s) (y ∷ t) → (x ≡ y) × (s ≡ t)
tail_eq x y s t h = (cc, cc)

pub append_cancel_right : (s t v : Bytes) → s ++ v ≡ t ++ v → s ≡ t
append_cancel_right [] [] v h = refl
append_cancel_right [] (y ∷ t) v h = absurd (append_ne y t v h)
append_cancel_right (x ∷ s) [] v h = absurd (append_ne x s v (sym h))
append_cancel_right (x ∷ s) (y ∷ t) v h =
    let (a, b) = tail_eq x y (s ++ v) (t ++ v) h in
    rw a (ap (λ (u : Bytes). y ∷ u) (append_cancel_right s t v b))

pub append_cancel_left : (v s t : Bytes) → v ++ s ≡ v ++ t → s ≡ t
append_cancel_left [] s t h = h
append_cancel_left (x ∷ v) s t h = append_cancel_left v s t (tail_eq x x (v ++ s) (v ++ t) h).1

-- Cleaning once is enough.
pub canon-canon : (k : Bytes) → canon (slash ∷ canon k) ≡ canon k
canon-canon k = canon-slash (canon k) ∙ elim (canon-cases k) [
  | inl nil ↦ ap canon nil ∙ (canon-nil ∙ sym nil)
  | inr clean ↦ canon_clean (canon k) clean
]
