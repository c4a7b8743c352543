-- ===== src/Common/Lists.antt =====
-- Lists measured by native numbers, and predicates on lists by recursion.
use Prim.Native.Nat.{ℕ, zero, suc, ◌+◌}
use mathlib.Core.Path.{◌≡◌, refl}
use mathlib.Core.Logic.{◌⊎◌, inl, inr, ◌≢◌}
use mathlib.Core.Bool.{Bool}
use mathlib.Core.List.{List, [], ◌∷◌, ◌++◌}
use mathlib.Core.Option.{Option, none, some}
use native.Mathlib.Omega.{arith}
use p2p_verse.Common.Tests.{if◌then◌else◌, Bytes}

module _ {ℓ} {A : Type ℓ} where
  abbrev pub length : List A → ℕ
  length [] = 0
  length (x ∷ xs) = suc (length xs)

  -- The entries that pass a Boolean test, in order.
  unfoldable pub keep : (A → Bool) → List A → List A
  keep p [] = []
  keep p (x ∷ xs) = let rest = keep p xs in if p x then x ∷ rest else rest

  -- The entry at a place, and the list with another one there.
  unfoldable pub get_elem? : List A → ℕ → Option A
  get_elem? [] i = none
  get_elem? (x ∷ xs) zero = some x
  get_elem? (x ∷ xs) (suc i) = get_elem? xs i

  unfoldable pub set_elem : ℕ → A → List A → List A
  set_elem i y [] = []
  set_elem zero y (x ∷ xs) = y ∷ xs
  set_elem (suc i) y (x ∷ xs) = x ∷ set_elem i y xs

  pub get_elem?-append :
      (xs ys : List A) (i : ℕ) (x : A) → get_elem? xs i ≡ some x → get_elem? (xs ++ ys) i ≡ some x
  unfolding get_elem?
  get_elem?-append [] ys i x h = cc
  get_elem?-append (z ∷ zs) ys zero x h = h
  get_elem?-append (z ∷ zs) ys (suc i) x h = get_elem?-append zs ys i x h

  pub get_elem?-set_elem :
      (xs : List A) (i : ℕ) (x y : A)
      → get_elem? xs i ≡ some x
      → get_elem? (set_elem i y xs) i ≡ some y
  unfolding get_elem? set_elem
  get_elem?-set_elem [] i x y h = cc
  get_elem?-set_elem (z ∷ zs) zero x y h = refl
  get_elem?-set_elem (z ∷ zs) (suc i) x y h = get_elem?-set_elem zs i x y h

  pub get_elem?-length : (xs : List A) (x : A) → get_elem? (xs ++ (x ∷ [])) (length xs) ≡ some x
  unfolding get_elem?
  get_elem?-length [] x = refl
  get_elem?-length (y ∷ xs) x = get_elem?-length xs x

  pub length-append : (xs ys : List A) → length (xs ++ ys) ≡ length xs + length ys
  length-append [] ys = omega arith
  length-append (x ∷ xs) ys = omega (arith, length-append xs ys)

-- Membership, with the place kept.
abbrev pub In : {A : Type 0} → A → List A → Type 0
In a [] = ⊥
In a (x ∷ xs) = (a ≡ x) ⊎ In a xs

module _ {ℓ κ} {A : Type ℓ} (P : A → Type κ) where
  abbrev pub All : List A → Type κ
  All [] = Unit
  All (x ∷ xs) = P x × All xs

  pub All-append : (xs ys : List A) → All xs → All ys → All (xs ++ ys)
  All-append [] ys _ hy = hy
  All-append (x ∷ xs) ys (px, hx) hy = (px, All-append xs ys hx hy)

module _ {A : Type 0} (P : A → Type 0) where
  pub All-In : (xs : List A) (a : A) → All P xs → In a xs → P a
  All-In [] a h m = absurd m
  All-In (x ∷ xs) a (px, h) (inl e) = rw e px
  All-In (x ∷ xs) a (px, h) (inr m) = All-In xs a h m

-- The byte does not occur.
abbrev pub Lacks : ℕ → Bytes → Type 0
Lacks b = All (λ c. c ≢ b)
