-- ===== src/Std/Text.antt =====
-- `strings.Split`, `Join`, `TrimPrefix`, `HasPrefix` and `Compare`, at the one separator "/".
use Prim.Native.Nat.{compare, Ordering}
use p2p_verse.Common.{
  ◌⊎◌, inl, inr, ℕ, ◌≡◌, ◌≢◌, refl, Bool, true, false, List, [], ◌∷◌, ◌++◌, append-nil,
  append_assoc, ap, Bool-cases, arith, Bytes, ◌==◌, if◌then◌else◌, All, Lacks,
}

abbrev pub slash : ℕ
slash = b'/'

-- `s` cut at its slashes, where `cur` is the part that has begun.
unfoldable pub split_from : Bytes → Bytes → List Bytes
split_from cur [] = cur ∷ []
split_from cur (c ∷ s) = elim (c == slash) [
  | true ↦ cur ∷ split_from [] s
  | false ↦ split_from (cur ++ (c ∷ [])) s
]

-- `strings.Split(s, "/")`
unfoldable pub split : Bytes → List Bytes
unfolding split_from
split s = split_from [] s

-- `strings.Join(parts, "/")`
unfoldable pub join : List Bytes → Bytes
join [] = []
join (p ∷ []) = p
join (p ∷ q ∷ ps) = p ++ (slash ∷ join (q ∷ ps))

-- `strings.TrimPrefix(s, "/")`
unfoldable pub trim_slash : Bytes → Bytes
trim_slash [] = []
trim_slash (c ∷ s) = if c == slash then s else c ∷ s

-- `strings.HasPrefix(s, p)`
unfoldable pub has_prefix : Bytes → Bytes → Bool
has_prefix s [] = true
has_prefix [] (d ∷ p) = false
has_prefix (c ∷ s) (d ∷ p) = let rest = has_prefix s p in if c == d then rest else false

-- `strings.Compare(a, b)`; `lt`, `eq` and `gt` are -1, 0 and 1.
unfoldable pub compare_bytes : Bytes → Bytes → Ordering
compare_bytes [] [] = Ordering.eq
compare_bytes [] (d ∷ b) = Ordering.lt
compare_bytes (c ∷ a) [] = Ordering.gt
compare_bytes (c ∷ a) (d ∷ b) = elim (compare c d) [
  | Ordering.lt ↦ Ordering.lt
  | Ordering.gt ↦ Ordering.gt
  | Ordering.eq ↦ compare_bytes a b
]

-- `keys[len(keys)-1]` and `keys[:len(keys)-1]`; `Split` never returns an empty list.
unfoldable pub last_part : List Bytes → Bytes
last_part [] = []
last_part (p ∷ []) = p
last_part (p ∷ q ∷ ps) = last_part (q ∷ ps)

unfoldable pub init_parts : List Bytes → List Bytes
init_parts [] = []
init_parts (p ∷ []) = []
init_parts (p ∷ q ∷ ps) = p ∷ init_parts (q ∷ ps)

-- `keys[0]`
unfoldable pub first_part : List Bytes → Bytes
first_part [] = []
first_part (p ∷ ps) = p

split_from-append :
    (p rest cur : Bytes) → Lacks slash p → split_from cur (p ++ rest) ≡ split_from (cur ++ p) rest
unfolding split_from
split_from-append [] rest cur h = rw append-nil
split_from-append (c ∷ p) rest cur h =
    ground (arith, split_from-append p rest (cur ++ (c ∷ [])) h.1, append_assoc cur (c ∷ []) p)

-- A text with no slash is its only part.
pub split_one : (p : Bytes) → Lacks slash p → split p ≡ p ∷ []
unfolding split
split_one p h = cc (append-nil p, split_from-append p [] [] h)

-- The part before the first slash is the head of the split.
pub split-slash : (p rest : Bytes) → Lacks slash p → split (p ++ (slash ∷ rest)) ≡ p ∷ split rest
unfolding split
split-slash p rest h = split_from-append p (slash ∷ rest) [] h

split_from-append_slash :
    (p rest cur : Bytes)
    → split_from cur (p ++ (slash ∷ rest)) ≡ split_from cur p ++ split_from [] rest
unfolding split_from
split_from-append_slash [] rest cur = refl
split_from-append_slash (c ∷ p) rest cur =
    ground
      (arith, split_from-append_slash p rest [], split_from-append_slash p rest (cur ++ (c ∷ [])))

-- A slash cuts a text in two, whatever the parts of the two are.
pub split-append_slash : (p rest : Bytes) → split (p ++ (slash ∷ rest)) ≡ split p ++ split rest
unfolding split
split-append_slash p rest = split_from-append_slash p rest []

last_part-snoc : (ps : List Bytes) (p : Bytes) → last_part (ps ++ (p ∷ [])) ≡ p
unfolding last_part
last_part-snoc [] p = refl
last_part-snoc (q ∷ []) p = refl
last_part-snoc (q ∷ r ∷ ps) p = last_part-snoc (r ∷ ps) p

-- What follows the last slash is the last part.
pub last_part-split :
    (p rest : Bytes) → Lacks slash rest → last_part (split (p ++ (slash ∷ rest))) ≡ rest
last_part-split p rest h =
    rw (split-append_slash p rest, split_one rest h) (last_part-snoc (split p) rest)

pub compare_bytes-eq : (a b : Bytes) → compare_bytes a b ≡ Ordering.eq → a ≡ b
unfolding compare_bytes
compare_bytes-eq [] [] h = refl
compare_bytes-eq [] (d ∷ b) h = cc
compare_bytes-eq (c ∷ a) [] h = cc
compare_bytes-eq (c ∷ a) (d ∷ b) h = ground (arith, compare_bytes-eq a b)

pub compare_bytes_refl : (a : Bytes) → compare_bytes a a ≡ Ordering.eq
unfolding compare_bytes
compare_bytes_refl [] = refl
compare_bytes_refl (c ∷ a) = ground (arith, compare_bytes_refl a)

pub trim_slash_lem : (s : Bytes) → trim_slash (slash ∷ s) ≡ s
unfolding trim_slash
trim_slash_lem s = refl

pub trim_slash-cases : (s : Bytes) → (trim_slash s ≡ s) ⊎ (s ≡ slash ∷ trim_slash s)
unfolding trim_slash
trim_slash-cases [] = inl refl
trim_slash-cases (c ∷ s) = elim (Bool-cases (c == slash)) [
  | inl y ↦ inr (ground (arith, ap (λ (n : ℕ). n ∷ s)))
  | inr n ↦ inl (rw n refl)
]

pub trim_slash_first : (c : ℕ) (s : Bytes) → c ≢ slash → trim_slash (c ∷ s) ≡ c ∷ s
unfolding trim_slash
trim_slash_first c s h = ground arith

-- A part that `path.Clean` keeps as it is, and a relative path of such parts.
abbrev pub IsPart : Bytes → Type 0
IsPart p = (p ≢ []) × (p ≢ b'.' ∷ []) × (p ≢ b'.' ∷ b'.' ∷ [])

abbrev pub IsClean : Bytes → Type 0
IsClean k = All IsPart (split k)

-- The two orders of one comparison.
abbrev pub swap_order : Ordering → Ordering
swap_order Ordering.lt = Ordering.gt
swap_order Ordering.eq = Ordering.eq
swap_order Ordering.gt = Ordering.lt

pub compare_bytes_swap : (a b : Bytes) → compare_bytes b a ≡ swap_order (compare_bytes a b)
unfolding compare_bytes
compare_bytes_swap [] [] = refl
compare_bytes_swap [] (d ∷ b) = refl
compare_bytes_swap (c ∷ a) [] = refl
compare_bytes_swap (c ∷ a) (d ∷ b) = ground (arith, compare_bytes_swap a b)

pub Order-cases : (o : Ordering) → (o ≡ Ordering.lt) ⊎ ((o ≡ Ordering.eq) ⊎ (o ≡ Ordering.gt))
Order-cases Ordering.lt = inl refl
Order-cases Ordering.eq = inr (inl refl)
Order-cases Ordering.gt = inr (inr refl)
