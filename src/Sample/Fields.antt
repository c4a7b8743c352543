-- ===== src/Sample/Fields.antt =====
-- A message as a list of fields: every byte of a field behind a 1, and a 0 at its end.
use p2p_verse.Common.{
  zero, suc, ◌≡◌, refl, Bool, true, ◌&&◌, Option, none, some, List, [], ◌∷◌, ◌++◌, append_assoc,
  append-nil, arith, Bytes, ltb, All, foreign, Result, ok, err, if◌then◌else◌, Bool-cases, inl, inr,
  ◌∙◌,
}
use p2p_verse.Std.Base64.{IsByte}

unfoldable pub write_field : Bytes → Bytes
write_field [] = 0 ∷ []
write_field (c ∷ s) = 1 ∷ c ∷ write_field s

unfoldable pub write_fields : List Bytes → Bytes
unfolding write_field
write_fields [] = []
write_fields (f ∷ fs) = write_field f ++ write_fields fs

abbrev prepend : Bytes → Option (List Bytes) → Option (List Bytes)
prepend f none = none
prepend f (some fs) = some (f ∷ fs)

-- The fields, where `cur` is the one that has begun.
unfoldable pub read_fields : Bytes → Bytes → Option (List Bytes)
read_fields cur [] = some []
read_fields cur (zero ∷ r) = prepend cur (read_fields [] r)
read_fields cur (suc k ∷ []) = none
read_fields cur (suc k ∷ c ∷ r) = read_fields (cur ++ (c ∷ [])) r

unfoldable pub all_bytes : Bytes → Bool
all_bytes [] = true
all_bytes (c ∷ s) = ltb c 256 && all_bytes s

pub all_bytes_sound : (s : Bytes) → all_bytes s ≡ true → All IsByte s
unfolding all_bytes
all_bytes_sound [] h = tt
all_bytes_sound (c ∷ s) h = (ground arith, all_bytes_sound s (ground arith))

unfoldable pub seal_bytes : Bytes → Result Bytes
unfolding all_bytes
seal_bytes s = if all_bytes s then ok s else err (foreign [])

pub seal_bytes_ok : (s m : Bytes) → seal_bytes s ≡ ok m → (s ≡ m) × All IsByte m
unfolding seal_bytes
seal_bytes_ok s m h = elim (Bool-cases (all_bytes s)) [
  | inl y ↦ let e : s ≡ m = ground arith in (e, rw (← e) (all_bytes_sound s y))
  | inr n ↦ absurd (ground arith)
]

read-write_field :
    (f cur r : Bytes) → read_fields cur (write_field f ++ r) ≡ prepend (cur ++ f) (read_fields [] r)
unfolding read_fields write_field
read-write_field [] cur r = rw append-nil
read-write_field (c ∷ f) cur r = read-write_field f (cur ++ (c ∷ [])) r ∙ rw append_assoc

pub read_fields-write_fields : (fs : List Bytes) → read_fields [] (write_fields fs) ≡ some fs
unfolding write_fields
read_fields-write_fields [] = unfold read_fields in refl
read_fields-write_fields (f ∷ fs) =
    read-write_field f [] (write_fields fs) ∙ rw (read_fields-write_fields fs)
