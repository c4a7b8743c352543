-- ===== src/Crdt/Filters.antt =====
-- crdt/filters.go: the query filters on keys and values.
use p2p_verse.Common.{
  ◌≡◌, refl, ◌↔◌, inl, inr, Bool, true, false, ◌&&◌, not, List, [], ◌∷◌, arith, Bytes, bytes_eq,
  bytes_eq_iff, ltb, length, if◌then◌else◌, In, Bool-cases,
}
use p2p_verse.Std.Text.{split, trim_slash}
use p2p_verse.External.Datastore.{Entry, Filter, value_bytes}

-- `strings.Split(strings.TrimPrefix(key, "/"), "/")`
unfoldable pub parts : Bytes → List Bytes
parts key = split (trim_slash key)

abbrev pub star : Bytes
star = b'*' ∷ []

-- The loop over `fKeys`; it is entered only where `keys` is at least as long.
match_parts : List Bytes → List Bytes → Bool
match_parts [] keys = true
match_parts (f ∷ fs) [] = false
match_parts (f ∷ fs) (k ∷ ks) =
    if not (bytes_eq f star) && not (bytes_eq f k) then false else match_parts fs ks

-- `KeyMatchFilter{key}.Filter(e)`
unfoldable pub key_match : Bytes → Filter
unfolding match_parts
key_match key e =
    if ltb (length (parts e.key)) (length (parts key))
    then false
    else match_parts (parts key) (parts e.key)

exists_part : Bytes → List Bytes → Bool
exists_part key [] = false
exists_part key (k ∷ ks) = if bytes_eq k key then true else exists_part key ks

-- `KeyExistFilter{key}.Filter(e)`
unfoldable pub key_exist : Bytes → Filter
unfolding exists_part
key_exist key e = exists_part key (parts e.key)

-- `ValueMatchFilter{val}.Filter(e)`
pub value_match : Bytes → Filter
value_match val e = bytes_eq (value_bytes e.value) val

-- The pattern is a prefix of the key, part by part, where "*" stands for any part.
pub data Matches : List Bytes → List Bytes → Type 0 where
  done : {ks : List Bytes} → Matches [] ks
  any : {f k : Bytes} {fs ks : List Bytes} → f ≡ star → Matches fs ks → Matches (f ∷ fs) (k ∷ ks)
  same : {f k : Bytes} {fs ks : List Bytes} → f ≡ k → Matches fs ks → Matches (f ∷ fs) (k ∷ ks)

match_parts_sound : (fs ks : List Bytes) → match_parts fs ks ≡ true → Matches fs ks
unfolding match_parts
match_parts_sound [] ks h = done
match_parts_sound (f ∷ fs) [] h = cc
match_parts_sound (f ∷ fs) (k ∷ ks) h = elim (Bool-cases (bytes_eq f star)) [
  | inl e ↦ any ((bytes_eq_iff f star).0 e) (match_parts_sound fs ks (ground arith))
  | inr e ↦ elim (Bool-cases (bytes_eq f k)) [
    | inl e' ↦ same ((bytes_eq_iff f k).0 e') (match_parts_sound fs ks (ground arith))
    | inr e' ↦ absurd (ground arith)
  ]
]

match_parts_complete :
    (fs ks : List Bytes)
    → Matches fs ks
    → (match_parts fs ks ≡ true) × (ltb (length ks) (length fs) ≡ false)
unfolding match_parts
match_parts_complete _ ks done = (refl, ground arith)
match_parts_complete _ _ (any {f} {k} {fs} {ks} e m) =
    ground (arith, match_parts_complete fs ks m, bytes_eq_iff f star)
match_parts_complete _ _ (same {f} {k} {fs} {ks} e m) =
    ground (arith, match_parts_complete fs ks m, bytes_eq_iff f k)

-- The key filter accepts exactly the entries whose key the pattern matches part by part.
pub key_match_iff :
    (key : Bytes) (e : Entry) → (key_match key e ≡ true) ↔ Matches (parts key) (parts e.key)
unfolding key_match
key_match_iff key e = (
  λ h. match_parts_sound (parts key) (parts e.key) (ground arith),
  λ m. ground (arith, match_parts_complete (parts key) (parts e.key) m),
)

exists_part_iff : (key : Bytes) (ks : List Bytes) → (exists_part key ks ≡ true) ↔ In key ks
unfolding exists_part
exists_part_iff key [] = (λ h. cc, λ h. absurd h)
exists_part_iff key (k ∷ ks) = ground (arith, exists_part_iff key ks, bytes_eq_iff k key)

-- The existence filter accepts exactly the entries with the part somewhere in their key.
pub key_exist_iff : (key : Bytes) (e : Entry) → (key_exist key e ≡ true) ↔ In key (parts e.key)
unfolding key_exist
key_exist_iff key e = exists_part_iff key (parts e.key)
