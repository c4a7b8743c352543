-- ===== src/Std/Base64.antt =====
-- `base64.URLEncoding` of Go's standard library: padded, over A-Z a-z 0-9 "-" "_".
pub mod RoundTrip
use p2p_verse.Common.{
  ℕ, ◌+◌, ◌-◌, ◌*◌, ◌/◌, ◌%◌, ◌<◌, ◌≡◌, ◌≢◌, refl, Bool, true, false, ◌&&◌, ◌||◌, not, List, [],
  ◌∷◌, arith, Bytes, codes, ltb, leb, ◌==◌, if◌then◌else◌, All, keep, Error, foreign, Result, ok,
  err, ◌>>=◌,
}

abbrev pad : ℕ
pad = b'='

digit_of : ℕ → ℕ
digit_of v =
    if ltb v 26
    then 65 + v
    else if ltb v 52
    then 71 + v
    else if ltb v 62
    then v - 4
    else if v == 62
    then b'-'
    else b'_'

abbrev pub corrupt : Error
corrupt = foreign (codes "illegal base64 data")

value_of : ℕ → Result ℕ
value_of c =
    if leb b'A' c && leb c b'Z'
    then ok (c - 65)
    else if leb b'a' c && leb c b'z'
    then ok (c - 71)
    else if leb b'0' c && leb c b'9'
    then ok (c + 4)
    else if c == b'-'
    then ok 62
    else if c == b'_'
    then ok 63
    else err corrupt

-- `EncodeToString`
unfoldable pub encode : Bytes → Bytes
unfolding digit_of
encode [] = []
encode (a ∷ []) = digit_of (a / 4) ∷ digit_of (a % 4 * 16) ∷ pad ∷ pad ∷ []
encode (a ∷ b ∷ []) =
    digit_of (a / 4) ∷ digit_of (a % 4 * 16 + b / 16) ∷ digit_of (b % 16 * 4) ∷ pad ∷ []
encode (a ∷ b ∷ c ∷ r) =
    digit_of (a / 4)
    ∷ digit_of (a % 4 * 16 + b / 16)
    ∷ digit_of (b % 16 * 4 + c / 64)
    ∷ digit_of (c % 64)
    ∷ encode r

is_nil : Bytes → Bool
is_nil [] = true
is_nil (c ∷ s) = false

-- A quantum that ends in padding must be the last one.
close_one : ℕ → ℕ → ℕ → Bytes → Result Bytes
close_one va vb d r = if d == pad && is_nil r then ok ((va * 4 + vb / 16) ∷ []) else err corrupt

close_two : ℕ → ℕ → ℕ → Bytes → Result Bytes
close_two va vb vc r =
    if is_nil r then ok ((va * 4 + vb / 16) ∷ (vb % 16 * 16 + vc / 4) ∷ []) else err corrupt

open_three : ℕ → ℕ → ℕ → ℕ → Bytes → Result Bytes
open_three va vb vc vd r =
    ok ((va * 4 + vb / 16) ∷ (vb % 16 * 16 + vc / 4) ∷ (vc % 4 * 64 + vd) ∷ r)

decode_quanta : Bytes → Result Bytes
decode_quanta [] = ok []
decode_quanta (a ∷ []) = err corrupt
decode_quanta (a ∷ b ∷ []) = err corrupt
decode_quanta (a ∷ b ∷ c ∷ []) = err corrupt
decode_quanta (a ∷ b ∷ c ∷ d ∷ r) =
    let rest = decode_quanta r in
    value_of a >>= λ va. value_of b >>= λ vb.
    if c == pad
    then close_one va vb d r
    else (value_of c >>= λ vc.
        if d == pad
        then close_two va vb vc r
        else (value_of d >>= λ vd. rest >>= λ tail. open_three va vb vc vd tail))

is_text : ℕ → Bool
is_text c = not (c == 10 || c == 13)

-- `DecodeString`: the decoder skips line breaks.
unfoldable pub decode : Bytes → Result Bytes
unfolding decode_quanta value_of close_one close_two open_three is_nil is_text
decode s = decode_quanta (keep is_text s)

abbrev pub IsByte : ℕ → Type 0
IsByte b = b < 256

value_of-digit_of : (v : ℕ) → v < 64 → value_of (digit_of v) ≡ ok v
unfolding value_of digit_of
value_of-digit_of v h = ground arith

digit_of-plain :
    (v : ℕ)
    → v < 64
    → (digit_of v ≢ pad)
      × (digit_of v ≢ 10)
      × (digit_of v ≢ 13)
      × (digit_of v ≢ b'/')
      × (digit_of v ≢ b'.')
unfolding digit_of
digit_of-plain v h = ground arith
