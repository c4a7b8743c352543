-- ===== src/Std/Base64/RoundTrip.antt =====
-- `DecodeString` undoes `EncodeToString`, and what encoded text is made of.
use p2p_verse.Common.{
  ℕ, ◌+◌, ◌*◌, ◌/◌, ◌%◌, ◌<◌, ◌≡◌, ◌≢◌, ◌∙◌, refl, [], ◌∷◌, arith, Bytes, All, keep, Lacks, ok,
  ◌>>=◌,
}
use p2p_verse.Std.Text.{IsPart}
use p2p_verse.Std.Base64.{
  pad, digit_of, value_of-digit_of, digit_of-plain, IsByte, encode, decode, decode_quanta,
  open_three, close_one, close_two, is_text, is_nil,
}

abbrev IsPlain : ℕ → Type 0
IsPlain c = (c ≢ 10) × (c ≢ 13) × (c ≢ b'/')

IsPlain-digit : (v : ℕ) → v < 64 → IsPlain (digit_of v)
IsPlain-digit v h = let p = digit_of-plain v h in (p.1, p.2, p.3)

IsPlain-pad : IsPlain pad
IsPlain-pad = omega arith

encode-IsPlain : (s : Bytes) → All IsByte s → All IsPlain (encode s)
unfolding encode
encode-IsPlain [] h = tt
encode-IsPlain (a ∷ []) h = (
  IsPlain-digit (a / 4) (omega arith),
  (IsPlain-digit (a % 4 * 16) (omega arith), (IsPlain-pad, (IsPlain-pad, tt))),
)
encode-IsPlain (a ∷ b ∷ []) h = (
  IsPlain-digit (a / 4) (omega arith),
  (
    IsPlain-digit (a % 4 * 16 + b / 16) (omega arith),
    (IsPlain-digit (b % 16 * 4) (omega arith), (IsPlain-pad, tt)),
  ),
)
encode-IsPlain (a ∷ b ∷ c ∷ r) h = (
  IsPlain-digit (a / 4) (omega arith),
  (
    IsPlain-digit (a % 4 * 16 + b / 16) (omega arith),
    (
      IsPlain-digit (b % 16 * 4 + c / 64) (omega arith),
      (IsPlain-digit (c % 64) (omega arith), encode-IsPlain r h.1.1.1),
    ),
  ),
)

quantum :
    (va vb vc vd : ℕ) (r : Bytes)
    → va < 64
    → vb < 64
    → vc < 64
    → vd < 64
    → decode_quanta (digit_of va ∷ digit_of vb ∷ digit_of vc ∷ digit_of vd ∷ r)
      ≡ (decode_quanta r >>= open_three va vb vc vd)
unfolding decode_quanta
quantum va vb vc vd r ha hb hc hd =
    rw (value_of-digit_of va ha, value_of-digit_of vb hb)
      (ground (
        arith,
        value_of-digit_of vc hc,
        value_of-digit_of vd hd,
        digit_of-plain vc hc,
        digit_of-plain vd hd,
      ))

last_one :
    (a : ℕ)
    → a < 256
    → decode_quanta (digit_of (a / 4) ∷ digit_of (a % 4 * 16) ∷ pad ∷ pad ∷ []) ≡ ok (a ∷ [])
unfolding decode_quanta close_one is_nil
last_one a h =
    rw (value_of-digit_of (a / 4) (omega arith), value_of-digit_of (a % 4 * 16) (omega arith))
      (ground arith)

last_two :
    (a b : ℕ)
    → a < 256
    → b < 256
    → decode_quanta
        (digit_of (a / 4) ∷ digit_of (a % 4 * 16 + b / 16) ∷ digit_of (b % 16 * 4) ∷ pad ∷ [])
      ≡ ok (a ∷ b ∷ [])
unfolding decode_quanta close_two is_nil
last_two a b h k =
    rw
      (
        value_of-digit_of (a / 4) (omega arith),
        value_of-digit_of (a % 4 * 16 + b / 16) (omega arith),
      )
      (ground (
        arith,
        value_of-digit_of (b % 16 * 4) (omega arith),
        digit_of-plain (b % 16 * 4) (omega arith),
      ))

three_bytes :
    (a b c : ℕ) (r : Bytes)
    → a < 256
    → b < 256
    → c < 256
    → open_three (a / 4) (a % 4 * 16 + b / 16) (b % 16 * 4 + c / 64) (c % 64) r ≡ ok (a ∷ b ∷ c ∷ r)
unfolding open_three
three_bytes a b c r h k l = ground arith

decode_quanta-encode : (s : Bytes) → All IsByte s → decode_quanta (encode s) ≡ ok s
unfolding encode
decode_quanta-encode [] h = unfold decode_quanta in refl
decode_quanta-encode (a ∷ []) h = last_one a h.0
decode_quanta-encode (a ∷ b ∷ []) h = last_two a b h.0 h.1.0
decode_quanta-encode (a ∷ b ∷ c ∷ r) h =
    quantum (a / 4) (a % 4 * 16 + b / 16) (b % 16 * 4 + c / 64) (c % 64) (encode r) (omega arith)
      (omega arith) (omega arith) (omega arith)
    ∙ rw (decode_quanta-encode r h.1.1.1) (three_bytes a b c r h.0 h.1.0 h.1.1.0)

keep_plain : (s : Bytes) → All IsPlain s → keep is_text s ≡ s
unfolding keep is_text
keep_plain [] h = refl
keep_plain (c ∷ s) h = ground (arith, keep_plain s h.1)

-- Every byte string is read back from its encoding.
pub decode-encode : (s : Bytes) → All IsByte s → decode (encode s) ≡ ok s
unfolding decode
decode-encode s h = rw (keep_plain (encode s) (encode-IsPlain s h)) (decode_quanta-encode s h)

All-Lacks_slash : (s : Bytes) → All IsPlain s → Lacks b'/' s
All-Lacks_slash [] h = tt
All-Lacks_slash (c ∷ s) h = (h.0.2, All-Lacks_slash s h.1)

-- An encoding holds no slash.
pub encode-Lacks : (s : Bytes) → All IsByte s → Lacks b'/' (encode s)
encode-Lacks s h = All-Lacks_slash (encode s) (encode-IsPlain s h)

head_eq : (a b : ℕ) (s t : Bytes) → ◌≡◌ {A = Bytes} (a ∷ s) (b ∷ t) → a ≡ b
head_eq a b s t e = cc

first_digit : (v : ℕ) (s : Bytes) → v < 64 → IsPart (digit_of v ∷ s)
first_digit v s h =
    let p = digit_of-plain v h in
    (λ e. cc, λ e. p.4 (head_eq _ _ _ _ e), λ e. p.4 (head_eq _ _ _ _ e))

-- An encoding of something is a clean part of a path.
pub encode-IsPart : (s : Bytes) → All IsByte s → s ≢ [] → IsPart (encode s)
unfolding encode
encode-IsPart [] h n = absurd (n refl)
encode-IsPart (a ∷ []) h n = first_digit (a / 4) _ (omega arith)
encode-IsPart (a ∷ b ∷ []) h n = first_digit (a / 4) _ (omega arith)
encode-IsPart (a ∷ b ∷ c ∷ r) h n = first_digit (a / 4) _ (omega arith)
