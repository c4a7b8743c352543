-- ===== src/Std/Time/RoundTrip.antt =====
-- `UnmarshalBinary` undoes `MarshalBinary`.
use native.Mathlib.Nat.{pow-suc}
use p2p_verse.Common.{
  ℕ, zero, suc, ◌+◌, ◌*◌, ◌/◌, ◌%◌, ◌^◌, ◌<◌, ◌≡◌, ◌≢◌, refl, ◌∙◌, ap, [], ◌∷◌, ◌++◌, arith, Bytes,
  length, length-append, subst, All, All-append, ok, >>=-eq-ok, ok_injective, sym,
}
use p2p_verse.Std.Base64.{IsByte}
use p2p_verse.Std.Time.{
  Time, Zone, utc, minutes, to_be, of_be, take, drop, zone_bytes, zone_of, marshal, unmarshal,
  read_fields,
}

-- What a time that the program makes holds: an int64, a fraction of a second, an offset of 16 bits.
pub record IsValid (t : Time) : Type 0 where
  pub sec_fits : t.sec < 2 ^ 64
  pub nsec_fits : t.nsec < 10 ^ 9

length-to_be : (w n : ℕ) → length (to_be w n) ≡ w
unfolding to_be
length-to_be zero n = refl
length-to_be (suc w) n =
    omega (arith, length-append (to_be w (n / 256)) (n % 256 ∷ []), length-to_be w (n / 256))

to_be-IsByte : (w n : ℕ) → All IsByte (to_be w n)
unfolding to_be
to_be-IsByte zero n = tt
to_be-IsByte (suc w) n =
    All-append IsByte (to_be w (n / 256)) (n % 256 ∷ []) (to_be-IsByte w (n / 256))
      (omega arith, tt)

of_be-append : (s : Bytes) (b acc : ℕ) → of_be acc (s ++ (b ∷ [])) ≡ of_be acc s * 256 + b
unfolding of_be
of_be-append [] b acc = refl
of_be-append (c ∷ s) b acc = of_be-append s b (acc * 256 + c)

of_be-to_be : (w n : ℕ) → n < 256 ^ w → of_be 0 (to_be w n) ≡ n
unfolding to_be
of_be-to_be zero n h = unfold of_be in omega arith
of_be-to_be (suc w) n h =
    of_be-append (to_be w (n / 256)) (n % 256) 0
    ∙ rw (of_be-to_be w (n / 256) (omega (arith, pow-suc 256 w))) (omega arith)

take-append : (s r : Bytes) → take (length s) (s ++ r) ≡ s
unfolding take
take-append [] r = refl
take-append (b ∷ s) r = ap (λ (t : Bytes). b ∷ t) (take-append s r)

drop-append : (s r : Bytes) → drop (length s) (s ++ r) ≡ r
unfolding drop
drop-append [] r = refl
drop-append (b ∷ s) r = drop-append s r

take-to_be : (w n : ℕ) (r : Bytes) → take w (to_be w n ++ r) ≡ to_be w n
take-to_be w n r =
    subst (λ k. take k (to_be w n ++ r) ≡ to_be w n) (length-to_be w n) (take-append (to_be w n) r)

drop-to_be : (w n : ℕ) (r : Bytes) → drop w (to_be w n ++ r) ≡ r
drop-to_be w n r =
    subst (λ k. drop k (to_be w n ++ r) ≡ r) (length-to_be w n) (drop-append (to_be w n) r)

zone_bytes_fits : (z : Zone) (n : ℕ) → zone_bytes z ≡ ok n → (n < 2 ^ 16) × (zone_of n ≡ z)
unfolding zone_bytes zone_of
zone_bytes_fits utc n h = ground arith
zone_bytes_fits (minutes m) n h = ground arith

read_fields-to_be :
    (sec nsec off : ℕ)
    → sec < 2 ^ 64
    → nsec < 10 ^ 9
    → off < 2 ^ 16
    → read_fields (to_be 8 sec ++ (to_be 4 nsec ++ to_be 2 off))
      ≡ record { sec = sec; nsec = nsec; zone = zone_of off }
unfolding read_fields
read_fields-to_be sec nsec off hs hn ho =
    rw
      (
        take-to_be 8 sec (to_be 4 nsec ++ to_be 2 off),
        drop-to_be 8 sec (to_be 4 nsec ++ to_be 2 off),
        take-to_be 4 nsec (to_be 2 off),
        drop-to_be 4 nsec (to_be 2 off),
        of_be-to_be 8 sec hs,
        of_be-to_be 4 nsec (omega arith),
        of_be-to_be 2 off ho,
      )
      (ground arith)

length_fields : (sec nsec off : ℕ) → length (to_be 8 sec ++ (to_be 4 nsec ++ to_be 2 off)) ≡ 14
length_fields sec nsec off = omega (
  arith,
  length-append (to_be 8 sec) (to_be 4 nsec ++ to_be 2 off),
  length-append (to_be 4 nsec) (to_be 2 off),
  length-to_be 8 sec,
  length-to_be 4 nsec,
  length-to_be 2 off,
)

unmarshal_version : (r : Bytes) → length r ≡ 14 → unmarshal (1 ∷ r) ≡ ok (read_fields r)
unfolding unmarshal
unmarshal_version r h = ground arith

-- A time is read back from its binary form, zone included.
pub unmarshal-marshal : (t : Time) (m : Bytes) → IsValid t → marshal t ≡ ok m → unmarshal m ≡ ok t
unfolding marshal
unmarshal-marshal t m v h =
    let (off, made, wrote) = >>=-eq-ok (zone_bytes t.zone) _ h in
    let (fits, same) = zone_bytes_fits t.zone off made in
    rw (ok_injective _ m (sym wrote), unmarshal_version _ (length_fields t.sec t.nsec off))
      (ap (λ (u : Time). ok u)
        (read_fields-to_be t.sec t.nsec off v.sec_fits v.nsec_fits fits ∙ rw same))

-- The binary form is made of bytes.
pub marshal-IsByte : (t : Time) (m : Bytes) → marshal t ≡ ok m → All IsByte m
unfolding marshal
marshal-IsByte t m h =
    let (off, made, wrote) = >>=-eq-ok (zone_bytes t.zone) _ h in
    rw (ok_injective _ m (sym wrote)) (
      omega arith,
      All-append IsByte (to_be 8 t.sec) (to_be 4 t.nsec ++ to_be 2 off) (to_be-IsByte 8 t.sec) (
          All-append IsByte (to_be 4 t.nsec) (to_be 2 off) (to_be-IsByte 4 t.nsec)
            (to_be-IsByte 2 off)),
    )

pub marshal-nonempty : (t : Time) (m : Bytes) → marshal t ≡ ok m → m ≢ []
unfolding marshal
marshal-nonempty t m h e = let (off, made, wrote) = >>=-eq-ok (zone_bytes t.zone) _ h in cc
