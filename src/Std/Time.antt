-- ===== src/Std/Time.antt =====
-- `time.Time` of Go's standard library: an instant and a zone, its order and its binary form
-- (version 1: version byte, 8 bytes of seconds since year 1, 4 of nanoseconds, 2 of zone offset).

pub mod RoundTrip
use p2p_verse.Common.{
  ℕ, zero, suc, ◌+◌, ◌*◌, ◌/◌, ◌%◌, ◌^◌, ◌<◌, ◌≤◌, ◌≡◌, ◌≢◌, refl, Bool, true, false, ◌&&◌, ◌||◌,
  List, [], ◌∷◌, ◌++◌, arith, Bytes, codes, ltb, leb, ◌==◌, if◌then◌else◌, length, All, All-append,
  Error, foreign, Result, ok, err, ◌>>=◌,
}

-- UTC, or an offset in minutes as a 16-bit two's complement number.
pub data Zone : Type 0 where
  utc : Zone
  minutes : ℕ → Zone

-- `sec` is an int64 as a bit pattern.
pub record Time : Type 0 where
  pub sec : ℕ
  pub nsec : ℕ
  pub zone : Zone

-- `time.Time{}`
abbrev pub zero_time : Time
zero_time = record { sec = 0; nsec = 0; zone = utc }

-- The order of int64 values, read off their bit patterns.
signed_rank : ℕ → ℕ
signed_rank n = (n + 2 ^ 63) % 2 ^ 64

unfoldable pub before : Time → Time → Bool
unfolding signed_rank
before t u =
    ltb (signed_rank t.sec) (signed_rank u.sec)
    || (signed_rank t.sec == signed_rank u.sec && ltb t.nsec u.nsec)

unfoldable pub after : Time → Time → Bool
unfolding before
after t u = before u t

-- `Equal` compares the instants, in whatever zones.
unfoldable pub equal : Time → Time → Bool
unfolding signed_rank
equal t u = signed_rank t.sec == signed_rank u.sec && t.nsec == u.nsec

-- `t.UTC()`
abbrev pub to_utc : Time → Time
to_utc t = record t { zone = utc }

-- `t.Location().String() == time.UTC.String()`
abbrev zone_is_utc : Zone → Bool
zone_is_utc utc = true
zone_is_utc (minutes m) = false

abbrev pub is_utc : Time → Bool
is_utc t = zone_is_utc t.zone

-- The `w` low bytes of `n`, the highest first.
to_be : ℕ → ℕ → Bytes
to_be zero n = []
to_be (suc w) n = to_be w (n / 256) ++ (n % 256 ∷ [])

of_be : ℕ → Bytes → ℕ
of_be acc [] = acc
of_be acc (b ∷ s) = of_be (acc * 256 + b) s

take : ℕ → Bytes → Bytes
take zero s = []
take (suc n) [] = []
take (suc n) (b ∷ s) = b ∷ take n s

drop : ℕ → Bytes → Bytes
drop zero s = s
drop (suc n) [] = []
drop (suc n) (b ∷ s) = drop n s

zone_bytes : Zone → Result ℕ
zone_bytes utc = ok 65535
zone_bytes (minutes m) =
    if leb 65535 m then err (foreign (codes "Time.MarshalBinary: unexpected zone offset")) else ok m

zone_of : ℕ → Zone
zone_of n = if n == 65535 then utc else minutes n

unfoldable pub marshal : Time → Result Bytes
unfolding to_be zone_bytes
marshal t = do off ← zone_bytes t.zone; ok (1 ∷ (to_be 8 t.sec ++ (to_be 4 t.nsec ++ to_be 2 off)))

abbrev pub bad_time : Error
bad_time = foreign (codes "Time.UnmarshalBinary: invalid data")

read_fields : Bytes → Time
read_fields r = record {
  sec = of_be 0 (take 8 r);
  nsec = of_be 0 (take 4 (drop 8 r)) % 2 ^ 30;
  zone = zone_of (of_be 0 (drop 4 (drop 8 r)));
}

unfoldable pub unmarshal : Bytes → Result Time
unfolding of_be take drop zone_of read_fields
unmarshal [] = err bad_time
unmarshal (v ∷ r) = if v == 1 && length r == 14 then ok (read_fields r) else err bad_time
