-- ===== src/Tests/Timed.antt =====
-- The parameters of a timed run.
use p2p_verse.Common.{◌≡◌, refl, ◌↔◌, List, [], ◌∷◌, arith, Bytes, codes, foreign, Result, ok, err}
use p2p_verse.Std.Time
use p2p_verse.Std.Time.{Time, utc, marshal}
use p2p_verse.External.Messages.{Codec}
use p2p_verse.Sample.Crypto.{codec_of, codec_of-IsLawful}
use p2p_verse.Sample.Fields.{write_fields, seal_bytes}
use p2p_verse.Crdt.TimeParams.{
  TimeMessage, TimeParams, IsInt32, to_int32, unmarshal, unmarshal-marshal_iff,
}
use p2p_verse.Crdt.TimeParams

-- A codec that refuses numbers of more than a byte.
abbrev fields : TimeMessage → List Bytes
fields a = a.name ∷ a.begin ∷ a.end ∷ (a.eps ∷ []) ∷ (a.cool ∷ []) ∷ (a.n ∷ []) ∷ []

abbrev build : List Bytes → Result TimeMessage
build (name ∷ begin ∷ end ∷ (eps ∷ []) ∷ (cool ∷ []) ∷ (n ∷ []) ∷ []) =
    ok (record { name = name; begin = begin; end = end; eps = eps; cool = cool; n = n })
build _ = err (foreign [])

abbrev codec : Codec TimeMessage
codec = codec_of fields build

abbrev noon : Time
noon = record { sec = 63800000000; nsec = 7; zone = utc }

abbrev run : TimeParams
run = record { name = codes "run"; begin = noon; end = noon; eps = 5; cool = 6; n = 3 }

abbrev noon_bytes : Bytes
noon_bytes = 1 ∷ 0 ∷ 0 ∷ 0 ∷ 14 ∷ 218 ∷ 198 ∷ 190 ∷ 0 ∷ 0 ∷ 0 ∷ 0 ∷ 7 ∷ 255 ∷ 255 ∷ []

noon_written : Time.marshal noon ≡ ok noon_bytes
unfolding Time.marshal
noon_written = refl

abbrev run_bytes : Bytes
run_bytes =
    write_fields (codes "run" ∷ noon_bytes ∷ noon_bytes ∷ (5 ∷ []) ∷ (6 ∷ []) ∷ (3 ∷ []) ∷ [])

run_written : TimeParams.marshal codec run ≡ ok run_bytes
unfolding TimeParams.marshal Time.marshal to_int32 write_fields seal_bytes
run_written = refl

unmarshal-marshal_iff_example : (unmarshal codec run_bytes ≡ ok run) ↔ IsInt32 3
unmarshal-marshal_iff_example =
    unmarshal-marshal_iff codec (codec_of-IsLawful fields build (λ a. refl)) run noon_bytes
      noon_bytes run_bytes (record { sec_fits = omega arith; nsec_fits = omega arith })
      (record { sec_fits = omega arith; nsec_fits = omega arith }) noon_written noon_written
      (omega arith) run_written
