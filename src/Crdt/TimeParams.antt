-- ===== src/Crdt/TimeParams.antt =====
-- crdt/pb/timeparams.go: the parameters of a timed run, with the message of crdt/pb/time.pb.go. An
-- `int`, a `time.Duration` and an `int64` are bit patterns of 64 bits, an `int32` is one of 32.
use p2p_verse.Common.{
  ℕ, ◌+◌, ◌-◌, ◌%◌, ◌^◌, ◌<◌, ◌≤◌, ◌≡◌, ◌↔◌, ◌⊎◌, [], arith, Bytes, ltb, Result, ok, err, ◌>>=◌,
  if◌then◌else◌, ok_injective, ap, sym, ◌∙◌, subst,
}
use p2p_verse.Std.Time
use p2p_verse.Std.Time.{Time}
use p2p_verse.Std.Time.RoundTrip
use p2p_verse.External.Messages
use p2p_verse.External.Messages.{Codec}

-- `pb.TimeMessage`
pub record TimeMessage : Type 0 where
  pub name : Bytes
  pub begin : Bytes
  pub end : Bytes
  pub eps : ℕ
  pub cool : ℕ
  pub n : ℕ

pub record TimeParams : Type 0 where
  pub name : Bytes
  pub begin : Time
  pub end : Time
  pub eps : ℕ
  pub cool : ℕ
  pub n : ℕ

-- `int32(n)` and `int(n)`
unfoldable pub to_int32 : ℕ → ℕ
to_int32 n = n % 2 ^ 32

unfoldable pub of_int32 : ℕ → ℕ
of_int32 n = if ltb n (2 ^ 31) then n else n + (2 ^ 64 - 2 ^ 32)

-- `bg, _ := tp.Begin.MarshalBinary()`
abbrev pub bytes_or_nil : Result Bytes → Bytes
bytes_or_nil (ok b) = b
bytes_or_nil (err e) = []

-- The message that `Marshal` writes, with the times as bytes.
abbrev message : TimeParams → Bytes → Bytes → TimeMessage
message tp bg ed = record {
  name = tp.name;
  begin = bg;
  end = ed;
  eps = tp.eps;
  cool = tp.cool;
  n = to_int32 tp.n;
}

module _ (c : Codec TimeMessage) where
  unfoldable pub marshal : TimeParams → Result Bytes
  marshal tp =
      c.marshal
        (message tp (bytes_or_nil (Time.marshal tp.begin)) (bytes_or_nil (Time.marshal tp.end)))

  unfoldable pub unmarshal : Bytes → Result TimeParams
  unmarshal m = do
    tm ← c.unmarshal m
    bg ← Time.unmarshal tm.begin
    ed ← Time.unmarshal tm.end
    ok (record {
      name = tm.name;
      begin = bg;
      end = ed;
      eps = tm.eps;
      cool = tm.cool;
      n = of_int32 tm.n;
    })

-- The 64-bit pattern is that of a number from -2^31 to 2^31 - 1.
abbrev pub IsInt32 : ℕ → Type 0
IsInt32 n = (n < 2 ^ 31) ⊎ (2 ^ 64 - 2 ^ 31 ≤ n)

of_int32-to_int32 : (n : ℕ) → n < 2 ^ 64 → (of_int32 (to_int32 n) ≡ n) ↔ IsInt32 n
unfolding of_int32 to_int32
of_int32-to_int32 n h = (λ e. ground arith, λ k. ground arith)

module _ (c : Codec TimeMessage) (lawful : Messages.IsLawful c) where
  -- What was written is read back, with the count cut to 32 bits and extended again.
  unmarshal-marshal_cut :
      (tp : TimeParams) (bg ed m : Bytes)
      → RoundTrip.IsValid tp.begin
      → RoundTrip.IsValid tp.end
      → Time.marshal tp.begin ≡ ok bg
      → Time.marshal tp.end ≡ ok ed
      → marshal c tp ≡ ok m
      → unmarshal c m ≡ ok (record tp { n = of_int32 (to_int32 tp.n) })
  unfolding marshal unmarshal
  unmarshal-marshal_cut tp bg ed m v w begun ended h =
      let half =
        subst
          (λ r. c.marshal (message tp (bytes_or_nil r) (bytes_or_nil (Time.marshal tp.end))) ≡ ok m)
          begun h in
      let wrote = subst (λ r. c.marshal (message tp bg (bytes_or_nil r)) ≡ ok m) ended half in
      rw (
        lawful.unmarshal-marshal _ m wrote,
        RoundTrip.unmarshal-marshal tp.begin bg v begun,
        RoundTrip.unmarshal-marshal tp.end ed w ended,
      )

  -- Parameters whose times can be written are read back as they were exactly if their count is in
  -- the range of an `int32`; the message has no room for a larger one, and nothing refuses it.
  pub unmarshal-marshal_iff :
      (tp : TimeParams) (bg ed m : Bytes)
      → RoundTrip.IsValid tp.begin
      → RoundTrip.IsValid tp.end
      → Time.marshal tp.begin ≡ ok bg
      → Time.marshal tp.end ≡ ok ed
      → tp.n < 2 ^ 64
      → marshal c tp ≡ ok m
      → (unmarshal c m ≡ ok tp) ↔ IsInt32 tp.n
  unmarshal-marshal_iff tp bg ed m v w begun ended fits h =
      let cut = unmarshal-marshal_cut tp bg ed m v w begun ended h in
      let counted = of_int32-to_int32 tp.n fits in
      (
        λ same.
            let eq = ok_injective tp _ (sym cut ∙ same) in
            counted.0 (ap (λ (t : TimeParams). t.n) eq),
        λ within. cut ∙ ap (λ (k : ℕ). ok (record tp { n = k })) (counted.1 within),
      )
