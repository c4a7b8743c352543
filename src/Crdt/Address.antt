-- ===== src/Crdt/Address.antt =====
-- crdt/crdtverse.go: `MakeAddress` and `parseAddress`.
use p2p_verse.Common.{
  ◌≡◌, ◌≢◌, refl, List, [], ◌∷◌, Bytes, invalid_address, Result, ok, err, ◌>>=◌, >>=-eq-ok,
  Result-cases, inl, inr, ◌∙◌, ap, subst, All,
}
use p2p_verse.Std.Base64.{encode, decode, IsByte}
use p2p_verse.Std.Base64.RoundTrip.{decode-encode}
use p2p_verse.Std.Time
use p2p_verse.Std.Time.{Time, zero_time}
use p2p_verse.Std.Time.RoundTrip
use p2p_verse.External.Messages.{BaseAddress}
use p2p_verse.External.Crypto.{External, IsLawful}

abbrev pub time_limit_of : List Time → Time
time_limit_of [] = zero_time
time_limit_of (t ∷ ts) = t

-- What `parseAddress` returns.
pub record Parsed : Type 0 where
  pub name : Bytes
  pub salt : Bytes
  pub pid : Bytes
  pub time_limit : Time

abbrev pub text_or_nil : Result Bytes → Bytes
text_or_nil (ok m) = encode m
text_or_nil (err e) = []

module _ (x : External) where
  address_message : Bytes → Bytes → Bytes → Time → Result Bytes
  address_message name pid salt tl = do
    mt ← Time.marshal tl
    x.base_address.marshal (record { name = name; salt = salt; pid = pid; time = mt })

  -- The empty string stands for a failure.
  unfoldable pub make_address : Bytes → Bytes → Bytes → List Time → Bytes
  unfolding address_message
  make_address name pid salt time_limits =
      text_or_nil (address_message name pid salt (time_limit_of time_limits))

  read_message : BaseAddress → Result Parsed
  read_message a = do
    tl ← Time.unmarshal a.time
    ok (record { name = a.name; salt = a.salt; pid = a.pid; time_limit = tl })

  unfoldable pub parse_address : Bytes → Result Parsed
  unfolding read_message
  parse_address [] = err invalid_address
  parse_address (c ∷ s) = do m ← decode (c ∷ s); a ← x.base_address.unmarshal m; read_message a

  parse_address_ne :
      (addr : Bytes)
      → addr ≢ []
      → parse_address addr
        ≡ (decode addr >>= λ m. x.base_address.unmarshal m >>= λ a. read_message a)
  unfolding parse_address
  parse_address_ne [] h = absurd (h refl)
  parse_address_ne (c ∷ s) h = refl

  module _ (lawful : IsLawful x) where
    read_made :
        (name pid salt : Bytes) (tl : Time) (m : Bytes)
        → RoundTrip.IsValid tl
        → address_message name pid salt tl ≡ ok m
        → (x.base_address.unmarshal m >>= λ a. read_message a)
          ≡ ok (record { name = name; salt = salt; pid = pid; time_limit = tl })
    unfolding address_message read_message
    read_made name pid salt tl m v h =
        let (mt, stamped, wrote) = >>=-eq-ok (Time.marshal tl) _ h in
        rw (
          lawful.base_address_lawful.unmarshal-marshal _ m wrote,
          RoundTrip.unmarshal-marshal tl mt v stamped,
        )

    address_message-IsByte :
        (name pid salt : Bytes) (tl : Time) (m : Bytes)
        → address_message name pid salt tl ≡ ok m
        → All IsByte m
    unfolding address_message
    address_message-IsByte name pid salt tl m h =
        let (mt, stamped, wrote) = >>=-eq-ok (Time.marshal tl) _ h in
        lawful.base_address_lawful.marshal-IsByte _ m wrote

    -- An address that was made is read back: name, salt, identity and time limit.
    pub parse_address-make_address :
        (name pid salt : Bytes) (time_limits : List Time)
        → RoundTrip.IsValid (time_limit_of time_limits)
        → make_address name pid salt time_limits ≢ []
        → parse_address (make_address name pid salt time_limits)
          ≡ ok (record {
            name = name;
            salt = salt;
            pid = pid;
            time_limit = time_limit_of time_limits;
          })
    unfolding make_address
    parse_address-make_address name pid salt time_limits v made =
        elim (Result-cases (address_message name pid salt (time_limit_of time_limits))) [
          | inl (m, e) ↦
              let shown : make_address name pid salt time_limits ≡ encode m = ap text_or_nil e in
              rw shown (
                parse_address_ne (encode m) (subst (λ a. a ≢ []) shown made)
                ∙ rw (decode-encode m (address_message-IsByte name pid salt _ m e))
                    (read_made name pid salt _ m v e))
          | inr (err', e) ↦ absurd (made (ap text_or_nil e))
        ]
