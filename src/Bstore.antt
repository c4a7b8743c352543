-- ===== src/Bstore.antt =====
-- bstore/bootstrapstore.go: addresses of bootstrap peers, kept in an updatable signature store under
-- hashes of the addresses of other stores. The name of the store (`bStoreName`) is an argument.
pub mod Opening
use p2p_verse.Common.{
  ◌≡◌, refl, ◌↔◌, inl, inr, Bool, true, not, ◌&&◌, Option, some, List, [], ◌∷◌, ◌++◌, arith, Bytes,
  Error, invalid_bootstrap, Result, ok, err, ◌>>=◌, length, ltb, ◌==◌, if◌then◌else◌, In,
  Bool-cases, sym, ap, ◌∙◌,
}
use p2p_verse.Std.Base64.{encode, decode}
use p2p_verse.Std.Time.{Time}
use p2p_verse.External.Crypto.{External}
use p2p_verse.External.Datastore.{Datastore, Entry, empty_query, value_bytes}
use p2p_verse.External.Addresses.{Addresses, AddrInfo}
use p2p_verse.Util.{addr_info_from_string, addr_infos_from_string}
use p2p_verse.Crdt.Filters.{key_exist}
use p2p_verse.Crdt.UpdatableSignature
use p2p_verse.Crdt.UpdatableSignature.{UpdatableSignatureStore}

-- `stAddrToKey`
unfoldable pub st_addr_to_key : External → Bytes → Bytes → Bytes
st_addr_to_key x name st_addr = encode (x.argon2 st_addr name 55)

-- `ai.ID != "" && len(ai.Addrs) > 0`
abbrev pub is_usable : (a : Addresses) → AddrInfo a → Bool
is_usable a ai = ltb 0 (length ai.id) && ltb 0 (length ai.addrs)

module _ (a : Addresses) where
  -- The check at the start of `Put`
  unfoldable pub is_address : Bytes → Bool
  is_address b_addr =
      if not (is_usable a (addr_info_from_string a b_addr))
      then not (length (addr_infos_from_string a b_addr) == 0)
      else true

  -- The loop of `Get`
  unfoldable pub infos_of : List Entry → List (AddrInfo a)
  infos_of [] = []
  infos_of (r ∷ rs) =
      let rest = infos_of rs in
      let b_addr = encode (value_bytes r.value) in
      let ai = addr_info_from_string a b_addr in
      if is_usable a ai
      then ai ∷ rest
      else (let tmp = addr_infos_from_string a b_addr in
          if length tmp == 0 then tmp ++ rest else rest)

module _ (x : External) (d : Datastore) (a : Addresses) (name : Bytes) where
  put_decoded :
      Time
      → UpdatableSignatureStore d
      → Bytes
      → Result Bytes
      → UpdatableSignatureStore d × Option Error
  put_decoded now s key (err e) = (s, some e)
  put_decoded now s key (ok val) = UpdatableSignature.put x d now s key val

  unfoldable pub put :
      Time → UpdatableSignatureStore d → Bytes → Bytes → UpdatableSignatureStore d × Option Error
  unfolding put_decoded
  put now s st_addr b_addr =
      if is_address a b_addr
      then put_decoded now s (st_addr_to_key x name st_addr) (decode b_addr)
      else (s, some invalid_bootstrap)

  unfoldable pub get : UpdatableSignatureStore d → Bytes → Result (List (AddrInfo a))
  get s st_addr = do
    let filter = key_exist (st_addr_to_key x name st_addr)
    rs ← UpdatableSignature.query x d s (record empty_query { filters = filter ∷ [] } ∷ [])
    ok (infos_of a rs)

  lists_lost :
      (tmp rest : List (AddrInfo a)) → (if length tmp == 0 then tmp ++ rest else rest) ≡ rest
  lists_lost [] rest = refl
  lists_lost (t ∷ ts) rest = ground arith

  -- The value of the entry, as the text of one peer's address.
  abbrev pub single : Entry → AddrInfo a
  single r = addr_info_from_string a (encode (value_bytes r.value))

  infos_of-single :
      (r : Entry) (rs : List Entry)
      → infos_of a (r ∷ rs)
        ≡ (if is_usable a (single r) then single r ∷ infos_of a rs else infos_of a rs)
  unfolding infos_of
  infos_of-single r rs = elim (Bool-cases (is_usable a (single r))) [
    | inl y ↦ rw y refl
    | inr n ↦ rw n (lists_lost _ (infos_of a rs))
  ]

  -- An address that one of the entries holds alone.
  abbrev pub IsSingle : List Entry → AddrInfo a → Type 0
  IsSingle rs ai = (r : Entry) × In r rs × (single r ≡ ai) × (is_usable a ai ≡ true)

  IsSingle-next :
      (r : Entry) (rs : List Entry) (ai : AddrInfo a) → IsSingle rs ai → IsSingle (r ∷ rs) ai
  IsSingle-next r rs ai (q, m, e, y) = (q, inr m, e, y)

  infos_of_sound : (rs : List Entry) (ai : AddrInfo a) → In ai (infos_of a rs) → IsSingle rs ai
  unfolding infos_of
  infos_of_sound [] ai m = absurd m
  infos_of_sound (r ∷ rs) ai m = elim (Bool-cases (is_usable a (single r))) [
    | inl y ↦ elim (rw (infos_of-single r rs, y) at m) [
      | inl e ↦ (r, inl refl, sym e, rw e y)
      | inr m' ↦ IsSingle-next r rs ai (infos_of_sound rs ai m')
    ]
    | inr n ↦ IsSingle-next r rs ai (infos_of_sound rs ai (rw (infos_of-single r rs, n) at m))
  ]

  infos_of_complete : (rs : List Entry) (ai : AddrInfo a) → IsSingle rs ai → In ai (infos_of a rs)
  infos_of_complete [] ai (r, m, e, y) = absurd m
  infos_of_complete (q ∷ rs) ai (r, inl same, e, y) =
      let here : single q ≡ ai = ap single (sym same) ∙ e in
      rw (infos_of-single q rs, here, y) (inl refl)
  infos_of_complete (q ∷ rs) ai (r, inr m, e, y) =
      let rest = infos_of_complete rs ai (r, m, e, y) in
      elim (Bool-cases (is_usable a (single q))) [
        | inl used ↦ rw (infos_of-single q rs, used) (inr rest)
        | inr n ↦ rw (infos_of-single q rs, n) rest
      ]

  -- Where the store answers the query, `Get` returns exactly the usable addresses that stand alone
  -- in the value of an entry of the answer: no address of a value that holds a list is returned.
  pub get_iff :
      (s : UpdatableSignatureStore d) (st_addr : Bytes) (rs : List Entry)
      → UpdatableSignature.query x d s
          (record empty_query { filters = key_exist (st_addr_to_key x name st_addr) ∷ [] } ∷ [])
        ≡ ok rs
      → (out : List (AddrInfo a)) × (get s st_addr ≡ ok out)
        × ((ai : AddrInfo a) → In ai out ↔ IsSingle rs ai)
  unfolding get
  get_iff s st_addr rs answered =
      (infos_of a rs, rw answered refl, λ ai. (infos_of_sound rs ai, infos_of_complete rs ai))
