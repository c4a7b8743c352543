-- ===== src/Sample/Addresses.antt =====
-- Addresses that are their bytes; a text that begins with "p" is an identity.
use p2p_verse.Common.{
  ◌≡◌, refl, Option, none, some, List, [], ◌∷◌, Bytes, foreign, Result, ok, err, ◌>>=◌, ◌==◌,
  if◌then◌else◌,
}
use p2p_verse.External.Addresses.{Addresses, PbAddrInfo, PbAddrInfos, IsLawful}
use p2p_verse.Sample.Crypto.{codec_of, codec_of-IsLawful}
use p2p_verse.Sample.Fields.{write_fields, read_fields, read_fields-write_fields}

abbrev info_fields : PbAddrInfo → List Bytes
info_fields i = i.id ∷ i.addrs

abbrev build_info : List Bytes → Result PbAddrInfo
build_info [] = err (foreign [])
build_info (id ∷ addrs) = ok (record { id = id; addrs = addrs })

abbrev build_some : Option (List Bytes) → Result PbAddrInfo
build_some none = err (foreign [])
build_some (some fs) = build_info fs

unfoldable pub write_infos : List PbAddrInfo → List Bytes
write_infos [] = []
write_infos (i ∷ is) = write_fields (info_fields i) ∷ write_infos is

unfoldable pub read_infos : List Bytes → Result (List PbAddrInfo)
read_infos [] = ok []
read_infos (f ∷ fs) = do i ← build_some (read_fields [] f); is ← read_infos fs; ok (i ∷ is)

abbrev wrap : Result (List PbAddrInfo) → Result PbAddrInfos
wrap (ok is) = ok (record { addr_infos = is })
wrap (err e) = err e

read_infos-write_infos : (is : List PbAddrInfo) → read_infos (write_infos is) ≡ ok is
unfolding read_infos write_infos
read_infos-write_infos [] = refl
read_infos-write_infos (i ∷ is) =
    rw (read_fields-write_fields (info_fields i), read_infos-write_infos is)

abbrev as_id : Bytes → Result Bytes
as_id [] = err (foreign [])
as_id (c ∷ s) = if c == 112 then ok (c ∷ s) else err (foreign [])

abbrev pub plain : Addresses
plain = record {
  Multiaddr = Bytes;
  addr_bytes = λ m. m;
  new_multiaddr_bytes = λ b. ok b;
  id_string = λ id. id;
  peer_decode = as_id;
  addr_info = codec_of info_fields build_info;
  addr_infos =
      codec_of (λ (is : PbAddrInfos). write_infos is.addr_infos) (λ fs. wrap (read_infos fs));
}

pub plain-IsLawful : IsLawful plain
plain-IsLawful = record {
  new_multiaddr_bytes-addr_bytes = λ m. refl;
  addr_info_lawful = codec_of-IsLawful info_fields build_info (λ i. refl);
  addr_infos_lawful = codec_of-IsLawful _ _ (λ is. rw (read_infos-write_infos is.addr_infos));
}
