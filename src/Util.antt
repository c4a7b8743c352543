-- ===== src/Util.antt =====
-- util.go: peer addresses as text.
use p2p_verse.Common.{
  ◌≡◌, ◌≢◌, refl, List, [], ◌∷◌, Bytes, Result, ok, err, ◌>>=◌, Result-cases, inl, inr, ap, All,
}
use p2p_verse.Std.Base64.{decode}
use p2p_verse.Std.Base64.RoundTrip.{decode-encode}
use p2p_verse.External.Addresses.{Addresses, AddrInfo, PbAddrInfo, IsPeerId, IsLawful}
use p2p_verse.Crdt.Address.{text_or_nil}

module _ (a : Addresses) where
  -- The loop over `ai.Addrs`
  addrs_bytes : List a.Multiaddr → List Bytes
  addrs_bytes [] = []
  addrs_bytes (m ∷ ms) = a.addr_bytes m ∷ addrs_bytes ms

  unfoldable pub peer_to_pb : AddrInfo a → PbAddrInfo
  unfolding addrs_bytes
  peer_to_pb ai = record { id = a.id_string ai.id; addrs = addrs_bytes ai.addrs }

  -- The loop over `mai.GetAddrs()`
  read_addrs : List Bytes → Result (List a.Multiaddr)
  read_addrs [] = ok []
  read_addrs (b ∷ bs) = do m ← a.new_multiaddr_bytes b; ms ← read_addrs bs; ok (m ∷ ms)

  unfoldable pub pb_to_peer : PbAddrInfo → Result (AddrInfo a)
  unfolding read_addrs
  pb_to_peer mai = do
    id ← a.peer_decode mai.id
    addrs ← read_addrs mai.addrs
    ok (record { id = id; addrs = addrs })

  -- `peer.AddrInfo{}` where something fails
  abbrev info_or_empty : Result (AddrInfo a) → AddrInfo a
  info_or_empty (ok ai) = ai
  info_or_empty (err e) = record { id = []; addrs = [] }

  abbrev infos_or_nil : Result (List (AddrInfo a)) → List (AddrInfo a)
  infos_or_nil (ok ais) = ais
  infos_or_nil (err e) = []

  unfoldable pub addr_info_to_string : AddrInfo a → Bytes
  addr_info_to_string ai = text_or_nil (a.addr_info.marshal (peer_to_pb ai))

  unfoldable pub addr_info_from_string : Bytes → AddrInfo a
  addr_info_from_string s =
      info_or_empty (decode s >>= λ m. a.addr_info.unmarshal m >>= λ mai. pb_to_peer mai)

  peers_to_pb : List (AddrInfo a) → List PbAddrInfo
  peers_to_pb [] = []
  peers_to_pb (ai ∷ ais) = peer_to_pb ai ∷ peers_to_pb ais

  unfoldable pub addr_infos_to_string : List (AddrInfo a) → Bytes
  unfolding peers_to_pb
  addr_infos_to_string ais =
      text_or_nil (a.addr_infos.marshal (record { addr_infos = peers_to_pb ais }))

  -- The loop over `mais.AddrInfos`; one that cannot be read is left out.
  pbs_to_peers : List PbAddrInfo → List (AddrInfo a)
  pbs_to_peers [] = []
  pbs_to_peers (m ∷ ms) = elim (pb_to_peer m) [
    | ok ai ↦ ai ∷ pbs_to_peers ms
    | err e ↦ pbs_to_peers ms
  ]

  unfoldable pub addr_infos_from_string : Bytes → List (AddrInfo a)
  unfolding pbs_to_peers
  addr_infos_from_string s =
      infos_or_nil
        (decode s >>= λ m. a.addr_infos.unmarshal m >>= λ mais. ok (pbs_to_peers mais.addr_infos))

  module _ (lawful : IsLawful a) where
    read_addrs-addrs_bytes : (ms : List a.Multiaddr) → read_addrs (addrs_bytes ms) ≡ ok ms
    unfolding read_addrs addrs_bytes
    read_addrs-addrs_bytes [] = refl
    read_addrs-addrs_bytes (m ∷ ms) =
        rw (lawful.new_multiaddr_bytes-addr_bytes m, read_addrs-addrs_bytes ms)

    pb_to_peer-peer_to_pb :
        (ai : AddrInfo a) → IsPeerId a ai.id → pb_to_peer (peer_to_pb ai) ≡ ok ai
    unfolding pb_to_peer peer_to_pb
    pb_to_peer-peer_to_pb ai valid = rw (valid, read_addrs-addrs_bytes ai.addrs)

    pbs_to_peers-peers_to_pb :
        (ais : List (AddrInfo a))
        → All (λ (ai : AddrInfo a). IsPeerId a ai.id) ais
        → pbs_to_peers (peers_to_pb ais) ≡ ais
    unfolding peers_to_pb pbs_to_peers
    pbs_to_peers-peers_to_pb [] h = refl
    pbs_to_peers-peers_to_pb (ai ∷ ais) (valid, h) =
        rw (pbs_to_peers, pb_to_peer-peer_to_pb ai valid, pbs_to_peers-peers_to_pb ais h)

    -- A peer's address is read back from its text, if a text could be made and the identity is a
    -- valid one.
    pub addr_info_from_string-addr_info_to_string :
        (ai : AddrInfo a)
        → IsPeerId a ai.id
        → addr_info_to_string ai ≢ []
        → addr_info_from_string (addr_info_to_string ai) ≡ ai
    unfolding addr_info_to_string addr_info_from_string
    addr_info_from_string-addr_info_to_string ai valid made =
        elim (Result-cases (a.addr_info.marshal (peer_to_pb ai))) [
          | inl (m, e) ↦ rw (
            e,
            decode-encode m (lawful.addr_info_lawful.marshal-IsByte _ m e),
            lawful.addr_info_lawful.unmarshal-marshal _ m e,
            pb_to_peer-peer_to_pb ai valid,
          )
          | inr (e', e) ↦ absurd (made (ap text_or_nil e))
        ]

    -- A list of peers' addresses is read back from its text, in order and with none left out, if a
    -- text could be made and the identities are valid ones.
    pub addr_infos_from_string-addr_infos_to_string :
        (ais : List (AddrInfo a))
        → All (λ (ai : AddrInfo a). IsPeerId a ai.id) ais
        → addr_infos_to_string ais ≢ []
        → addr_infos_from_string (addr_infos_to_string ais) ≡ ais
    unfolding addr_infos_to_string addr_infos_from_string
    addr_infos_from_string-addr_infos_to_string ais valid made =
        elim (Result-cases (a.addr_infos.marshal (record { addr_infos = peers_to_pb ais }))) [
          | inl (m, e) ↦ rw (
            e,
            decode-encode m (lawful.addr_infos_lawful.marshal-IsByte _ m e),
            lawful.addr_infos_lawful.unmarshal-marshal _ m e,
            pbs_to_peers-peers_to_pb ais valid,
          )
          | inr (e', e) ↦ absurd (made (ap text_or_nil e))
        ]
