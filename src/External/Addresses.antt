-- ===== src/External/Addresses.antt =====
-- Peer identities and multiaddresses of libp2p, and the messages of pb/addrinfo.pb.go.
use p2p_verse.Common.{◌≡◌, List, Bytes, Result, ok}
use p2p_verse.External.Messages
use p2p_verse.External.Messages.{Codec}

-- `pb.AddrInfo`
pub record PbAddrInfo : Type 0 where
  pub id : Bytes
  pub addrs : List Bytes

-- `pb.AddrInfos`
pub record PbAddrInfos : Type 0 where
  pub addr_infos : List PbAddrInfo

pub record Addresses : Type 1 where
  pub Multiaddr : Type 0
  -- `addr.Bytes()` and `ma.NewMultiaddrBytes`
  pub addr_bytes : Multiaddr → Bytes
  pub new_multiaddr_bytes : Bytes → Result Multiaddr
  -- `id.String()` and `peer.Decode`
  pub id_string : Bytes → Bytes
  pub peer_decode : Bytes → Result Bytes
  pub addr_info : Codec PbAddrInfo
  pub addr_infos : Codec PbAddrInfos

pub record IsLawful (a : Addresses) : Type 0 where
  pub new_multiaddr_bytes-addr_bytes :
      (m : a.Multiaddr) → a.new_multiaddr_bytes (a.addr_bytes m) ≡ ok m
  pub addr_info_lawful : Messages.IsLawful a.addr_info
  pub addr_infos_lawful : Messages.IsLawful a.addr_infos

-- `peer.AddrInfo`
pub record AddrInfo (a : Addresses) : Type 0 where
  pub id : Bytes
  pub addrs : List a.Multiaddr

-- The identity is one that `peer.Decode` takes.
abbrev pub IsPeerId : Addresses → Bytes → Type 0
IsPeerId a id = a.peer_decode (a.id_string id) ≡ ok id
