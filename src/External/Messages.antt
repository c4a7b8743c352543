-- ===== src/External/Messages.antt =====
-- The protobuf messages of crdt/pb, and `proto.Marshal` and `proto.Unmarshal` at one message type.
use p2p_verse.Common.{◌≡◌, Bytes, Result, ok, All}
use p2p_verse.Std.Base64.{IsByte}

pub record BaseAddress : Type 0 where
  pub name : Bytes
  pub salt : Bytes
  pub pid : Bytes
  pub time : Bytes

pub record HashData : Type 0 where
  pub base_hash : Bytes
  pub salt : Bytes
  pub value : Bytes

pub record SignatureData : Type 0 where
  pub value : Bytes
  pub sign : Bytes

pub record AccessKey : Type 0 where
  pub master_key : Bytes
  pub access : Bytes

-- Marshalling fails on text that is not UTF-8.
pub record Codec (A : Type 0) : Type 0 where
  pub marshal : A → Result Bytes
  pub unmarshal : Bytes → Result A

-- What the code relies on: bytes are made, and a message is read back as it was written.
pub record IsLawful {A : Type 0} (c : Codec A) : Type 0 where
  pub unmarshal-marshal : (a : A) (m : Bytes) → c.marshal a ≡ ok m → c.unmarshal m ≡ ok a
  pub marshal-IsByte : (a : A) (m : Bytes) → c.marshal a ≡ ok m → All IsByte m
