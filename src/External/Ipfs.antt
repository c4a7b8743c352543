-- ===== src/External/Ipfs.antt =====
-- The IPFS node of ipfs-lite, with `cid.Decode`, and the codec of the one message of ipfs/pb. Files
-- are added by content; a node keeps what was added to it.
use p2p_verse.Common.{◌≡◌, Bool, Option, List, Bytes, Error, Result, ok}
use p2p_verse.External.Messages
use p2p_verse.External.Messages.{Codec}

-- `pb.BlockCids`, and `blockCids` of the same content
pub record BlockCids : Type 0 where
  pub cids : List Bytes

pub record Peer : Type 1 where
  pub State : Type 0
  pub Cid : Type 0
  pub File : Type 0
  -- `AddFile` of a reader that yields the bytes, and `GetFile`
  pub add_file : State → Bytes → State × Result Cid
  pub get_file : State → Cid → Result File
  -- What reading an open file to its end gives.
  pub read_all : State → File → Result Bytes
  pub has_block : State → Cid → Bool × Option Error
  pub cid_string : Cid → Bytes
  pub cid_decode : Bytes → Result Cid
  -- `errors.Is(err, context.DeadlineExceeded)`
  pub is_deadline : Error → Bool
  pub block_cids : Codec BlockCids

-- The file of the CID can be opened and read, and has the content.
abbrev pub Holds : (p : Peer) → p.State → p.Cid → Bytes → Type 0
Holds p s c b = (f : p.File) × (p.get_file s c ≡ ok f) × (p.read_all s f ≡ ok b)

pub record IsLawful (p : Peer) : Type 0 where
  pub add_file-Holds :
      (s : p.State) (b : Bytes) (c : p.Cid)
      → (p.add_file s b).1 ≡ ok c
      → Holds p (p.add_file s b).0 c b
  pub add_file_keeps :
      (s : p.State) (b d : Bytes) (c : p.Cid) → Holds p s c d → Holds p (p.add_file s b).0 c d
  pub cid_decode-cid_string : (c : p.Cid) → p.cid_decode (p.cid_string c) ≡ ok c
  pub block_cids_lawful : Messages.IsLawful p.block_cids
