-- ===== src/Ipfs/Store.antt =====
-- ipfs/ipfsverse.go: the operations of `ipfsStore`. The deadlines of the calls are left out: a call
-- that misses its deadline is one that answers with an error. The state is the node's.
use p2p_verse.Common.{
  Bool, Option, none, some, List, [], ◌∷◌, ◌++◌, Bytes, Error, Result, ok, err, ◌>>=◌,
  if◌then◌else◌,
}
use p2p_verse.External.Ipfs.{Peer}
use p2p_verse.Ipfs.Blocks.{Reads, split_to_blocks, buffer}

module _ (p : Peer) where
  -- `addReader`
  unfoldable pub add_file : p.State → Bytes → p.State × Result Bytes
  add_file s b = let (t, r) = p.add_file s b in (t, r >>= λ c. ok (p.cid_string c))

  -- The loop of `newBlockCids`
  unfoldable pub add_blocks : p.State → List Bytes → p.State × Result (List Bytes)
  add_blocks s [] = (s, ok [])
  add_blocks s (b ∷ bs) =
      let (t, r) = add_file s b in
      let (u, rest) = add_blocks t bs in
      elim r [ err e ↦ (t, err e) | ok c ↦ (u, rest >>= λ cs. ok (c ∷ cs)) ]

  -- The rest of `AddReader` with the marshalled list of CIDs, with the list, and with the blocks.
  unfoldable pub add_marshalled : p.State → Result Bytes → p.State × Result Bytes
  add_marshalled s (err e) = (s, err e)
  add_marshalled s (ok m) = add_file s m

  unfoldable pub add_cids : p.State × Result (List Bytes) → p.State × Result Bytes
  unfolding add_marshalled
  add_cids (s, err e) = (s, err e)
  add_cids (s, ok cs) = add_marshalled s (p.block_cids.marshal (record { cids = cs }))

  unfoldable pub add_split : p.State → Result (List Bytes) → p.State × Result Bytes
  unfolding add_cids
  add_split s (err e) = (s, err e)
  add_split s (ok bs) = add_cids (add_blocks s bs)

  unfoldable pub add_reader : p.State → Reads → p.State × Result Bytes
  unfolding add_split
  add_reader s r = add_split s (split_to_blocks r)

  unfoldable pub add : p.State → Bytes → p.State × Result Bytes
  add s text = add_reader s (buffer text)

  -- `getReader`
  unfoldable pub get_file : p.State → Bytes → Result p.File
  get_file s cid = do c ← p.cid_decode cid; p.get_file s c

  -- The loop of `getReadersFromBlockCids`
  unfoldable pub get_files : p.State → List Bytes → Result (List p.File)
  get_files s [] = ok []
  get_files s (c ∷ cs) = do f ← get_file s c; fs ← get_files s cs; ok (f ∷ fs)

  -- The loop of `mergeFromBlocks`
  unfoldable pub merge_from_blocks : p.State → List p.File → Result Bytes
  merge_from_blocks s [] = ok []
  merge_from_blocks s (f ∷ fs) = do
    b ← p.read_all s f
    rest ← merge_from_blocks s fs
    ok (b ++ rest)

  -- `GetReader`, and `Get`, which reads all of it.
  unfoldable pub get : p.State → Bytes → Result Bytes
  get s cid = do
    bcr ← get_file s cid
    m ← p.read_all s bcr
    bc ← p.block_cids.unmarshal m
    rs ← get_files s bc.cids
    merge_from_blocks s rs

  -- A missed deadline is no error.
  answer_of : Bool × Option Error → Result Bool
  answer_of (b, none) = ok b
  answer_of (b, some e) = if p.is_deadline e then ok b else err e

  unfoldable pub has : p.State → Bytes → Result Bool
  unfolding answer_of
  has s cid = do c ← p.cid_decode cid; answer_of (p.has_block s c)
