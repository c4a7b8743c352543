-- ===== src/Tests/Files.antt =====
-- The IPFS store.
use p2p_verse.Common.{◌≡◌, refl, [], ◌∷◌, Bytes, ok, codes, All, arith}
use p2p_verse.Sample.Node.{node, node-IsLawful}
use p2p_verse.Sample.Fields.{write_fields, seal_bytes}
use p2p_verse.Ipfs.Blocks.{
  Reads, more, last, split_to_blocks, contents, concat, buffer, IsBlock, split_to_blocks_lem,
}
use p2p_verse.Ipfs.Store.{add, add_reader, add_blocks, add_file, get}
use p2p_verse.Ipfs.RoundTrip.{get-add}

-- A reader that pauses, and that gives its last bytes together with the end.
abbrev slow : Reads
slow = more (codes "ab") (more [] (last (codes "c")))

slow_split : split_to_blocks slow ≡ ok (codes "ab" ∷ codes "c" ∷ [])
unfolding split_to_blocks
slow_split = refl

split_to_blocks_lem_example :
    (concat (codes "ab" ∷ codes "c" ∷ []) ≡ contents slow)
    × All IsBlock (codes "ab" ∷ codes "c" ∷ [])
split_to_blocks_lem_example =
    split_to_blocks_lem slow (codes "ab" ∷ codes "c" ∷ []) slow_split
      (omega arith, (omega arith, omega arith))

abbrev text_cid : Bytes
text_cid = write_fields (codes "hello" ∷ [])

text_added : (add node [] (codes "hello")).1 ≡ ok text_cid
unfolding add add_reader add_blocks add_file split_to_blocks buffer write_fields seal_bytes
text_added = refl

get-add_example : get node (add node [] (codes "hello")).0 text_cid ≡ ok (codes "hello")
get-add_example = get-add node node-IsLawful [] (codes "hello") text_cid text_added
