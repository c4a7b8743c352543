-- ===== src/Sample/Node.antt =====
-- An IPFS node that names a file by its content and keeps a list of files.
use p2p_verse.Common.{
  ◌≡◌, refl, sym, Bool, true, false, none, List, [], ◌∷◌, Bytes, foreign, Result, ok, err, bytes_eq,
  bytes_eq_refl, if◌then◌else◌, arith,
}
use p2p_verse.External.Messages.{Codec}
use p2p_verse.External.Ipfs.{Peer, BlockCids, IsLawful}
use p2p_verse.Sample.Crypto.{codec_of, codec_of-IsLawful}

unfoldable pub is_kept : Bytes → List Bytes → Bool
is_kept c [] = false
is_kept c (b ∷ bs) = let rest = is_kept c bs in if bytes_eq c b then true else rest

unfoldable pub open_kept : Bytes → List Bytes → Result Bytes
open_kept c s = if is_kept c s then ok c else err (foreign [])

abbrev cids_codec : Codec BlockCids
cids_codec = codec_of (λ (a : BlockCids). a.cids) (λ fs. ok (record { cids = fs }))

abbrev pub node : Peer
node = record {
  State = List Bytes;
  Cid = Bytes;
  File = Bytes;
  add_file = λ s b. (b ∷ s, ok b);
  get_file = λ s c. open_kept c s;
  read_all = λ s f. ok f;
  has_block = λ s c. (is_kept c s, none);
  cid_string = λ c. c;
  cid_decode = λ t. ok t;
  is_deadline = λ e. false;
  block_cids = cids_codec;
}

kept_new : (b : Bytes) (s : List Bytes) → open_kept b (b ∷ s) ≡ ok b
unfolding open_kept is_kept
kept_new b s = rw (bytes_eq_refl b)

kept_after : (b c d : Bytes) (s : List Bytes) → open_kept c s ≡ ok d → open_kept c (b ∷ s) ≡ ok d
unfolding open_kept is_kept
kept_after b c d s h = ground arith

pub node-IsLawful : IsLawful node
node-IsLawful = record {
  add_file-Holds = λ s b c h. (c, kept_same b c s h, sym h);
  add_file_keeps = λ s b d c (f, opened, read). (f, kept_after b c f s opened, read);
  cid_decode-cid_string = λ c. refl;
  block_cids_lawful = codec_of-IsLawful _ _ (λ a. refl);
}
  where
    kept_same : (b c : Bytes) (s : List Bytes) → Result.ok b ≡ ok c → open_kept c (b ∷ s) ≡ ok c
    kept_same b c s h = cc (h, kept_new b s)
