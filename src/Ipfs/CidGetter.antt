-- ===== src/Ipfs/CidGetter.antt =====
-- ipfs/cidgetter.go: the CID of a text, found by adding it to a node of its own, in memory. Its
-- `addReader` and `newBlockCids` are those of `ipfsStore`, over the getter's node.
use p2p_verse.Common.{
  ◌≡◌, List, [], ◌∷◌, Bytes, Result, ok, >>=-eq-ok, ok_injective, Result-cases, inl, inr, sym, ap,
  ◌∙◌, subst, map,
}
use p2p_verse.External.Ipfs.{Peer, BlockCids}
use p2p_verse.Ipfs.Blocks.{Reads, split_to_blocks, buffer}
use p2p_verse.Ipfs.Store.{
  add_file, add_blocks, add_marshalled, add_cids, add_split, add_reader, add,
}
use p2p_verse.Ipfs.RoundTrip.{add_blocks_first, add_blocks_stop, err-ne-ok}

module _ (p : Peer) where
  unfoldable pub get_reader : p.State → Reads → p.State × Result Bytes
  unfolding add_split
  get_reader s r = add_split p s (split_to_blocks r)

  unfoldable pub get : p.State → Bytes → p.State × Result Bytes
  get s text = get_reader s (buffer text)

-- The CID of a file is decided by its content, whatever else the node holds.
abbrev pub IsNaming : Peer → (Bytes → Bytes) → Type 0
IsNaming p name =
    (s : p.State) (b : Bytes) (c : p.Cid) → (p.add_file s b).1 ≡ ok c → p.cid_string c ≡ name b

module _ (p : Peer) (name : Bytes → Bytes) (naming : IsNaming p name) where
  add_file-name : (s : p.State) (b cid : Bytes) → (add_file p s b).1 ≡ ok cid → cid ≡ name b
  unfolding add_file
  add_file-name s b cid h =
      let (c, added, shown) = >>=-eq-ok (p.add_file s b).1 _ h in
      ok_injective _ _ (sym shown) ∙ naming s b c added

  add_blocks-map :
      (s : p.State) (bs cs : List Bytes) → (add_blocks p s bs).1 ≡ ok cs → cs ≡ map name bs
  unfolding add_blocks
  add_blocks-map s [] cs h = ok_injective _ _ (sym h)
  add_blocks-map s (b ∷ bs) cs h = elim (Result-cases (add_file p s b).1) [
    | inl (c, e) ↦
        let (cs', rest, shown) =
          >>=-eq-ok (add_blocks p (add_file p s b).0 bs).1 (λ l. ok (c ∷ l))
            (rw (add_blocks_first p s b c bs e) at h) in
        ok_injective _ _ (sym shown)
        ∙ rw (add_file-name s b c e, add_blocks-map (add_file p s b).0 bs cs' rest)
    | inr (e', e) ↦ absurd (err-ne-ok p e' cs (rw (add_blocks_stop p s b bs e' e) at h))
  ]

  -- What a CID is made of: the names of the blocks, in the message.
  add_split-name :
      (s : p.State) (bs : List Bytes) (cid : Bytes)
      → (add_split p s (ok bs)).1 ≡ ok cid
      → (m : Bytes) × (p.block_cids.marshal (record { cids = map name bs }) ≡ ok m) × (cid ≡ name m)
  unfolding add_split add_cids add_marshalled
  add_split-name s bs cid h = elim (Result-cases (add_blocks p s bs).1) [
    | inr (e', e) ↦ absurd (err-ne-ok p e' cid (rw e at h))
    | inl (cs, e) ↦ elim (Result-cases (p.block_cids.marshal (record { cids = cs }))) [
      | inr (e2', e2) ↦ absurd (err-ne-ok p e2' cid (rw (e, e2) at h))
      | inl (m, e2) ↦ (
        m,
        subst (λ l. p.block_cids.marshal (record { cids = l }) ≡ ok m) (add_blocks-map s bs cs e)
            e2,
        add_file-name (add_blocks p s bs).0 m cid (rw (e, e2) at h),
      )
    ]
  ]

module _ (p q : Peer) (name : Bytes → Bytes) (p_named : IsNaming p name) (q_named : IsNaming q name)
    (same : (bc : BlockCids) → p.block_cids.marshal bc ≡ q.block_cids.marshal bc) where
  same_split :
      (s : p.State) (t : q.State) (bs : List Bytes) (c c' : Bytes)
      → (add_split p s (ok bs)).1 ≡ ok c
      → (add_split q t (ok bs)).1 ≡ ok c'
      → c ≡ c'
  same_split s t bs c c' h k =
      let (m, made, named) = add_split-name p name p_named s bs c h in
      let (n, made', named') = add_split-name q name q_named t bs c' k in
      let m_is : m ≡ n = ok_injective _ _ (sym made ∙ same _ ∙ made') in
      named ∙ ap name m_is ∙ sym named'

  -- The getter's CID of a reader's bytes is the one under which a store adds them, whatever either
  -- node holds, as long as both nodes name a file by its content alone and write messages alike.
  pub get_reader-eq-add_reader :
      (s : p.State) (t : q.State) (r : Reads) (c c' : Bytes)
      → (get_reader p s r).1 ≡ ok c
      → (add_reader q t r).1 ≡ ok c'
      → c ≡ c'
  unfolding get_reader add_reader
  get_reader-eq-add_reader s t r c c' h k = elim (Result-cases (split_to_blocks r)) [
    | inl (bs, e) ↦ same_split s t bs c c' (rw e at h) (rw e at k)
    | inr (e', e) ↦ absurd (err-ne-ok p e' c (rw (e, add_split) at h))
  ]

  pub get-eq-add :
      (s : p.State) (t : q.State) (text c c' : Bytes)
      → (get p s text).1 ≡ ok c
      → (add q t text).1 ≡ ok c'
      → c ≡ c'
  unfolding get add
  get-eq-add s t text c c' h k = get_reader-eq-add_reader s t (buffer text) c c' h k
