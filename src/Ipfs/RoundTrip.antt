-- ===== src/Ipfs/RoundTrip.antt =====
-- What was added to the IPFS store is what `Get` returns.
use p2p_verse.Common.{
  ◌≡◌, refl, List, [], ◌∷◌, Bytes, Error, Result, ok, err, ◌>>=◌, >>=-eq-ok, ok_injective,
  Result-cases, inl, inr, ap, ◌∙◌, subst,
}
use p2p_verse.External.Ipfs.{Peer, IsLawful}
use p2p_verse.Ipfs.Blocks.{
  Reads, split_to_blocks, contents, concat, buffer, split_to_blocks-concat, contents-buffer,
}
use p2p_verse.Ipfs.Store.{
  add_file, add_blocks, add_marshalled, add_cids, add_split, add_reader, add, get_file, get_files,
  merge_from_blocks, get,
}

module _ (p : Peer) where
  -- The file under the text of a CID can be opened and read, and has the content.
  abbrev Names : p.State → Bytes → Bytes → Type 0
  Names s cid b = (f : p.File) × (get_file p s cid ≡ ok f) × (p.read_all s f ≡ ok b)

  abbrev NamesAll : p.State → List Bytes → List Bytes → Type 0
  NamesAll s [] [] = Unit
  NamesAll s (c ∷ cs) (b ∷ bs) = Names s c b × NamesAll s cs bs
  NamesAll s _ _ = ⊥

  pub err-ne-ok {ℓ} : {A : Type ℓ} (e : Error) (a : A) → ◌≡◌ {A = Result A} (err e) (ok a) → ⊥
  err-ne-ok e a h = cc

  pub add_blocks_first :
      (s : p.State) (b c : Bytes) (bs : List Bytes)
      → (add_file p s b).1 ≡ ok c
      → add_blocks p s (b ∷ bs) ≡ (
        (add_blocks p (add_file p s b).0 bs).0,
        (add_blocks p (add_file p s b).0 bs).1 >>= λ cs. ok (c ∷ cs),
      )
  unfolding add_blocks
  add_blocks_first s b c bs e = rw (add_blocks, e) refl

  pub add_blocks_stop :
      (s : p.State) (b : Bytes) (bs : List Bytes) (e : Error)
      → (add_file p s b).1 ≡ err e
      → add_blocks p s (b ∷ bs) ≡ ((add_file p s b).0, err e)
  unfolding add_blocks
  add_blocks_stop s b bs e h = rw (add_blocks, h) refl

  module _ (lawful : IsLawful p) where
    add_file-Names :
        (s : p.State) (b cid : Bytes) → (add_file p s b).1 ≡ ok cid → Names (add_file p s b).0 cid b
    unfolding add_file get_file
    add_file-Names s b cid h =
        let (c, added, shown) = >>=-eq-ok (p.add_file s b).1 _ h in
        let (f, opened, read) = lawful.add_file-Holds s b c added in
        let spelled : p.cid_string c ≡ cid = ok_injective _ _ shown in
        (f, rw (← spelled, lawful.cid_decode-cid_string c) opened, read)

    add_file_keeps :
        (s : p.State) (b cid other : Bytes) → Names s cid other → Names (add_file p s b).0 cid other
    unfolding add_file get_file
    add_file_keeps s b cid other (f, opened, read) =
        let (c, decoded, found) = >>=-eq-ok (p.cid_decode cid) _ opened in
        let (g, opened', read') = lawful.add_file_keeps s b other c (f, found, read) in
        (g, rw decoded opened', read')

    add_blocks_keeps :
        (s : p.State) (bs : List Bytes) (cid other : Bytes)
        → Names s cid other
        → Names (add_blocks p s bs).0 cid other
    unfolding add_blocks
    add_blocks_keeps s [] cid other n = n
    add_blocks_keeps s (b ∷ bs) cid other n =
        let here = add_file_keeps s b cid other n in
        elim (Result-cases (add_file p s b).1) [
          | inl (c, e) ↦
              rw (add_blocks_first s b c bs e)
                (add_blocks_keeps (add_file p s b).0 bs cid other here)
          | inr (e', e) ↦ rw (add_blocks_stop s b bs e' e) here
        ]

    add_blocks-NamesAll :
        (s : p.State) (bs cs : List Bytes)
        → (add_blocks p s bs).1 ≡ ok cs
        → NamesAll (add_blocks p s bs).0 cs bs
    unfolding add_blocks
    add_blocks-NamesAll s [] cs h = subst (λ l. NamesAll s l []) (ok_injective _ _ h) tt
    add_blocks-NamesAll s (b ∷ bs) cs h = elim (Result-cases (add_file p s b).1) [
      | inl (c, e) ↦
          let (cs', rest, shown) =
            >>=-eq-ok (add_blocks p (add_file p s b).0 bs).1 (λ l. ok (c ∷ l))
              (rw (add_blocks_first s b c bs e) at h) in
          let first = add_blocks_keeps (add_file p s b).0 bs c b (add_file-Names s b c e) in
          let others = add_blocks-NamesAll (add_file p s b).0 bs cs' rest in
          rw (add_blocks_first s b c bs e) (
            subst (λ l. NamesAll (add_blocks p (add_file p s b).0 bs).0 l (b ∷ bs))
              (ok_injective _ _ shown) (first, others))
      | inr (e', e) ↦ absurd (err-ne-ok e' cs (rw (add_blocks_stop s b bs e' e) at h))
    ]

    NamesAll-keeps :
        (s : p.State) (m : Bytes) (cs bs : List Bytes)
        → NamesAll s cs bs
        → NamesAll (add_file p s m).0 cs bs
    NamesAll-keeps s m [] [] n = tt
    NamesAll-keeps s m [] (b ∷ bs) n = n
    NamesAll-keeps s m (c ∷ cs) [] n = n
    NamesAll-keeps s m (c ∷ cs) (b ∷ bs) (n, ns) =
        (add_file_keeps s m c b n, NamesAll-keeps s m cs bs ns)

    merge-NamesAll :
        (s : p.State) (cs bs : List Bytes)
        → NamesAll s cs bs
        → (get_files p s cs >>= merge_from_blocks p s) ≡ ok (concat bs)
    unfolding get_files merge_from_blocks concat
    merge-NamesAll s [] [] n = refl
    merge-NamesAll s [] (b ∷ bs) n = absurd n
    merge-NamesAll s (c ∷ cs) [] n = absurd n
    merge-NamesAll s (c ∷ cs) (b ∷ bs) ((f, opened, read), ns) =
        let (fs, files, merged) = >>=-eq-ok (get_files p s cs) _ (merge-NamesAll s cs bs ns) in
        rw (opened, files, merge_from_blocks, read, merged)

    get-add_split :
        (s : p.State) (bs : List Bytes) (cid : Bytes)
        → (add_split p s (ok bs)).1 ≡ ok cid
        → get p (add_split p s (ok bs)).0 cid ≡ ok (concat bs)
    unfolding add_split add_cids add_marshalled get
    get-add_split s bs cid h = elim (Result-cases (add_blocks p s bs).1) [
      | inr (e', e) ↦ absurd (err-ne-ok e' cid (rw e at h))
      | inl (cs, e) ↦ elim (Result-cases (p.block_cids.marshal (record { cids = cs }))) [
        | inr (e2', e2) ↦ absurd (err-ne-ok e2' cid (rw (e, e2) at h))
        | inl (m, e2) ↦
            let t = (add_blocks p s bs).0 in
            let (f, opened, read) = add_file-Names t m cid (rw (e, e2) at h) in
            let blocks = NamesAll-keeps t m cs bs (add_blocks-NamesAll s bs cs e) in
            rw (e, e2, opened, read, lawful.block_cids_lawful.unmarshal-marshal _ m e2)
              (merge-NamesAll (add_file p t m).0 cs bs blocks)
      ]
    ]

    -- A reader that `AddReader` took is read back under the CID that it returned: all that the
    -- reader yields, in order.
    pub get-add_reader :
        (s : p.State) (r : Reads) (cid : Bytes)
        → (add_reader p s r).1 ≡ ok cid
        → get p (add_reader p s r).0 cid ≡ ok (contents r)
    unfolding add_reader
    get-add_reader s r cid h = elim (Result-cases (split_to_blocks r)) [
      | inl (bs, e) ↦
          rw (e, get-add_split s bs cid (rw e at h))
            (ap (λ (b : Bytes). ok b) (split_to_blocks-concat r bs e))
      | inr (e', e) ↦ absurd (err-ne-ok e' cid (rw (e, add_split) at h))
    ]

    -- Bytes that `Add` took are what `Get` of the CID that it returned gives.
    pub get-add :
        (s : p.State) (text cid : Bytes)
        → (add p s text).1 ≡ ok cid
        → get p (add p s text).0 cid ≡ ok text
    unfolding add
    get-add s text cid h =
        get-add_reader s (buffer text) cid h ∙ ap (λ (b : Bytes). ok b) (contents-buffer text)
