-- ===== src/Ipfs/Blocks.antt =====
-- ipfs/ipfsverse.go: `splitToBlocks`. A reader is what its `Read` calls return, one after another,
-- when each is given a buffer of 256 KiB; reading past the end is not looked at.
use p2p_verse.Common.{
  ℕ, zero, suc, ◌≡◌, ◌≢◌, refl, List, [], ◌∷◌, ◌++◌, append-nil, append_assoc, Bytes, Error, Result,
  ok, err, ◌>>=◌, >>=-eq-ok, ok_injective, All, ap, ◌∙◌, subst, ◌-◌, ◌≤◌, length,
}

pub data Reads : Type 0 where
  -- `n, nil`
  more : Bytes → Reads → Reads
  -- `n, io.EOF`
  last : Bytes → Reads
  -- `n, err`
  fail : Bytes → Error → Reads

-- `if n > 0 { rs = append(rs, buf) }`
unfoldable pub push : Bytes → List Bytes → List Bytes
push [] rs = rs
push (c ∷ b) rs = (c ∷ b) ∷ rs

unfoldable pub split_to_blocks : Reads → Result (List Bytes)
unfolding push
split_to_blocks (more b r) = do rs ← split_to_blocks r; ok (push b rs)
split_to_blocks (last b) = ok (push b [])
split_to_blocks (fail b e) = err e

-- `1<<18`
abbrev pub block_size : ℕ
block_size = 262144

-- The end of a buffer: what is left, and then `io.EOF`.
end_of : Bytes → Reads
end_of [] = last []
end_of (c ∷ b) = more (c ∷ b) (last [])

-- The reads of a `bytes.Buffer`: as much as there is room for. `cur` has been copied so far.
read_from : ℕ → Bytes → Bytes → Reads
unfolding end_of
read_from room cur [] = end_of cur
read_from zero cur (c ∷ rest) = more cur (read_from (block_size - 1) (c ∷ []) rest)
read_from (suc room) cur (c ∷ rest) = read_from room (cur ++ (c ∷ [])) rest

-- `bytes.NewBuffer(data)`
unfoldable pub buffer : Bytes → Reads
unfolding read_from
buffer text = read_from block_size [] text

-- All that the reader yields.
unfoldable pub contents : Reads → Bytes
contents (more b r) = b ++ contents r
contents (last b) = b
contents (fail b e) = b

unfoldable pub concat : List Bytes → Bytes
concat [] = []
concat (b ∷ bs) = b ++ concat bs

-- No read returns more than its buffer holds.
abbrev pub IsFitting : Reads → Type 0
IsFitting (more b r) = (length b ≤ block_size) × IsFitting r
IsFitting (last b) = length b ≤ block_size
IsFitting (fail b e) = length b ≤ block_size

abbrev pub IsBlock : Bytes → Type 0
IsBlock b = (b ≢ []) × (length b ≤ block_size)

concat-push : (b : Bytes) (rs : List Bytes) → concat (push b rs) ≡ b ++ concat rs
unfolding push
concat-push [] rs = refl
concat-push (c ∷ b) rs = unfold concat in refl

push-IsBlock :
    (b : Bytes) (rs : List Bytes) → length b ≤ block_size → All IsBlock rs → All IsBlock (push b rs)
unfolding push
push-IsBlock [] rs fits h = h
push-IsBlock (c ∷ b) rs fits h = ((λ e. cc, fits), h)

pub split_to_blocks-concat :
    (r : Reads) (rs : List Bytes) → split_to_blocks r ≡ ok rs → concat rs ≡ contents r
unfolding split_to_blocks contents
split_to_blocks-concat (more b r) rs h =
    let (bs, split, out) = >>=-eq-ok (split_to_blocks r) _ h in
    let same = split_to_blocks-concat r bs split in
    subst (λ l. concat l ≡ b ++ contents r) (ok_injective _ _ out)
      (concat-push b bs ∙ ap (λ (t : Bytes). b ++ t) same)
split_to_blocks-concat (last b) rs h =
    subst (λ l. concat l ≡ b) (ok_injective _ _ h)
      (concat-push b [] ∙ unfold concat in append-nil b)
split_to_blocks-concat (fail b e) rs h = absurd (cc h)

split_to_blocks-IsBlock :
    (r : Reads) (rs : List Bytes) → split_to_blocks r ≡ ok rs → IsFitting r → All IsBlock rs
unfolding split_to_blocks
split_to_blocks-IsBlock (more b r) rs h (fits, rest) =
    let (bs, split, out) = >>=-eq-ok (split_to_blocks r) _ h in
    subst (All IsBlock) (ok_injective _ _ out)
      (push-IsBlock b bs fits (split_to_blocks-IsBlock r bs split rest))
split_to_blocks-IsBlock (last b) rs h fits =
    subst (All IsBlock) (ok_injective _ _ h) (push-IsBlock b [] fits tt)
split_to_blocks-IsBlock (fail b e) rs h fits = absurd (cc h)

-- The blocks of a reader that was split are together what it yields, in order; if no read exceeds
-- its buffer, then no block is empty or longer than 256 KiB.
pub split_to_blocks_lem :
    (r : Reads) (rs : List Bytes)
    → split_to_blocks r ≡ ok rs
    → IsFitting r
    → (concat rs ≡ contents r) × All IsBlock rs
split_to_blocks_lem r rs h fits =
    (split_to_blocks-concat r rs h, split_to_blocks-IsBlock r rs h fits)

contents-read_from :
    (room : ℕ) (cur rest : Bytes) → contents (read_from room cur rest) ≡ cur ++ rest
unfolding contents read_from end_of
contents-read_from room [] [] = refl
contents-read_from room (b ∷ cur) [] = refl
contents-read_from zero cur (c ∷ rest) =
    ap (λ (t : Bytes). cur ++ t) (contents-read_from (block_size - 1) (c ∷ []) rest)
contents-read_from (suc room) cur (c ∷ rest) =
    contents-read_from room (cur ++ (c ∷ [])) rest ∙ append_assoc cur (c ∷ []) rest

pub contents-buffer : (text : Bytes) → contents (buffer text) ≡ text
unfolding buffer
contents-buffer text = contents-read_from block_size [] text
