-- ===== src/Sender/Blocks/RoundTrip.antt =====
-- From generateAndSendSums to receiveSums: the sender learns the signature of the receiver's file.
use go_rsync_receiver.Prelude.{
  ℕ, zero, suc, ◌+◌, ◌*◌, ◌^◌, ◌≤◌, ◌<◌, ◌≡◌, refl, sym, ap, ◌∙◌, List, [], ◌∷◌, ◌++◌, subst,
  append-nil, arith, Bytes, length, take, drop, concat, length-take, length-drop, take-append-drop,
}
use go_rsync_receiver.Prelude.Int.{ℤ, pos, pos_part, ◌+ℤ◌}
use go_rsync_receiver.Prelude.Words.{IsI32, to_u32, to_i32, to_u32-to_i32}
use go_rsync_receiver.Outcome.{Outcome, ok}
use go_rsync_receiver.Wire.{Conn, int32_bytes, read_full, read_int32}
use go_rsync_receiver.Wire.RoundTrip.{IsFresh, sent-output}
use go_rsync_receiver.Wire.Received.{
  Reads, Reads-bind, Reads-map, Reads-return, received-input, read_full-Reads,
  read_int32-int32_bytes,
}
use go_rsync_receiver.Rsync.{SumBuf, SumHead, zero_head, read_from, head_bytes}
use go_rsync_receiver.Rsync.Heads.{IsValid, read_from-Reads}
use go_rsync_receiver.Receiver.Data.Lengths.{HasLength}
use go_rsync_receiver.Sender.Blocks.Lengths.{sum_len-HasLength}
use go_rsync_receiver.Sizes.{sum_sizes_sqroot}
use go_rsync_receiver.Sizes.Cover.{
  last_length, covered, Describes, sum_sizes_sqroot-Describes, sum_sizes_sqroot-IsValid,
  sum_sizes_sqroot-IsI32,
}
use go_rsync_receiver.Checksum.{checksum1, checksum2}
use go_rsync_receiver.Checksum.Exact.{checksum1_exact}
use go_rsync_receiver.Files.{LocalFile}
use go_rsync_receiver.Receiver.Generator.{generate_and_send_sums}
use go_rsync_receiver.Receiver.Generator.Sums.{
  IsContent, blocks, sum_writes, generate_and_send_sums-Sends,
}
use go_rsync_receiver.Sender.Blocks.{sum_len, padded, make_sum, read_sums, receive_sums}

checksum1-lt : (b : Bytes) → checksum1 b < 2 ^ 32
checksum1-lt b = omega (arith, checksum1_exact b)

to_i32-IsI32 : (w : ℕ) → w < 2 ^ 32 → IsI32 (to_i32 w)
to_i32-IsI32 w h = ground arith

-- The checksums `sums`, of blocks from number `i` and offset `at` on, are the signature of `content`:
-- in order, without gaps, with the length and the two checksums of each block. A block has the length
-- that the head `sh` gives its number, and stands behind blocks of the head's block length.
pub data SignatureOf (md4 : Bytes → Bytes) (seed : ℤ) (sh : SumHead)
    : ℕ → ℕ → List SumBuf → Bytes → Type 0 where
  nil : {i at : ℕ} → SignatureOf md4 seed sh i at [] []
  cons :
      {i at : ℕ} {s : SumBuf} {rest : List SumBuf} {more : Bytes} (b : Bytes)
      → s.index ≡ pos i
      → s.offset ≡ pos at
      → s.len ≡ pos (length b)
      → s.sum1 ≡ checksum1 b
      → s.sum2 ≡ checksum2 md4 seed b
      → HasLength sh i (length b)
      → i * pos_part sh.block_length ≡ at
      → SignatureOf md4 seed sh (i + 1) (at + length b) rest more
      → SignatureOf md4 seed sh i at (s ∷ rest) (b ++ more)

module _ (md4 : Bytes → Bytes) (seed : ℤ) (sixteen : (x : Bytes) → length (md4 x) ≡ 16) where
  -- The checksums that the sender makes of the blocks `bs`.
  sums_of : SumHead → ℕ → ℤ → List Bytes → List SumBuf
  sums_of head i offset [] = []
  sums_of head i offset (b ∷ bs) =
      make_sum head i offset (to_i32 (checksum1 b)) (checksum2 md4 seed b)
      ∷ sums_of head (i + 1) (offset +ℤ sum_len head i) bs

  length-checksum2 : (b : Bytes) → length (checksum2 md4 seed b) ≡ 16
  unfolding checksum2
  length-checksum2 b = sixteen _

  read_sums-Reads :
      (head : SumHead) (i : ℕ) (offset : ℤ) (bs : List Bytes)
      → head.checksum_length ≡ pos 16
      → Reads
          (read_sums (length bs) head i offset)
          (concat (sum_writes md4 seed bs))
          (sums_of head i offset bs)
  unfolding read_sums sums_of sum_writes
  read_sums-Reads head i offset [] e = Reads-return []
  read_sums-Reads head i offset (b ∷ bs) e =
      Reads-bind read_int32 _ (int32_bytes (to_i32 (checksum1 b))) _ (to_i32 (checksum1 b)) _
        (read_int32-int32_bytes _ (to_i32-IsI32 _ (checksum1-lt b)))
        (Reads-bind (read_full (pos_part head.checksum_length)) _ (checksum2 md4 seed b) _
          (checksum2 md4 seed b) _ (read_full-Reads _ _ (length-checksum2 b ∙ sym (ap pos_part e)))
          (Reads-map (read_sums (length bs) head (i + 1) _) _ (concat (sum_writes md4 seed bs))
            (sums_of head (i + 1) (offset +ℤ sum_len head i) bs) _
            (read_sums-Reads head (i + 1) (offset +ℤ sum_len head i) bs e) (λ c. refl)))

length-blocks : (rounds block : ℕ) (content : Bytes) → length (blocks rounds block content) ≡ rounds
unfolding blocks
length-blocks zero block content = refl
length-blocks (suc rounds) block content = ap suc (length-blocks rounds block (drop block content))

-- A block that is not the last is full.
sum_len_inner :
    (head : SumHead) (i count block : ℕ)
    → head.checksum_count ≡ pos count
    → head.block_length ≡ pos block
    → i + 1 < count
    → sum_len head i ≡ pos block
unfolding sum_len
sum_len_inner head i count block c b h = ground arith

sum_len_last :
    (head : SumHead) (i block remainder : ℕ)
    → head.checksum_count ≡ pos (i + 1)
    → head.block_length ≡ pos block
    → head.remainder_length ≡ pos remainder
    → sum_len head i ≡ pos (last_length block remainder)
unfolding sum_len
sum_len_last head i block remainder c b r = ground arith

add_pos : (a b : ℕ) → pos a +ℤ pos b ≡ pos (a + b)
add_pos a b = ground arith

padded_full : (p : Bytes) → length p ≡ 16 → padded p ≡ p
padded_full p h = rw h (append-nil p)

-- The length that the sender takes for the first of `suc rounds` blocks.
first_length :
    (head : SumHead) (count block remainder i rounds : ℕ) (content : Bytes)
    → head.checksum_count ≡ pos count
    → head.block_length ≡ pos block
    → head.remainder_length ≡ pos remainder
    → remainder < block
    → i + suc rounds ≡ count
    → covered (suc rounds) block remainder ≡ length content
    → sum_len head i ≡ pos (length (take block content))
first_length head count block remainder i zero content c b r short e t =
    sum_len_last head i block remainder (c ∙ ap pos (omega arith)) b r
    ∙ ap pos (ground (arith, length-take block content))
first_length head count block remainder i (suc rounds) content c b r short e t =
    sum_len_inner head i count block c b (omega arith)
    ∙ ap pos (ground (arith, length-take block content))

covered_rest :
    (block remainder rounds : ℕ) (content : Bytes)
    → remainder < block
    → covered (suc rounds) block remainder ≡ length content
    → covered rounds block remainder ≡ length (drop block content)
covered_rest block remainder zero content short t = ground (arith, length-drop block content)
covered_rest block remainder (suc rounds) content short t = omega (arith, length-drop block content)

module _ (md4 : Bytes → Bytes) (seed : ℤ) (sixteen : (x : Bytes) → length (md4 x) ≡ 16) where
  sums_of-SignatureOf :
      (head : SumHead) (count block remainder rounds i at : ℕ) (content : Bytes)
      → head.checksum_count ≡ pos count
      → head.block_length ≡ pos block
      → head.remainder_length ≡ pos remainder
      → remainder < block
      → i + rounds ≡ count
      → covered rounds block remainder ≡ length content
      → (0 < rounds → i * block ≡ at)
      → SignatureOf md4 seed head i at
          (sums_of md4 seed sixteen head i (pos at) (blocks rounds block content))
          content
  unfolding sums_of blocks make_sum
  sums_of-SignatureOf head count block remainder zero i at [] c b r short e t g = nil
  sums_of-SignatureOf head count block remainder zero i at (x ∷ content) c b r short e t g =
      absurd (omega arith)
  sums_of-SignatureOf head count block remainder (suc rounds) i at content c b r short e t g =
      subst (SignatureOf md4 seed head i at _) (take-append-drop block content) (
        cons {more = drop block content} (take block content) refl refl len weak strong
          (sum_len-HasLength head i _ len) starts
          (subst
            (λ (o : ℤ).
              SignatureOf md4 seed head (i + 1) (at + length (take block content))
                (sums_of md4 seed sixteen head (i + 1) o (blocks rounds block (drop block content)))
                (drop block content))
            (sym (ap (λ (l : ℤ). pos at +ℤ l) len ∙ add_pos at (length (take block content))))
            (sums_of-SignatureOf head count block remainder rounds (i + 1)
              (at + length (take block content)) (drop block content) c b r short (omega arith)
              (covered_rest block remainder rounds content short t) (next_start rounds content t))))
    where
      starts : i * pos_part head.block_length ≡ at
      starts = ap (λ (z : ℤ). i * pos_part z) b ∙ g (omega arith)

      next_start :
          (more : ℕ) (bytes : Bytes)
          → covered (suc more) block remainder ≡ length bytes
          → 0 < more
          → (i + 1) * block ≡ at + length (take block bytes)
      next_start zero bytes u h = absurd (omega arith)
      next_start (suc more) bytes u h = grind (arith, g (omega arith), length-take block bytes, u)

      len : sum_len head i ≡ pos (length (take block content))
      len = first_length head count block remainder i rounds content c b r short e t

      weak : to_u32 (to_i32 (checksum1 (take block content))) ≡ checksum1 (take block content)
      weak = to_u32-to_i32 _ (checksum1-lt (take block content))

      strong :
          padded (checksum2 md4 seed (take block content)) ≡ checksum2 md4 seed (take block content)
      strong = padded_full _ (length-checksum2 md4 seed sixteen (take block content))

  receive_sums-Reads :
      (head : SumHead) (bs : List Bytes)
      → IsValid head
      → IsI32 head.checksum_count
      → head.checksum_length ≡ pos 16
      → pos_part head.checksum_count ≡ length bs
      → Reads receive_sums
          (head_bytes head ++ concat (sum_writes md4 seed bs))
          (record head { sums = sums_of md4 seed sixteen (record head { sums = [] }) 0 (pos 0) bs })
  unfolding receive_sums
  receive_sums-Reads head bs v r e n =
      let read : SumHead = record head { sums = [] } in
      Reads-bind (read_from zero_head) _ (head_bytes head) _ read _
        (read_from-Reads zero_head head v r)
        (rw n (
          Reads-map (read_sums (length bs) read 0 (pos 0)) _ (concat (sum_writes md4 seed bs))
            (sums_of md4 seed sixteen read 0 (pos 0) bs) _
            (read_sums-Reads md4 seed sixteen read 0 (pos 0) bs e) (λ c. refl)))

module _ (md4 : Bytes → Bytes) (root : ℕ → ℕ) (seed : ℤ) where
  pub receive_sums_lem :
      (file : LocalFile) (content rest : Bytes) (c d : Conn)
      → ((x : Bytes) → length (md4 x) ≡ 16)
      → IsContent file content
      → length content ≤ 700 * 2 ^ 30
      → root (length content) ≤ 2 ^ 29
      → IsFresh c
      → d.input ≡ (generate_and_send_sums md4 root seed file (length content) c).1.output ++ rest
      → let sh = sum_sizes_sqroot root (length content) in
        (sums : List SumBuf) × ((receive_sums d).0 ≡ ok (record sh { sums = sums }))
        × SignatureOf md4 seed (record sh { sums = [] }) 0 0 sums content
        × ((receive_sums d).1.input ≡ rest)
  receive_sums_lem file content rest c d sixteen whole short fits f e =
      let sh = sum_sizes_sqroot root (length content) in
      let s = sum_sizes_sqroot-Describes root (length content) short fits in
      let bs = blocks (pos_part sh.checksum_count) (pos_part sh.block_length) content in
      let sums = sums_of md4 seed sixteen (record sh { sums = [] }) 0 (pos 0) bs in
      let read =
        receive_sums-Reads md4 seed sixteen sh bs (sum_sizes_sqroot-IsValid root _ short fits)
          (sum_sizes_sqroot-IsI32 root _ short fits) sixteen_long
          (sym (length-blocks (pos_part sh.checksum_count) (pos_part sh.block_length) content)) d
          rest (e ∙ ap (λ (o : Bytes). o ++ rest) written) in
      (
        sums,
        ap (λ (r : Outcome SumHead × Conn). r.0) read,
        rw (ap pos_part s.count_is, ap pos_part s.block_is)
            (sums_of-SignatureOf md4 seed sixteen (record sh { sums = [] }) s.count s.block
              s.remainder s.count 0 0 content s.count_is s.block_is s.remainder_is s.short_end
              (omega arith) s.total (λ h. omega arith)),
        ap (λ (r : Outcome SumHead × Conn). r.1.input) read ∙ received-input _ rest d,
      )
    where
      sixteen_long : (sum_sizes_sqroot root (length content)).checksum_length ≡ pos 16
      sixteen_long = unfold sum_sizes_sqroot in refl

      written :
          (generate_and_send_sums md4 root seed file (length content) c).1.output
          ≡ head_bytes (sum_sizes_sqroot root (length content))
            ++ concat (
                sum_writes md4 seed (
                  blocks
                    (pos_part (sum_sizes_sqroot root (length content)).checksum_count)
                    (pos_part (sum_sizes_sqroot root (length content)).block_length)
                    content))
      written =
          rw (generate_and_send_sums-Sends md4 root seed file content whole c f.reliable)
            (sent-output _ c f)

  -- What receiveSums returns on the receiver's writes is the signature of the receiver's file: its
  -- head describes a file of that length, its checksums are those of consecutive blocks that
  -- together are the file, and nothing else is read from the connection. The file is as long as its
  -- stat said and at most 700 * 2 ^ 30 bytes, the square root as computed is at most 2 ^ 29, MD4
  -- gives 16 bytes, the connection is plain and unused, and no write fails.
  pub receive_sums-generate_and_send_sums :
      (file : LocalFile) (content rest : Bytes) (c d : Conn)
      → ((x : Bytes) → length (md4 x) ≡ 16)
      → IsContent file content
      → length content ≤ 700 * 2 ^ 30
      → root (length content) ≤ 2 ^ 29
      → IsFresh c
      → d.input ≡ (generate_and_send_sums md4 root seed file (length content) c).1.output ++ rest
      → (head : SumHead) × ((receive_sums d).0 ≡ ok head)
        × Describes head (length content)
        × SignatureOf md4 seed (record head { sums = [] }) 0 0 head.sums content
        × ((receive_sums d).1.input ≡ rest)
  receive_sums-generate_and_send_sums file content rest c d sixteen whole short fits f e =
      let (sums, read, signature, left) =
        receive_sums_lem file content rest c d sixteen whole short fits f e in
      let s = sum_sizes_sqroot-Describes root (length content) short fits in
      (
        record (sum_sizes_sqroot root (length content)) { sums = sums },
        read,
        record {
          count = s.count;
          block = s.block;
          remainder = s.remainder;
          count_is = s.count_is;
          block_is = s.block_is;
          remainder_is = s.remainder_is;
          short_end = s.short_end;
          total = s.total;
        },
        signature,
        left,
      )
