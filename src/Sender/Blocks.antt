-- ===== src/Sender/Blocks.antt =====
-- receiveSums of rsyncsender/sender.go: the receiver's block checksums.
pub mod Lengths
pub mod RoundTrip
use go_rsync_receiver.Prelude.{
  ℕ, zero, suc, ◌+◌, ◌-◌, Bool, not, ◌&&◌, List, [], ◌∷◌, ◌++◌, Bytes, length, replicate, ◌==◌,
  if◌then◌else◌,
}
use go_rsync_receiver.Prelude.Int.{ℤ, pos, pos_part, ◌+ℤ◌, ◌-ℤ◌, ◌==ℤ◌}
use go_rsync_receiver.Prelude.Words.{to_u32}
use go_rsync_receiver.Outcome.{Prog, return, ◌>>=◌, ◌>>◌}
use go_rsync_receiver.Wire.{Conn, read_full, read_int32}
use go_rsync_receiver.Rsync.{SumBuf, SumHead, zero_head, read_from}

-- `sb.Len` of block `i`
unfoldable pub sum_len : SumHead → ℕ → ℤ
sum_len head i =
    if (pos i ==ℤ head.checksum_count -ℤ pos 1) && not (head.remainder_length ==ℤ pos 0)
    then head.remainder_length
    else head.block_length

-- The array of 16 bytes after its front was read.
abbrev pub padded : Bytes → Bytes
padded p = p ++ replicate (16 - length p) 0

unfoldable pub make_sum : SumHead → ℕ → ℤ → ℤ → Bytes → SumBuf
make_sum head i offset short_checksum strong = record {
  offset = offset;
  len = sum_len head i;
  index = pos i;
  sum1 = to_u32 short_checksum;
  sum2 = padded strong;
}

-- The rounds left of the loop, from block `i` at `offset` on.
unfoldable pub read_sums : ℕ → SumHead → ℕ → ℤ → Prog Conn (List SumBuf)
read_sums zero head i offset = return []
read_sums (suc rounds) head i offset = do
  short_checksum ← read_int32
  strong ← read_full (pos_part head.checksum_length)
  rest ← read_sums rounds head (i + 1) (offset +ℤ sum_len head i)
  return (make_sum head i offset short_checksum strong ∷ rest)

unfoldable pub receive_sums : Prog Conn SumHead
receive_sums = do
  head ← read_from zero_head
  sums ← read_sums (pos_part head.checksum_count) head 0 (pos 0)
  return (record head { sums = sums })
