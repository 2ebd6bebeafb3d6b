-- ===== src/Sizes.antt =====
-- rsynccommon/rsynccommon.go: the block sizes for a file of a given length.
pub mod Cover
use go_rsync_receiver.Prelude.{ℕ, ◌+◌, ◌-◌, ◌/◌, ◌%◌, max}
use go_rsync_receiver.Prelude.Int.{pos}
use go_rsync_receiver.Prelude.Words.{wrap_i32}
use go_rsync_receiver.Prelude.{[]}
use go_rsync_receiver.Rsync.{SumHead}

abbrev pub block_size : ℕ
block_size = 700

-- `root n` is `int32(math.Sqrt(float64(n)))`, which is not negative.
unfoldable pub block_length_of : (ℕ → ℕ) → ℕ → ℕ
block_length_of root content_len = max (root content_len) block_size

unfoldable pub sum_sizes_sqroot : (ℕ → ℕ) → ℕ → SumHead
sum_sizes_sqroot root content_len =
    let block = block_length_of root content_len in
    record {
      checksum_count = wrap_i32 (pos ((content_len + (block - 1)) / block));
      block_length = pos block;
      checksum_length = pos 16;
      remainder_length = wrap_i32 (pos (content_len % block));
      sums = [];
    }
