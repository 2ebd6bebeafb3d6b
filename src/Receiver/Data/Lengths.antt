-- ===== src/Receiver/Data/Lengths.antt =====
-- The length of a block, against `dataLen` in receiveData.
use go_rsync_receiver.Prelude.{ℕ, zero, suc, ◌≡◌, ◌≢◌, ◌↔◌, true, arith}
use go_rsync_receiver.Prelude.Int.{ℤ, pos, negsuc, ◌==ℤ◌, ◌-ℤ◌, ==ℤ_iff}
use go_rsync_receiver.Rsync.{SumHead}
use go_rsync_receiver.Receiver.Data.{data_len}

-- Block `n` has `len` bytes: the remainder if it is the last one and there is a remainder, and else
-- the block length.
pub data HasLength (sh : SumHead) (n len : ℕ) : Type 0 where
  remainder :
      sh.checksum_count ≡ pos (suc n)
      → sh.remainder_length ≢ pos 0
      → sh.remainder_length ≡ pos len
      → HasLength sh n len
  inside : sh.checksum_count ≢ pos (suc n) → sh.block_length ≡ pos len → HasLength sh n len
  no_remainder : sh.remainder_length ≡ pos 0 → sh.block_length ≡ pos len → HasLength sh n len

pub count_iff : (z : ℤ) (n : ℕ) → ((pos n ==ℤ z -ℤ pos 1) ≡ true) ↔ (z ≡ pos (suc n))
count_iff (pos zero) n = ground arith
count_iff (pos (suc m)) n = ground arith
count_iff (negsuc m) n = ground arith

pub data_len-HasLength : (sh : SumHead) (n len : ℕ) → HasLength sh n len → data_len sh n ≡ pos len
unfolding data_len
data_len-HasLength sh n len (remainder c r e) =
    ground (arith, count_iff sh.checksum_count n, ==ℤ_iff sh.remainder_length (pos 0))
data_len-HasLength sh n len (inside c e) = ground (arith, count_iff sh.checksum_count n)
data_len-HasLength sh n len (no_remainder r e) = ground (arith, ==ℤ_iff sh.remainder_length (pos 0))
