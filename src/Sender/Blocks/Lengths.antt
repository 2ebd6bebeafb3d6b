-- ===== src/Sender/Blocks/Lengths.antt =====
-- The sender takes a block to be as long as the receiver does.
use go_rsync_receiver.Prelude.{ℕ, ◌≡◌, arith, Bool-cases, inl, inr}
use go_rsync_receiver.Prelude.Int.{pos, ◌-ℤ◌, ◌==ℤ◌, ==ℤ_iff}
use go_rsync_receiver.Rsync.{SumHead}
use go_rsync_receiver.Receiver.Data.Lengths.{HasLength, remainder, inside, no_remainder, count_iff}
use go_rsync_receiver.Sender.Blocks.{sum_len}

pub sum_len-HasLength :
    (head : SumHead) (i len : ℕ) → sum_len head i ≡ pos len → HasLength head i len
unfolding sum_len
sum_len-HasLength head i len e = elim (Bool-cases (pos i ==ℤ head.checksum_count -ℤ pos 1)) [
  | inr other ↦
      inside (λ same. absurd (ground (arith, other, (count_iff head.checksum_count i).1 same)))
        (ground (arith, e, other))
  | inl end ↦ elim (Bool-cases (head.remainder_length ==ℤ pos 0)) [
    | inl whole ↦
        no_remainder ((==ℤ_iff head.remainder_length (pos 0)).0 whole)
          (ground (arith, e, end, whole))
    | inr part ↦
        remainder ((count_iff head.checksum_count i).0 end)
          (λ none_left.
            absurd (ground (arith, part, (==ℤ_iff head.remainder_length (pos 0)).1 none_left)))
          (ground (arith, e, end, part))
  ]
]
