-- ===== src/Tests/Heads.antt =====
-- Runs of the heads, the block sizes and the checksums.
use go_rsync_receiver.Prelude.{◌+◌, ◌*◌, ◌%◌, ◌^◌, ◌≡◌, refl, [], ◌∷◌, ◌++◌, none, some, arith}
use go_rsync_receiver.Outcome.{ok}
use go_rsync_receiver.Wire.{Conn, read_int32}
use go_rsync_receiver.Wire.{read_full, le_value}
use go_rsync_receiver.Rsync.{zero_head, checked_int32, read_from, write_to}
use go_rsync_receiver.Rsync.Heads.{IsValid, read_from-write_to, read_from-IsValid}
use go_rsync_receiver.Sizes.{sum_sizes_sqroot}
use go_rsync_receiver.Sizes.Cover.{Describes, sum_sizes_sqroot-Describes, sum_sizes_sqroot-IsValid}
use go_rsync_receiver.Checksum.{Sums, singles, quads, checksum1}
use go_rsync_receiver.Checksum.Exact.{sum_of, weighted, checksum1_exact, quads-singles}
use go_rsync_receiver.Sender.Roll.{halves, roll}
use go_rsync_receiver.Sender.Roll.Laws.{roll-checksum1, roll-checksum1_end}
use go_rsync_receiver.Tests.Common.{conn_of, conn_of-IsFresh, no_root, one_block, one_block-IsValid}

read_from-write_to_example :
    ((read_from zero_head (conn_of ((write_to one_block (conn_of [])).1.output ++ []))).0
      ≡ ok one_block)
    × ((read_from zero_head (conn_of ((write_to one_block (conn_of [])).1.output ++ []))).1.input
        ≡ [])
read_from-write_to_example =
    read_from-write_to zero_head one_block (conn_of [])
      (conn_of ((write_to one_block (conn_of [])).1.output ++ [])) [] one_block-IsValid
      (omega arith) conn_of-IsFresh refl

-- The bytes of that head.
abbrev head_input : Conn
head_input = conn_of (1 ∷ 0 ∷ 0 ∷ 0 ∷ 188 ∷ 2 ∷ 0 ∷ 0 ∷ 16 ∷ 0 ∷ 0 ∷ 0 ∷ 0 ∷ 0 ∷ 0 ∷ 0 ∷ [])

head_input_read :
    read_from zero_head head_input
    ≡ (ok one_block, record head_input { input = []; bytes_read = 16 })
unfolding read_from checked_int32 read_int32 read_full le_value
head_input_read = refl

read_from-IsValid_example : IsValid one_block
read_from-IsValid_example = read_from-IsValid zero_head head_input head_input_read

sum_sizes_sqroot-Describes_example : Describes (sum_sizes_sqroot no_root 1500) 1500
sum_sizes_sqroot-Describes_example =
    sum_sizes_sqroot-Describes no_root 1500 (omega arith) (omega arith)

sum_sizes_sqroot-IsValid_example : IsValid (sum_sizes_sqroot no_root 1500)
sum_sizes_sqroot-IsValid_example = sum_sizes_sqroot-IsValid no_root 1500 (omega arith) (omega arith)

checksum1_exact_example :
    checksum1 (200 ∷ 3 ∷ [])
    ≡ sum_of (200 ∷ 3 ∷ []) % 2 ^ 16 + weighted (200 ∷ 3 ∷ []) % 2 ^ 16 * 2 ^ 16
checksum1_exact_example = checksum1_exact (200 ∷ 3 ∷ [])

abbrev no_sums : Sums
no_sums = record { s1 = 0; s2 = 0 }

quads-singles_example :
    quads no_sums (1 ∷ 2 ∷ 3 ∷ 4 ∷ 5 ∷ 6 ∷ []) ≡ singles no_sums (1 ∷ 2 ∷ 3 ∷ 4 ∷ 5 ∷ 6 ∷ [])
quads-singles_example = quads-singles no_sums (1 ∷ 2 ∷ 3 ∷ 4 ∷ 5 ∷ 6 ∷ [])

roll-checksum1_example :
    roll 3 200 (some 9) (halves (checksum1 (200 ∷ 3 ∷ 4 ∷ [])))
    ≡ (3, halves (checksum1 (3 ∷ 4 ∷ 9 ∷ [])))
roll-checksum1_example = roll-checksum1 200 9 (3 ∷ 4 ∷ [])

roll-checksum1_end_example :
    roll 3 200 none (halves (checksum1 (200 ∷ 3 ∷ 4 ∷ []))) ≡ (2, halves (checksum1 (3 ∷ 4 ∷ [])))
roll-checksum1_end_example = roll-checksum1_end 200 (3 ∷ 4 ∷ [])
