-- ===== src/Receiver/Generator/Sums.antt =====
-- What generateAndSendSums writes for a file that does not change meanwhile.
use go_rsync_receiver.Prelude.{
  ℕ, zero, suc, ◌+◌, ◌-◌, ◌≤◌, ◌≡◌, sym, ◌∙◌, List, [], ◌∷◌, arith, Bytes, min, length, take, drop,
  length-drop, drop-drop, take-min, drop-min,
}
use go_rsync_receiver.Prelude.Int.{ℤ, pos_part}
use go_rsync_receiver.Prelude.Words.{to_i32}
use go_rsync_receiver.Wire.{int32_bytes, write, write_int32, write_string}
use go_rsync_receiver.Wire.Sent.{
  Sends, Sends-then, Sends-return, write-Sends, write_int32-Sends, write_string-Sends,
}
use go_rsync_receiver.Rsync.{head_bytes, write_to}
use go_rsync_receiver.Sizes.{sum_sizes_sqroot}
use go_rsync_receiver.Checksum.{checksum1, checksum2}
use go_rsync_receiver.Files.{LocalFile, got}
use go_rsync_receiver.Receiver.Generator.{send_sum, send_sums, generate_and_send_sums}

-- Every range inside the file is read as `content` has it.
abbrev pub IsContent : LocalFile → Bytes → Type 0
IsContent file content =
    (at n : ℕ) → at + n ≤ length content → file at n ≡ got (take n (drop at content))

-- The file cut into blocks.
unfoldable pub blocks : ℕ → ℕ → Bytes → List Bytes
blocks zero block content = []
blocks (suc rounds) block content = take block content ∷ blocks rounds block (drop block content)

module _ (md4 : Bytes → Bytes) (seed : ℤ) where
  unfoldable pub sum_writes : List Bytes → List Bytes
  sum_writes [] = []
  sum_writes (b ∷ bs) = int32_bytes (to_i32 (checksum1 b)) ∷ checksum2 md4 seed b ∷ sum_writes bs

  send_sum-Sends :
      (b : Bytes)
      → Sends
          (send_sum md4 seed (got b))
          (int32_bytes (to_i32 (checksum1 b)) ∷ checksum2 md4 seed b ∷ [])
          tt
  unfolding send_sum
  send_sum-Sends b =
      Sends-then (write_int32 _) (write _) _ _ tt tt (write_int32-Sends _) (write-Sends _)

  -- The loop writes the checksums of the blocks from `at` on.
  send_sums-Sends :
      (rounds : ℕ) (file : LocalFile) (content : Bytes) (block at remaining : ℕ)
      → IsContent file content
      → at + remaining ≡ length content
      → Sends
          (send_sums md4 seed rounds file block at remaining)
          (sum_writes (blocks rounds block (drop at content)))
          tt
  unfolding send_sums blocks sum_writes
  send_sums-Sends zero file content block at remaining h e = Sends-return tt
  send_sums-Sends (suc rounds) file content block at remaining h e =
      rw (h at (min block remaining) (omega arith)) (
        rw (here, sym after)
          (Sends-then (send_sum md4 seed (got (take block (drop at content)))) _ _ _ tt tt
            (send_sum-Sends (take block (drop at content)))
            (send_sums-Sends rounds file content block (at + min block remaining)
              (remaining - min block remaining) h (omega arith))))
    where
      left : remaining ≡ length (drop at content)
      left = omega (arith, length-drop at content)

      here : take (min block remaining) (drop at content) ≡ take block (drop at content)
      here = rw left (take-min block (drop at content))

      after : drop (at + min block remaining) content ≡ drop block (drop at content)
      after =
          sym (drop-drop at (min block remaining) content)
          ∙ rw left (drop-min block (drop at content))

module _ (md4 : Bytes → Bytes) (root : ℕ → ℕ) (seed : ℤ) where
  -- The writes for a file: its head, and the checksums of its blocks.
  pub generate_and_send_sums-Sends :
      (file : LocalFile) (content : Bytes)
      → IsContent file content
      → Sends
          (generate_and_send_sums md4 root seed file (length content))
          (head_bytes (sum_sizes_sqroot root (length content))
            ∷ sum_writes md4 seed (
                blocks
                  (pos_part (sum_sizes_sqroot root (length content)).checksum_count)
                  (pos_part (sum_sizes_sqroot root (length content)).block_length)
                  content))
          tt
  unfolding generate_and_send_sums write_to
  generate_and_send_sums-Sends file content h =
      let sh = sum_sizes_sqroot root (length content) in
      Sends-then (write_string (head_bytes sh)) _ (head_bytes sh ∷ []) _ tt tt
        (write_string-Sends (head_bytes sh))
        (send_sums-Sends md4 seed (pos_part sh.checksum_count) file content
          (pos_part sh.block_length) 0 (length content) h (omega arith))
