-- ===== src/Receiver/Generator.antt =====
-- rsyncreceiver/generator.go: the requests of the receiver, a file at a time.
pub mod Sums
pub mod Requests
use go_rsync_receiver.Prelude.{
  ℕ, zero, suc, ◌+◌, ◌-◌, Bool, true, false, not, ◌&&◌, ◌||◌, List, [], ◌∷◌, Bytes, min, ◌==◌,
  if◌then◌else◌,
}
use go_rsync_receiver.Prelude.Int.{ℤ, pos, negsuc, pos_part, ◌==ℤ◌}
use go_rsync_receiver.Prelude.Words.{to_i32, wrap_i32}
use go_rsync_receiver.Outcome.{Prog, return, fail, ◌>>=◌, ◌>>◌}
use go_rsync_receiver.Wire.{Conn, write, write_int32}
use go_rsync_receiver.Rsync.{SumHead, zero_head, write_to}
use go_rsync_receiver.Sizes.{sum_sizes_sqroot}
use go_rsync_receiver.Checksum.{checksum1, checksum2}
use go_rsync_receiver.Files.{
  Time, ReceiverFile, FileInfo, LocalFile, Fetched, got, lost, Present, absent, present, file_mode,
  is_regular,
}
use go_rsync_receiver.Receiver.Opts.{TransferOpts, Transfer, list_only}

-- time.Time.Equal
abbrev pub same_time : Time → Time → Bool
same_time a b = (a.seconds ==ℤ b.seconds) && (a.nanos == b.nanos)

-- skipFile; it returns no error.
unfoldable pub skip_file : TransferOpts → ReceiverFile → FileInfo → Bool
skip_file opts f st =
    let size_match = pos st.size ==ℤ f.size in
    if opts.always_checksum || opts.ignore_times
    then false
    else if opts.size_only
    then size_match
    else size_match && same_time st.mod_time f.mod_time

module _ (md4 : Bytes → Bytes) (seed : ℤ) where
  -- The two checksums of one block.
  unfoldable pub send_sum : Fetched → Prog Conn (Unit {0})
  send_sum (lost e) = fail e
  send_sum (got b) = do write_int32 (to_i32 (checksum1 b)); write (checksum2 md4 seed b)

  -- The rounds left of the loop over the blocks; `at` is where the reader of the file stands.
  unfoldable pub send_sums : ℕ → LocalFile → ℕ → ℕ → ℕ → Prog Conn (Unit {0})
  send_sums zero file block at remaining = return tt
  send_sums (suc rounds) file block at remaining = do
    send_sum (file at (min block remaining))
    send_sums rounds file block (at + min block remaining) (remaining - min block remaining)

module _ (md4 : Bytes → Bytes) (root : ℕ → ℕ) (seed : ℤ) where
  unfoldable pub generate_and_send_sums : LocalFile → ℕ → Prog Conn (Unit {0})
  generate_and_send_sums file file_len = do
    let sh = sum_sizes_sqroot root file_len
    write_to sh
    send_sums md4 seed (pos_part sh.checksum_count) file (pos_part sh.block_length) 0 file_len

  unfoldable pub request_full_file : Bool → ℕ → Prog Conn (Unit {0})
  request_full_file true idx = write_int32 (wrap_i32 (pos idx))
  request_full_file false idx = do write_int32 (wrap_i32 (pos idx)); write_to zero_head

  -- What is asked of the sender for a regular file, by what the file system has of it.
  unfoldable pub request : TransferOpts → ℕ → ReceiverFile → Present → Prog Conn (Unit {0})
  request opts idx f (absent e) = request_full_file opts.dry_run idx
  request opts idx f (present st file) =
      if skip_file opts f st
      then return tt
      else if opts.dry_run
      then write_int32 (wrap_i32 (pos idx))
      else (do write_int32 (wrap_i32 (pos idx)); generate_and_send_sums file st.size)

  unfoldable pub recv_generator :
      Transfer → (Bytes → Present) → ℕ → ReceiverFile → Prog Conn (Unit {0})
  recv_generator rt fs idx f =
      if list_only rt
      then return tt
      else if not (is_regular (file_mode f.mode))
      then return tt
      else request rt.opts idx f (fs f.name)

  -- The loop of GenerateFiles, from index `idx` on.
  unfoldable pub generate_each :
      Transfer → (Bytes → Present) → ℕ → List ReceiverFile → Prog Conn (Unit {0})
  generate_each rt fs idx [] = return tt
  generate_each rt fs idx (f ∷ rest) = do
    recv_generator rt fs idx f
    generate_each rt fs (idx + 1) rest

  unfoldable pub generate_files :
      Transfer → (Bytes → Present) → List ReceiverFile → Prog Conn (Unit {0})
  generate_files rt fs file_list = do
    generate_each rt fs 0 file_list
    write_int32 (negsuc 0)
    write_int32 (negsuc 0)
