-- ===== src/Sender/Whole.antt =====
-- sendFile of rsyncsender/sender.go: a whole file, for a receiver that has no blocks of it.
pub mod Written
pub mod Delivery
use go_rsync_receiver.Prelude.{ℕ, List, [], ◌∷◌, ◌++◌, Bytes, length}
use go_rsync_receiver.Prelude.Int.{ℤ, pos}
use go_rsync_receiver.Prelude.Words.{to_u32, wrap_i32}
use go_rsync_receiver.Outcome.{Error, Prog, return, fail, ◌>>=◌, ◌>>◌}
use go_rsync_receiver.Wire.{Conn, le_bytes, write, write_int32}
use go_rsync_receiver.Rsync.{SumHead, write_to}
use go_rsync_receiver.Sizes.{sum_sizes_sqroot}
use go_rsync_receiver.Files.{
  FileInfo, ReadStatus, going, at_eof, broken, ReadStep, Opened, unopened, opened,
}

-- A chunk goes out behind its length.
unfoldable pub send_chunk : Bytes → Prog Conn (Unit {0})
send_chunk chunk = do write_int32 (wrap_i32 (pos (length chunk))); write chunk

-- One round of the loop: `h` is what was written to the hash before, `next` the rounds that follow.
-- An empty chunk ends the loop, whether or not the file is at its end.
unfoldable pub send_read : ReadStatus → Bytes → Bytes → (Bytes → Prog Conn Bytes) → Prog Conn Bytes
send_read (broken e) chunk h next = fail e
send_read going [] h next = return h
send_read going (b ∷ bs) h next = do send_chunk (b ∷ bs); next (h ++ (b ∷ bs))
send_read at_eof [] h next = return h
send_read at_eof (b ∷ bs) h next = do send_chunk (b ∷ bs); return (h ++ (b ∷ bs))

-- The loop returns what was written to the hash.
unfoldable pub send_reads : List ReadStep → Bytes → Prog Conn Bytes
send_reads [] h = return h
send_reads (step ∷ rest) h = send_read step.status step.chunk h (send_reads rest)

module _ (md4 : Bytes → Bytes) (root : ℕ → ℕ) (seed : ℤ) where
  -- `root` is the square root of SumSizesSqroot.
  unfoldable pub send_opened : ℤ → FileInfo → List ReadStep → Prog Conn (Unit {0})
  send_opened file_index fi reads = do
    write_int32 file_index
    write_to (sum_sizes_sqroot root fi.size)
    h ← send_reads reads (le_bytes 4 (to_u32 seed))
    write_int32 (pos 0)
    write (md4 h)

  unfoldable pub send_file : ℤ → Opened → Prog Conn (Unit {0})
  unfolding send_opened
  send_file file_index (unopened e) = fail e
  send_file file_index (opened fi reads) = send_opened file_index fi reads
