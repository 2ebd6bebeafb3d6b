-- ===== src/Receiver/Data.antt =====
-- rsyncreceiver/token.go and receiveData of rsyncreceiver/receiver.go: one file's data.
pub mod Lengths
pub mod Stream
pub mod Transfer
pub mod Progress
pub mod Safety
use go_rsync_receiver.Prelude.{
  ℕ, zero, suc, ◌+◌, ◌-◌, ◌*◌, Bool, true, false, not, ◌&&◌, List, [], ◌++◌, Option, none, some,
  Bytes, equal, length, ◌==◌, if◌then◌else◌,
}
use go_rsync_receiver.Prelude.Int.{ℤ, pos, negsuc, ◌-ℤ◌, ◌==ℤ◌}
use go_rsync_receiver.Prelude.Words.{to_u32}
use go_rsync_receiver.Outcome.{
  Outcome, ok, err, panic, out_of_fuel, Prog, no_local_file, file_corruption, return, fail,
  reject_if, ◌>>=◌, ◌>>◌,
}
use go_rsync_receiver.Wire.{Conn, le_bytes, read_full, read_int32}
use go_rsync_receiver.Rsync.{SumHead, zero_head, read_from}
use go_rsync_receiver.Files.{LocalFile, Fetched, got, lost}

-- recvToken: the number, and the literal bytes behind a positive one.
token_data : ℤ → Prog Conn (ℤ × Bytes)
token_data (pos zero) = return (pos zero, [])
token_data (pos (suc n)) = do bytes ← read_full (suc n); return (pos (suc n), bytes)
token_data (negsuc n) = return (negsuc n, [])

unfoldable pub recv_token : Prog Conn (ℤ × Bytes)
unfolding token_data
recv_token = do token ← read_int32; token_data token

-- The state of receiveData: the connection, what was written to the hash, what was written to the
-- pipe whose other end utils.FS.Put reads, and whether the writer closed the pipe. Put may stop
-- reading early; receiveData goes on then (io.ErrClosedPipe), as if the bytes were taken.
pub record Receiving : Type 0 where
  pub conn : Conn
  pub hashed : Bytes
  pub piped : Bytes
  pub closed : Bool

abbrev pub with_conn : {A : Type 0} → Outcome A × Conn → Receiving → Outcome A × Receiving
with_conn (r, c) s = (r, record s { conn = c })

abbrev pub on_conn : {A : Type 0} → Prog Conn A → Prog Receiving A
on_conn m s = with_conn (m s.conn) s

-- `h.Write(data)` and `w.Write(data)`
unfoldable pub consume : Bytes → Prog Receiving (Unit {0})
consume bytes s = (ok tt, record s { hashed = s.hashed ++ bytes; piped = s.piped ++ bytes })

-- `make([]byte, n)` panics on a negative length.
unfoldable pub make_length : {S : Type 0} → ℤ → Prog S ℕ
make_length (pos n) s = (ok n, s)
make_length (negsuc n) s = (panic, s)

fetch : Fetched → Prog Receiving Bytes
fetch (got bytes) = return bytes
fetch (lost e) = fail e

-- `dataLen` of block `n`
unfoldable pub data_len : SumHead → ℕ → ℤ
data_len sh n =
    if (pos n ==ℤ sh.checksum_count -ℤ pos 1) && not (sh.remainder_length ==ℤ pos 0)
    then sh.remainder_length
    else sh.block_length

-- `localFile.ReadAt` of `len` bytes at `n * block`, written to the hash and to the pipe.
unfoldable pub copy_range : LocalFile → ℕ → ℤ → ℤ → Prog Receiving (Unit {0})
unfolding fetch
copy_range file n block_length data_length = do
  block ← make_length block_length
  len ← make_length data_length
  bytes ← fetch (file (n * block) len)
  consume bytes

-- Block `n` of the local file.
unfoldable pub copy_block : SumHead → Option LocalFile → ℕ → Prog Receiving (Unit {0})
copy_block sh none n = fail no_local_file
copy_block sh (some file) n = copy_range file n sh.block_length (data_len sh n)

-- One token; `next` is the rest of the loop. `-(token + 1)` of `negsuc n` is `n`.
unfoldable pub token_step :
    SumHead → Option LocalFile → Prog Receiving (Unit {0}) → ℤ × Bytes → Prog Receiving (Unit {0})
token_step sh local next (pos zero, bytes) = return tt
token_step sh local next (pos (suc n), bytes) = do consume bytes; next
token_step sh local next (negsuc n, bytes) = do copy_block sh local n; next

unfoldable pub token_loop : ℕ → SumHead → Option LocalFile → Prog Receiving (Unit {0})
token_loop zero sh local s = (out_of_fuel, s)
token_loop (suc fuel) sh local s =
    (do t ← on_conn recv_token; token_step sh local (token_loop fuel sh local) t) s

-- A token takes four bytes at least, so the number of bytes left bounds the rounds.
unfoldable pub tokens : SumHead → Option LocalFile → Prog Receiving (Unit {0})
tokens sh local s = token_loop (suc (length s.conn.input)) sh local s

unfoldable pub close_pipe : Prog Receiving (Unit {0})
close_pipe s = (ok tt, record s { closed = true })

-- The comparison with the sender's checksum of the whole file.
unfoldable pub check_sum : (Bytes → Bytes) → Bytes → Prog Receiving (Unit {0})
check_sum md4 name s =
    (do
      remote ← on_conn (read_full (length (md4 s.hashed)))
      reject_if (not (equal (md4 s.hashed) remote)) (file_corruption name))
      s

unfoldable pub start_hash : ℤ → Prog Receiving (Unit {0})
start_hash seed s = (ok tt, record s { hashed = le_bytes 4 (to_u32 seed) })

unfoldable pub receive_data :
    (Bytes → Bytes) → ℤ → Bytes → Option LocalFile → Prog Receiving (Unit {0})
receive_data md4 seed name local = do
  sh ← on_conn (read_from zero_head)
  start_hash seed
  tokens sh local
  close_pipe
  check_sum md4 name
