-- ===== src/Stats.antt =====
-- rsyncstats/rsyncstats.go, and the end of a session in rsyncsender/do.go and rsyncreceiver/do.go:
-- the statistics, and the receiver's goodbye.
pub mod RoundTrip
use go_rsync_receiver.Prelude.{Bool, true, false, not, Option, none, some, if◌then◌else◌}
use go_rsync_receiver.Prelude.Int.{ℤ, pos, negsuc, ◌==ℤ◌}
use go_rsync_receiver.Outcome.{ok, bad_finish, Prog, return, reject_if, ◌>>=◌, ◌>>◌}
use go_rsync_receiver.Wire.{Conn, bytes_written, write_int32, write_int64, read_int32, read_int64}

pub record TransferStats : Type 0 where
  pub read : ℤ
  pub written : ℤ
  pub size : ℤ

-- The counters, as they stand.
unfoldable pub count_read : Prog Conn ℤ
count_read c = (ok (pos c.bytes_read), c)

unfoldable pub count_written : Prog Conn ℤ
count_written c = (ok (pos (bytes_written c)), c)

-- Do of the sender, behind SendFiles. The counters are read again for the result.
unfoldable pub send_numbers : ℤ → Prog Conn (Unit {0})
send_numbers total_size = do
  read ← count_read
  write_int64 read
  written ← count_written
  write_int64 written
  write_int64 total_size

unfoldable pub end_sender : ℤ → Prog Conn TransferStats
end_sender total_size = do
  send_numbers total_size
  finish ← read_int32
  reject_if (not (finish ==ℤ negsuc 0)) (bad_finish finish)
  read ← count_read
  written ← count_written
  return (record { read = read; written = written; size = total_size })

unfoldable pub report : Prog Conn TransferStats
report = do
  read ← read_int64
  written ← read_int64
  size ← read_int64
  return (record { read = read; written = written; size = size })

unfoldable pub some_report : Prog Conn (Option TransferStats)
some_report = do stats ← report; return (some stats)

-- Do of the receiver, behind its two halves.
unfoldable pub end_receiver : Bool → Prog Conn (Option TransferStats)
end_receiver no_report = do
  stats ← (if no_report then return none else some_report)
  write_int32 (negsuc 0)
  return stats
