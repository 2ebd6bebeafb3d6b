-- ===== src/Receiver/Loop.antt =====
-- RecvFiles and recvFile1 of rsyncreceiver/receiver.go: the files, one after the other.
pub mod Integrity
pub mod Delivery
use go_rsync_receiver.Prelude.{
  ℕ, zero, suc, ◌+◌, Bool, true, false, List, [], ◌∷◌, ◌++◌, Option, none, some, Bytes, length,
  get_elem?, ◌==◌, if◌then◌else◌,
}
use go_rsync_receiver.Prelude.Int.{ℤ, pos, negsuc, ◌==ℤ◌}
use go_rsync_receiver.Outcome.{Outcome, ok, panic, out_of_fuel, Prog, return, ◌>>=◌, ◌>>◌}
use go_rsync_receiver.Wire.{Conn, read_int32}
use go_rsync_receiver.Files.{ReceiverFile, LocalFile}
use go_rsync_receiver.Receiver.Opts.{TransferOpts}
use go_rsync_receiver.Receiver.Data.{Receiving, receive_data}

-- What one utils.FS.Put was given: the file, the bytes of its pipe, and whether these had an end. An
-- empty one without an end also stands for a receiveData that failed before it called Put.
pub record Put : Type 0 where
  pub file : ReceiverFile
  pub content : Bytes
  pub closed : Bool

pub record Session : Type 0 where
  pub conn : Conn
  pub puts : List Put

-- `fileList[idx]` panics out of range.
found : Option ReceiverFile → Prog Session ReceiverFile
found none s = (panic, s)
found (some f) s = (ok f, s)

unfoldable pub file_at : List ReceiverFile → ℤ → Prog Session ReceiverFile
unfolding found
file_at file_list (pos n) = found (get_elem? file_list n)
file_at file_list (negsuc n) = found none

unfoldable pub read_index : Prog Session ℤ
read_index s = ((read_int32 s.conn).0, record s { conn = (read_int32 s.conn).1 })

-- The state in which receiveData starts, and what its end adds to the session.
abbrev pub opening : Session → Receiving
opening s = record { conn = s.conn; hashed = []; piped = []; closed = false }

unfoldable pub put_of :
    ReceiverFile → Session → Outcome (Unit {0}) × Receiving → Outcome (Unit {0}) × Session
put_of f s r = (
  r.0,
  record {
    conn = r.1.conn;
    puts = s.puts ++ (record { file = f; content = r.1.piped; closed = r.1.closed } ∷ []);
  },
)

module _ (md4 : Bytes → Bytes) (seed : ℤ) (opts : TransferOpts)
    (local : Bytes → Option LocalFile) where
  -- `local` is openLocalFile; a file that it does not open is received without one. A dry run only
  -- prints the name.
  unfoldable pub recv_file1 : ReceiverFile → Prog Session (Unit {0})
  recv_file1 f s =
      if opts.dry_run
      then (ok tt, s)
      else put_of f s (receive_data md4 seed f.name (local f.name) (opening s))

  -- One round; `rest` is the loop from a phase on.
  unfoldable pub recv_round :
      List ReceiverFile → (ℕ → Prog Session (Unit {0})) → ℕ → ℤ → Prog Session (Unit {0})
  recv_round file_list rest phase idx =
      if idx ==ℤ negsuc 0
      then if phase == 0 then rest (phase + 1) else return tt
      else (do f ← file_at file_list idx; recv_file1 f; rest phase)

  unfoldable pub recv_loop : ℕ → List ReceiverFile → ℕ → Prog Session (Unit {0})
  recv_loop zero file_list phase s = (out_of_fuel, s)
  recv_loop (suc fuel) file_list phase s =
      (do idx ← read_index; recv_round file_list (recv_loop fuel file_list) phase idx) s

  -- A round takes an index at least, of four bytes.
  unfoldable pub recv_files : List ReceiverFile → Prog Session (Unit {0})
  recv_files file_list s = recv_loop (suc (length s.conn.input)) file_list 0 s
