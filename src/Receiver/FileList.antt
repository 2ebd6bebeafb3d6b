-- ===== src/Receiver/FileList.antt =====
-- rsyncreceiver/flist.go and rsyncreceiver/uidlist.go: the list of files, as it comes in.
pub mod Ends
use go_rsync_receiver.Prelude.{
  ℕ, zero, suc, ◌+◌, ◌-◌, ◌^◌, Bool, true, false, not, ◌&&◌, ◌||◌, List, [], ◌∷◌, ◌++◌, Bytes,
  length, take, replicate, ◌==◌, if◌then◌else◌,
}
use go_rsync_receiver.Prelude.Int.{ℤ, pos, negsuc, ◌+ℤ◌, ◌==ℤ◌, ltb_ℤ}
use go_rsync_receiver.Prelude.Words.{to_u32}
use go_rsync_receiver.Outcome.{
  Outcome, out_of_fuel, panic, name_overflow, Prog, return, reject_if, ◌>>=◌, ◌>>◌,
}
use go_rsync_receiver.Wire.{Conn, read_full, read_byte, read_int32, read_int64}
use go_rsync_receiver.Rsync.{
  xmit_same_mode, xmit_same_rdev_pre28, xmit_same_uid, xmit_same_gid, xmit_same_name,
  xmit_long_name, xmit_same_time, s_ifmt, s_ifchr, s_ifblk, s_ififo, s_iflnk, s_ifsock,
}
use go_rsync_receiver.Files.{Time, ReceiverFile}
use go_rsync_receiver.Receiver.Opts.{TransferOpts}
use go_rsync_receiver.Receiver.Data.{make_length}
use Prim.Native.Nat.{bit_and}

-- `flags&flag != 0`
abbrev pub has_flag : ℕ → ℕ → Bool
has_flag flags flag = not (bit_and flags flag == 0)

-- A field that is read on a condition, and else is `old`.
unfoldable pub read_if : {A : Type 0} → Bool → A → Prog Conn A → Prog Conn A
read_if true old m = m
read_if false old m = return old

abbrev pub path_max : ℕ
path_max = 4096

-- `readb := b[l1:]` is filled from the connection, behind what `copy(b, last.Name)` left in front.
-- Both the allocation and the slice panic if the length is negative.
unfoldable pub read_name : ℕ → ℤ → Bytes → Prog Conn Bytes
read_name l1 l2 last_name = do
  _ ← make_length (pos l1 +ℤ l2)
  n ← make_length l2
  fresh ← read_full n
  return (take l1 (last_name ++ replicate l1 0) ++ fresh)

-- One byte, as an int.
unfoldable pub read_short : Prog Conn ℤ
read_short = do l ← read_byte; return (pos l)

unfoldable pub receive_name : (Bytes → Bytes) → ℕ → ReceiverFile → Prog Conn Bytes
receive_name clean flags last = do
  l1 ← read_if (has_flag flags xmit_same_name) 0 read_byte
  l2 ← if has_flag flags xmit_long_name then read_int32 else read_short
  reject_if (not (ltb_ℤ (pos l1 +ℤ l2) (pos path_max))) (name_overflow (pos l1) l2)
  b ← read_name l1 l2 last.name
  return (clean b)

unfoldable pub read_time : Prog Conn Time
read_time = do mod_time ← read_int32; return (record { seconds = mod_time; nanos = 0 })

unfoldable pub read_link : Prog Conn Bytes
read_link = do l ← read_int32; n ← make_length l; read_full n

-- `f.Mode & S_IFMT`
abbrev pub kind_of : ℤ → ℕ
kind_of mode = bit_and (to_u32 mode) s_ifmt

abbrev pub is_dev : ℕ → Bool
is_dev kind = kind == s_ifchr || kind == s_ifblk

abbrev pub is_special : ℕ → Bool
is_special kind = kind == s_ififo || kind == s_ifsock

-- `clean` is filepath.Clean.
unfoldable pub receive_file_entry :
    (Bytes → Bytes) → TransferOpts → ℕ → ReceiverFile → Prog Conn ReceiverFile
receive_file_entry clean opts flags last = do
  name ← receive_name clean flags last
  size ← read_int64
  mod_time ← read_if (not (has_flag flags xmit_same_time)) last.mod_time read_time
  mode ← read_if (not (has_flag flags xmit_same_mode)) last.mode read_int32
  uid ←
      read_if opts.preserve_uid (pos 0)
        (read_if (not (has_flag flags xmit_same_uid)) last.uid read_int32)
  gid ←
      read_if opts.preserve_gid (pos 0)
        (read_if (not (has_flag flags xmit_same_gid)) last.gid read_int32)
  rdev ←
      read_if (opts.preserve_devices && (is_dev (kind_of mode) || is_special (kind_of mode)))
        (pos 0) (read_if (not (has_flag flags xmit_same_rdev_pre28)) last.rdev read_int32)
  link_target ← read_if (opts.preserve_links && (kind_of mode == s_iflnk)) [] read_link
  return (record {
    name = name;
    size = size;
    mod_time = mod_time;
    mode = mode;
    uid = uid;
    gid = gid;
    link_target = link_target;
    rdev = rdev;
  })

-- `new(utils.ReceiverFile)`; the time is the zero time, which is 62135596800 seconds before 1970.
abbrev pub no_file : ReceiverFile
no_file = record {
  name = [];
  size = pos 0;
  mod_time = record { seconds = negsuc 62135596799; nanos = 0 };
  mode = pos 0;
  uid = pos 0;
  gid = pos 0;
  link_target = [];
  rdev = pos 0;
}

-- The entries up to the byte 0; `next` is the rest of the loop behind an entry.
unfoldable pub entry_step :
    (Bytes → Bytes)
    → TransferOpts
    → ReceiverFile
    → (ReceiverFile → Prog Conn (List ReceiverFile))
    → ℕ
    → Prog Conn (List ReceiverFile)
entry_step clean opts last next b =
    if b == 0
    then return []
    else (do f ← receive_file_entry clean opts b last; rest ← next f; return (f ∷ rest))

unfoldable pub entries_loop :
    ℕ → (Bytes → Bytes) → TransferOpts → ReceiverFile → Prog Conn (List ReceiverFile)
entries_loop zero clean opts last c = (out_of_fuel, c)
entries_loop (suc fuel) clean opts last c =
    (do b ← read_byte; entry_step clean opts last (entries_loop fuel clean opts) b) c

-- A round takes a byte at least.
unfoldable pub receive_entries : (Bytes → Bytes) → TransferOpts → Prog Conn (List ReceiverFile)
receive_entries clean opts c = entries_loop (suc (length c.input)) clean opts no_file c

-- mapping of uidlist.go; a Go map is the list of its assignments, the last one first.
pub record Mapping : Type 0 where
  pub name : Bytes
  pub local_id : ℤ

abbrev pub IdMap : Type 0
IdMap = List (ℤ × Mapping)

-- One name of recvIdMapping1; `localId` of both callers returns the remote id.
unfoldable pub mapping_step : IdMap → (IdMap → Prog Conn IdMap) → ℤ → Prog Conn IdMap
mapping_step known next id = if id ==ℤ pos 0 then return known else (do
  l ← read_byte
  name ← read_full l
  next ((id, record { name = name; local_id = id }) ∷ known))

unfoldable pub mapping_loop : ℕ → IdMap → Prog Conn IdMap
mapping_loop zero known c = (out_of_fuel, c)
mapping_loop (suc fuel) known c = (do id ← read_int32; mapping_step known (mapping_loop fuel) id) c

unfoldable pub recv_id_mapping : Prog Conn IdMap
recv_id_mapping c = mapping_loop (suc (length c.input)) [] c

unfoldable pub recv_id_list : TransferOpts → Prog Conn (IdMap × IdMap)
recv_id_list opts = do
  users ← read_if opts.preserve_uid [] recv_id_mapping
  groups ← read_if opts.preserve_gid [] recv_id_mapping
  return (users, groups)

-- ReceiveFileList returns the sorted list and the peer's i/o error flag, which it stores in
-- rt.IOErrors. `sort` is utils.SortFileList, which sorts by name (sort.Slice).
unfoldable pub receive_file_list :
    (Bytes → Bytes)
    → (List ReceiverFile → List ReceiverFile)
    → TransferOpts
    → Prog Conn (List ReceiverFile × ℤ)
receive_file_list clean sort opts = do
  files ← receive_entries clean opts
  _ ← read_if (opts.preserve_uid || opts.preserve_gid) ([], []) (recv_id_list opts)
  io_errors ← read_int32
  return (sort files, io_errors)
