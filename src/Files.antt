-- ===== src/Files.antt =====
-- utils/file.go and utils/fs.go: the files that the two sides name, and the file system that the
-- caller provides (utils.FS), of which only the results of its calls are known.
use go_rsync_receiver.Prelude.{ℕ, ◌+◌, ◌^◌, Bool, List, Bytes, ◌==◌, if◌then◌else◌}
use go_rsync_receiver.Prelude.Int.{ℤ}
use go_rsync_receiver.Prelude.Words.{to_u32}
use go_rsync_receiver.Rsync.{s_ifmt, s_ifdir, s_ifchr, s_ifblk, s_ififo, s_iflnk, s_ifsock}
use Prim.Native.Nat.{bit_and, bit_or}
use go_rsync_receiver.Outcome.{Error}

-- A time.Time: seconds since 1970, and nanoseconds.
pub record Time : Type 0 where
  pub seconds : ℤ
  pub nanos : ℕ

-- `Reader` is left out: it is the pipe of one receiveData.
pub record ReceiverFile : Type 0 where
  pub name : Bytes
  pub size : ℤ
  pub mod_time : Time
  pub mode : ℤ
  pub uid : ℤ
  pub gid : ℤ
  pub link_target : Bytes
  pub rdev : ℤ

-- An os.FileInfo: `mode` holds the bits of fs.FileMode.
pub record FileInfo : Type 0 where
  pub name : Bytes
  pub size : ℕ
  pub mode : ℕ
  pub mod_time : Time

-- What one call of Read gives: the bytes, and the error beside them.
pub data ReadStatus : Type 0 where
  going at_eof : ReadStatus
  broken : Error → ReadStatus

pub record ReadStep : Type 0 where
  pub chunk : Bytes
  pub status : ReadStatus

-- What a read of a range gives, by ReadAt or by io.ReadFull from there.
pub data Fetched : Type 0 where
  got : Bytes → Fetched
  lost : Error → Fetched

-- An open local file, by the offset and the length of a read.
abbrev pub LocalFile : Type 0
LocalFile = ℕ → ℕ → Fetched

-- What utils.FS.Read gives the sender: an error, or the file's information and the reads to come.
-- After the last read the file is at its end.
pub data Opened : Type 0 where
  unopened : Error → Opened
  opened : FileInfo → List ReadStep → Opened

-- What utils.FS.Read gives the receiver of a file that it has or lacks.
pub data Present : Type 0 where
  absent : Error → Present
  present : FileInfo → LocalFile → Present

-- fs.FileMode's bits, and os.ModePerm
abbrev pub mode_dir : ℕ
mode_dir = 2 ^ 31

abbrev pub mode_symlink : ℕ
mode_symlink = 2 ^ 27

abbrev pub mode_device : ℕ
mode_device = 2 ^ 26

abbrev pub mode_named_pipe : ℕ
mode_named_pipe = 2 ^ 25

abbrev pub mode_socket : ℕ
mode_socket = 2 ^ 24

abbrev pub mode_char_device : ℕ
mode_char_device = 2 ^ 21

abbrev pub mode_irregular : ℕ
mode_irregular = 2 ^ 19

abbrev pub mode_perm : ℕ
mode_perm = 0o777

-- The mask fs.ModeType
abbrev pub mode_type : ℕ
mode_type =
    mode_dir + mode_symlink + mode_named_pipe + mode_socket + mode_device + mode_char_device
    + mode_irregular

-- The type bits that FileMode adds for the masked type of the Linux mode.
unfoldable pub type_bits : ℕ → ℕ
type_bits kind =
    if kind == s_ifchr
    then mode_char_device
    else if kind == s_ifblk
    then mode_device
    else if kind == s_ififo
    then mode_named_pipe
    else if kind == s_ifsock
    then mode_socket
    else if kind == s_iflnk
    then mode_symlink
    else if kind == s_ifdir
    then mode_dir
    else 0

-- ReceiverFile.FileMode, of the int32 that the list holds.
unfoldable pub file_mode : ℤ → ℕ
file_mode mode = bit_or (bit_and (to_u32 mode) mode_perm) (type_bits (bit_and (to_u32 mode) s_ifmt))

-- fs.FileMode.IsRegular
unfoldable pub is_regular : ℕ → Bool
is_regular mode = bit_and mode mode_type == 0
