-- ===== src/Rsync.antt =====
-- rsync/types.go and rsync/consts.go: the block checksums of a file and their header on the wire.
pub mod Heads
use go_rsync_receiver.Prelude.{ℕ, ◌^◌, Bool, ◌||◌, List, [], ◌++◌, Bytes}
use go_rsync_receiver.Prelude.Int.{ℤ, pos, ltb_ℤ}
use go_rsync_receiver.Outcome.{
  Error, Prog, bad_count, bad_block, bad_checksum, bad_remainder, reject_if, return, ◌>>=◌, ◌>>◌,
}
use go_rsync_receiver.Wire.{Conn, read_int32, int32_bytes, write_string}

-- rsync/consts.go: the flags of a list entry that fit its byte, and the file types.
abbrev pub xmit_top_dir : ℕ
xmit_top_dir = 1

abbrev pub xmit_same_mode : ℕ
xmit_same_mode = 2

abbrev pub xmit_same_rdev_pre28 : ℕ
xmit_same_rdev_pre28 = 4

abbrev pub xmit_same_uid : ℕ
xmit_same_uid = 8

abbrev pub xmit_same_gid : ℕ
xmit_same_gid = 16

abbrev pub xmit_same_name : ℕ
xmit_same_name = 32

abbrev pub xmit_long_name : ℕ
xmit_long_name = 64

abbrev pub xmit_same_time : ℕ
xmit_same_time = 128

abbrev pub s_ifmt : ℕ
s_ifmt = 0o170000

abbrev pub s_ifdir : ℕ
s_ifdir = 0o040000

abbrev pub s_ifchr : ℕ
s_ifchr = 0o020000

abbrev pub s_ifblk : ℕ
s_ifblk = 0o060000

abbrev pub s_ifreg : ℕ
s_ifreg = 0o100000

abbrev pub s_ififo : ℕ
s_ififo = 0o010000

abbrev pub s_iflnk : ℕ
s_iflnk = 0o120000

abbrev pub s_ifsock : ℕ
s_ifsock = 0o140000

-- ProtocolVersion
abbrev pub protocol_version : ℤ
protocol_version = pos 27

-- SumBuf: `sum2` is the array of 16 bytes.
pub record SumBuf : Type 0 where
  pub offset : ℤ
  pub len : ℤ
  pub index : ℤ
  pub sum1 : ℕ
  pub sum2 : Bytes

pub record SumHead : Type 0 where
  pub checksum_count : ℤ
  pub block_length : ℤ
  pub checksum_length : ℤ
  pub remainder_length : ℤ
  pub sums : List SumBuf

-- `var sh rsync.SumHead`
abbrev pub zero_head : SumHead
zero_head = record {
  checksum_count = pos 0;
  block_length = pos 0;
  checksum_length = pos 0;
  remainder_length = pos 0;
  sums = [];
}

abbrev pub max_block_len : ℤ
max_block_len = pos (2 ^ 29)

-- `x < 0 || x > limit`
abbrev pub outside : ℤ → ℤ → Bool
outside limit x = ltb_ℤ x (pos 0) || ltb_ℤ limit x

-- `x, err = c.ReadInt32()`, and the test of `x` behind it.
unfoldable pub checked_int32 : (ℤ → Bool) → (ℤ → Error) → Prog Conn ℤ
checked_int32 bad error = do x ← read_int32; reject_if (bad x) (error x); return x

unfoldable pub read_from : SumHead → Prog Conn SumHead
read_from sh = do
  count ← checked_int32 (λ x. ltb_ℤ x (pos 0)) bad_count
  block ← checked_int32 (outside max_block_len) bad_block
  size ← checked_int32 (outside (pos 16)) bad_checksum
  remainder ← checked_int32 (outside block) bad_remainder
  return (record sh {
    checksum_count = count;
    block_length = block;
    checksum_length = size;
    remainder_length = remainder;
  })

-- The buffer of WriteTo.
unfoldable pub head_bytes : SumHead → Bytes
head_bytes sh =
    int32_bytes sh.checksum_count
    ++ (int32_bytes sh.block_length
        ++ (int32_bytes sh.checksum_length ++ int32_bytes sh.remainder_length))

unfoldable pub write_to : SumHead → Prog Conn (Unit {0})
write_to sh = write_string (head_bytes sh)
