-- ===== src/Tests/Common.antt =====
-- The data of the runs.
use go_rsync_receiver.Prelude.{
  ℕ, ◌%◌, refl, true, false, List, [], ◌∷◌, ◌++◌, none, some, arith, Bytes, length, replicate, take,
  drop,
}
use go_rsync_receiver.Prelude.Int.{pos}
use go_rsync_receiver.Wire.{Conn, plain}
use go_rsync_receiver.Wire.RoundTrip.{IsFresh}
use go_rsync_receiver.Rsync.{SumHead}
use go_rsync_receiver.Rsync.Heads.{IsValid}
use go_rsync_receiver.Files.{LocalFile, got, Time, FileInfo, ReceiverFile}
use go_rsync_receiver.Receiver.Data.Lengths.{no_remainder}
use go_rsync_receiver.Receiver.Data.Stream.{Op, literal, copy, Means, nil, cons_literal, cons_copy}
use go_rsync_receiver.Receiver.Opts.{TransferOpts}
use go_rsync_receiver.Receiver.Generator.Sums.{IsContent}
use go_rsync_receiver.Receiver.Generator.Requests.{nil}

-- A connection whose network takes every write.
abbrev pub conn_of : Bytes → Conn
conn_of input = record {
  input = input;
  output = [];
  writer = plain;
  faults = λ out p. none;
  bytes_read = 0;
}

pub conn_of-IsFresh : IsFresh (conn_of [])
conn_of-IsFresh = record { is_plain = refl; nothing = refl; reliable = λ out p. refl }

-- In place of md4: the length, and zeros.
abbrev pub tag : Bytes → Bytes
tag x = length x % 256 ∷ replicate 15 0

abbrev pub no_root : ℕ → ℕ
no_root n = 0

-- A head of one full block of 700 bytes.
abbrev pub one_block : SumHead
one_block = record {
  checksum_count = pos 1;
  block_length = pos 700;
  checksum_length = pos 16;
  remainder_length = pos 0;
  sums = [];
}

pub one_block-IsValid : IsValid one_block
one_block-IsValid = record {
  count_lo = omega arith;
  block_lo = omega arith;
  block_hi = omega arith;
  checksum_lo = omega arith;
  checksum_hi = omega arith;
  remainder_lo = omega arith;
  remainder_hi = omega arith;
}

abbrev pub file_of : Bytes → LocalFile
file_of content at n = got (take n (drop at content))

-- A file of one block of 700 bytes.
abbrev pub seven_hundred : Bytes
seven_hundred = replicate 700 42

-- Two literal bytes, and block 0 of the local file.
abbrev pub two_ops : List Op
two_ops = literal (1 ∷ 2 ∷ []) ∷ copy 0 ∷ []

abbrev pub two_ops_bytes : Bytes
two_ops_bytes = (1 ∷ 2 ∷ []) ++ (seven_hundred ++ [])

pub two_ops-Means : Means one_block (some (file_of seven_hundred)) two_ops two_ops_bytes
two_ops-Means = cons_literal (omega arith) (omega arith) (
    cons_copy (file_of seven_hundred) 700 700 seven_hundred (omega arith) refl refl
      (no_remainder refl refl) refl nil)

abbrev pub three_bytes : FileInfo
three_bytes = record {
  name = [];
  size = 3;
  mode = 0;
  mod_time = record { seconds = pos 0; nanos = 0 };
}

pub file_of-IsContent : (content : Bytes) → IsContent (file_of content) content
file_of-IsContent content at n h = refl

abbrev pub plain_opts : TransferOpts
plain_opts = record {
  verbose = false;
  dry_run = false;
  delete_mode = false;
  preserve_gid = false;
  preserve_uid = true;
  preserve_links = true;
  preserve_perms = true;
  preserve_devices = false;
  preserve_specials = false;
  preserve_times = true;
  preserve_hardlinks = false;
  ignore_times = false;
  size_only = false;
  always_checksum = false;
}

abbrev pub no_time : Time
no_time = record { seconds = pos 0; nanos = 0 }

-- A regular file of two bytes, and a directory.
abbrev pub two_bytes : ReceiverFile
two_bytes = record {
  name = 97 ∷ [];
  size = pos 2;
  mod_time = no_time;
  mode = pos 0o100644;
  uid = pos 0;
  gid = pos 0;
  link_target = [];
  rdev = pos 0;
}
