-- ===== src/Receiver/Opts.antt =====
-- rsyncreceiver/transfer.go: the options of a transfer, and its fixed part.
use go_rsync_receiver.Prelude.{Bool, true, false, [], ◌∷◌, Bytes}
use go_rsync_receiver.Prelude.Int.{ℤ}

pub record TransferOpts : Type 0 where
  pub verbose : Bool
  pub dry_run : Bool
  pub delete_mode : Bool
  pub preserve_gid : Bool
  pub preserve_uid : Bool
  pub preserve_links : Bool
  pub preserve_perms : Bool
  pub preserve_devices : Bool
  pub preserve_specials : Bool
  pub preserve_times : Bool
  pub preserve_hardlinks : Bool
  pub ignore_times : Bool
  pub size_only : Bool
  pub always_checksum : Bool

-- Transfer without its connection, its file system and its logger. `IOErrors` is the one field that
-- changes: ReceiveFileList returns it.
pub record Transfer : Type 0 where
  pub opts : TransferOpts
  pub dest : Bytes
  pub seed : ℤ

is_empty : Bytes → Bool
is_empty [] = true
is_empty (b ∷ bs) = false

-- `rt.Dest == ""`
unfoldable pub list_only : Transfer → Bool
unfolding is_empty
list_only rt = is_empty rt.dest
