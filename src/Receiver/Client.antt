-- ===== src/Receiver/Client.antt =====
-- rsyncreceiver/client.go: the options of the transfer that ClientRun takes from the command line.
use go_rsync_receiver.Prelude.{◌≡◌, refl, false, codes}
use go_rsync_receiver.Prelude.Int.{pos}
use go_rsync_receiver.Options.Fields.{Options}
use go_rsync_receiver.Options.Access.{
  has_dry_run, has_delete_mode, has_preserve_gid, has_preserve_uid, has_preserve_links,
  has_preserve_perms, has_preserve_devices, has_preserve_specials, preserves_mtimes,
  has_ignore_times, has_size_only, has_always_checksum,
}
use go_rsync_receiver.Receiver.Opts.{TransferOpts, Transfer}
use go_rsync_receiver.Sender.FileList.Fields.{Matches}

-- The fields that the literal leaves out are false.
unfoldable pub transfer_opts : Options → TransferOpts
transfer_opts o = record {
  verbose = false;
  dry_run = has_dry_run o;
  delete_mode = has_delete_mode o;
  preserve_gid = has_preserve_gid o;
  preserve_uid = has_preserve_uid o;
  preserve_links = has_preserve_links o;
  preserve_perms = has_preserve_perms o;
  preserve_devices = has_preserve_devices o;
  preserve_specials = has_preserve_specials o;
  preserve_times = preserves_mtimes o;
  preserve_hardlinks = false;
  ignore_times = has_ignore_times o;
  size_only = has_size_only o;
  always_checksum = has_always_checksum o;
}

-- sessionChecksumSeed, and the transfer that ClientRun starts.
unfoldable pub client_transfer : Options → Transfer
client_transfer o = record { opts = transfer_opts o; dest = codes "/"; seed = pos 666 }

-- A sender that runs with the same options agrees with the receiver on the list, if devices and special
-- files are asked for together and checksums are not.
pub transfer_opts-Matches :
    (o : Options)
    → has_preserve_specials o ≡ has_preserve_devices o
    → has_always_checksum o ≡ false
    → Matches o (transfer_opts o)
unfolding transfer_opts
transfer_opts-Matches o together none = record {
  uid = refl;
  gid = refl;
  devices = refl;
  specials = together;
  links = refl;
  no_checksum = none;
}
