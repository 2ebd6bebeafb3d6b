-- ===== src/Options/Access.antt =====
-- rsyncopts/rsyncopts.go: what the other packages read of the options. A name that a field has too
-- gets `has_` before it.
use go_rsync_receiver.Prelude.{Bool, not, Bytes}
use go_rsync_receiver.Prelude.Int.{ℤ, pos, ◌==ℤ◌}
use go_rsync_receiver.Options.Fields.{
  Options, set_int, update_only, dry_run, preserve_links, preserve_uid, preserve_gid,
  preserve_devices, preserve_mtimes, preserve_perms, preserve_specials, preserve_hard_links,
  recurse, verbose, delete_mode, am_sender, local_server, am_server, am_daemon, connect_timeout,
  always_checksum, do_compression, do_compression_level, ignore_times, size_only, shell_cmd,
  compress_choice,
}

unfoldable pub shell_command : Options → Bytes
shell_command o = o.strings shell_cmd

unfoldable pub has_update_only : Options → Bool
has_update_only o = not (o.ints update_only ==ℤ pos 0)

unfoldable pub has_dry_run : Options → Bool
has_dry_run o = not (o.ints dry_run ==ℤ pos 0)

unfoldable pub has_preserve_links : Options → Bool
has_preserve_links o = not (o.ints preserve_links ==ℤ pos 0)

unfoldable pub has_preserve_uid : Options → Bool
has_preserve_uid o = not (o.ints preserve_uid ==ℤ pos 0)

unfoldable pub has_preserve_gid : Options → Bool
has_preserve_gid o = not (o.ints preserve_gid ==ℤ pos 0)

unfoldable pub has_preserve_devices : Options → Bool
has_preserve_devices o = not (o.ints preserve_devices ==ℤ pos 0)

unfoldable pub preserves_mtimes : Options → Bool
preserves_mtimes o = not (o.ints preserve_mtimes ==ℤ pos 0)

unfoldable pub has_preserve_perms : Options → Bool
has_preserve_perms o = not (o.ints preserve_perms ==ℤ pos 0)

unfoldable pub has_preserve_specials : Options → Bool
has_preserve_specials o = not (o.ints preserve_specials ==ℤ pos 0)

unfoldable pub has_preserve_hard_links : Options → Bool
has_preserve_hard_links o = not (o.ints preserve_hard_links ==ℤ pos 0)

unfoldable pub has_recurse : Options → Bool
has_recurse o = not (o.ints recurse ==ℤ pos 0)

unfoldable pub has_verbose : Options → Bool
has_verbose o = not (o.ints verbose ==ℤ pos 0)

unfoldable pub has_delete_mode : Options → Bool
has_delete_mode o = not (o.ints delete_mode ==ℤ pos 0)

unfoldable pub sender : Options → Bool
sender o = not (o.ints am_sender ==ℤ pos 0)

unfoldable pub set_sender : Options → Options
set_sender o = set_int am_sender (pos 1) o

unfoldable pub has_local_server : Options → Bool
has_local_server o = not (o.ints local_server ==ℤ pos 0)

unfoldable pub set_local_server : Options → Options
set_local_server o = set_int local_server (pos 1) o

unfoldable pub server : Options → Bool
server o = not (o.ints am_server ==ℤ pos 0)

unfoldable pub daemon : Options → Bool
daemon o = not (o.ints am_daemon ==ℤ pos 0)

unfoldable pub connect_timeout_seconds : Options → ℤ
connect_timeout_seconds o = o.ints connect_timeout

unfoldable pub has_always_checksum : Options → Bool
has_always_checksum o = not (o.ints always_checksum ==ℤ pos 0)

unfoldable pub compress : Options → Bool
compress o = not (o.ints do_compression ==ℤ pos 0)

unfoldable pub has_compress_choice : Options → Bytes
has_compress_choice o = o.strings compress_choice

unfoldable pub compress_level : Options → ℤ
compress_level o = o.ints do_compression_level

unfoldable pub has_ignore_times : Options → Bool
has_ignore_times o = o.ints ignore_times ==ℤ pos 1

unfoldable pub has_size_only : Options → Bool
has_size_only o = o.ints size_only ==ℤ pos 1
