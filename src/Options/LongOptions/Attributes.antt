-- ===== src/Options/LongOptions/Attributes.antt =====
-- rsyncopts/rsyncopts.go: the first part of Options.table, up to the options on attributes of files.
use go_rsync_receiver.Prelude.{List, [], ◌∷◌}
use go_rsync_receiver.Prelude.Int.{pos, negsuc}
use go_rsync_receiver.Options.Fields.{
  verbose, msgs2stderr, output_motd, do_stats, human_readable, dry_run, recurse, allow_inc_recurse,
  xfer_dirs, preserve_perms, preserve_executability, preserve_acls, preserve_xattrs,
  preserve_mtimes, preserve_atimes, open_noatime, preserve_crtimes, omit_dir_times, omit_link_times,
  modify_window, am_root, preserve_uid, preserve_gid, preserve_devices, copy_devices, write_devices,
  preserve_specials, preserve_links, copy_links, copy_unsafe_links, safe_symlinks, munge_symlinks,
  copy_dirlinks, keep_dirlinks, preserve_hard_links, relative_paths, implied_dirs,
}
use go_rsync_receiver.Options.Codes.{
  opt_chmod, opt_debug, opt_help, opt_info, opt_modify_window, opt_no_d, opt_stderr,
}
use go_rsync_receiver.Options.Popt.{
  PoptOption, popt_option, nil_arg, int_arg, popt_arg_int, popt_arg_none, popt_arg_string,
  popt_arg_val,
}

abbrev pub attribute_options : List PoptOption
attribute_options =
    popt_option "help" "" popt_arg_none nil_arg opt_help
    ∷ popt_option "version" "V" popt_arg_none nil_arg (pos b'V')
    ∷ popt_option "verbose" "v" popt_arg_none nil_arg (pos b'v')
    ∷ popt_option "no-verbose" "" popt_arg_val (int_arg verbose) (pos 0)
    ∷ popt_option "no-v" "" popt_arg_val (int_arg verbose) (pos 0)
    ∷ popt_option "info" "" popt_arg_string nil_arg opt_info
    ∷ popt_option "debug" "" popt_arg_string nil_arg opt_debug
    ∷ popt_option "stderr" "" popt_arg_string nil_arg opt_stderr
    ∷ popt_option "msgs2stderr" "" popt_arg_val (int_arg msgs2stderr) (pos 1)
    ∷ popt_option "no-msgs2stderr" "" popt_arg_val (int_arg msgs2stderr) (pos 0)
    ∷ popt_option "quiet" "q" popt_arg_none nil_arg (pos b'q')
    ∷ popt_option "motd" "" popt_arg_val (int_arg output_motd) (pos 1)
    ∷ popt_option "no-motd" "" popt_arg_val (int_arg output_motd) (pos 0)
    ∷ popt_option "stats" "" popt_arg_none (int_arg do_stats) (pos 0)
    ∷ popt_option "human-readable" "h" popt_arg_none nil_arg (pos b'h')
    ∷ popt_option "no-human-readable" "" popt_arg_val (int_arg human_readable) (pos 0)
    ∷ popt_option "no-h" "" popt_arg_val (int_arg human_readable) (pos 0)
    ∷ popt_option "dry-run" "n" popt_arg_none (int_arg dry_run) (pos 0)
    ∷ popt_option "archive" "a" popt_arg_none nil_arg (pos b'a')
    ∷ popt_option "recursive" "r" popt_arg_val (int_arg recurse) (pos 2)
    ∷ popt_option "no-recursive" "" popt_arg_val (int_arg recurse) (pos 0)
    ∷ popt_option "no-r" "" popt_arg_val (int_arg recurse) (pos 0)
    ∷ popt_option "inc-recursive" "" popt_arg_val (int_arg allow_inc_recurse) (pos 1)
    ∷ popt_option "no-inc-recursive" "" popt_arg_val (int_arg allow_inc_recurse) (pos 0)
    ∷ popt_option "i-r" "" popt_arg_val (int_arg allow_inc_recurse) (pos 1)
    ∷ popt_option "no-i-r" "" popt_arg_val (int_arg allow_inc_recurse) (pos 0)
    ∷ popt_option "dirs" "d" popt_arg_val (int_arg xfer_dirs) (pos 2)
    ∷ popt_option "no-dirs" "" popt_arg_val (int_arg xfer_dirs) (pos 0)
    ∷ popt_option "no-d" "" popt_arg_val (int_arg xfer_dirs) (pos 0)
    ∷ popt_option "old-dirs" "" popt_arg_val (int_arg xfer_dirs) (pos 4)
    ∷ popt_option "old-d" "" popt_arg_val (int_arg xfer_dirs) (pos 4)
    ∷ popt_option "perms" "p" popt_arg_val (int_arg preserve_perms) (pos 1)
    ∷ popt_option "no-perms" "" popt_arg_val (int_arg preserve_perms) (pos 0)
    ∷ popt_option "no-p" "" popt_arg_val (int_arg preserve_perms) (pos 0)
    ∷ popt_option "executability" "E" popt_arg_none (int_arg preserve_executability) (pos 0)
    ∷ popt_option "acls" "A" popt_arg_none nil_arg (pos b'A')
    ∷ popt_option "no-acls" "" popt_arg_val (int_arg preserve_acls) (pos 0)
    ∷ popt_option "no-A" "" popt_arg_val (int_arg preserve_acls) (pos 0)
    ∷ popt_option "xattrs" "X" popt_arg_none nil_arg (pos b'X')
    ∷ popt_option "no-xattrs" "" popt_arg_val (int_arg preserve_xattrs) (pos 0)
    ∷ popt_option "no-X" "" popt_arg_val (int_arg preserve_xattrs) (pos 0)
    ∷ popt_option "times" "t" popt_arg_val (int_arg preserve_mtimes) (pos 1)
    ∷ popt_option "no-times" "" popt_arg_val (int_arg preserve_mtimes) (pos 0)
    ∷ popt_option "no-t" "" popt_arg_val (int_arg preserve_mtimes) (pos 0)
    ∷ popt_option "atimes" "U" popt_arg_none nil_arg (pos b'U')
    ∷ popt_option "no-atimes" "" popt_arg_val (int_arg preserve_atimes) (pos 0)
    ∷ popt_option "no-U" "" popt_arg_val (int_arg preserve_atimes) (pos 0)
    ∷ popt_option "open-noatime" "" popt_arg_val (int_arg open_noatime) (pos 1)
    ∷ popt_option "no-open-noatime" "" popt_arg_val (int_arg open_noatime) (pos 0)
    ∷ popt_option "crtimes" "N" popt_arg_none (int_arg preserve_crtimes) (pos 1)
    ∷ popt_option "no-crtimes" "" popt_arg_val (int_arg preserve_crtimes) (pos 0)
    ∷ popt_option "no-N" "" popt_arg_val (int_arg preserve_crtimes) (pos 0)
    ∷ popt_option "omit-dir-times" "O" popt_arg_val (int_arg omit_dir_times) (pos 1)
    ∷ popt_option "no-omit-dir-times" "" popt_arg_val (int_arg omit_dir_times) (pos 0)
    ∷ popt_option "no-O" "" popt_arg_val (int_arg omit_dir_times) (pos 0)
    ∷ popt_option "omit-link-times" "J" popt_arg_val (int_arg omit_link_times) (pos 1)
    ∷ popt_option "no-omit-link-times" "" popt_arg_val (int_arg omit_link_times) (pos 0)
    ∷ popt_option "no-J" "" popt_arg_val (int_arg omit_link_times) (pos 0)
    ∷ popt_option "modify-window" "@" popt_arg_int (int_arg modify_window) opt_modify_window
    ∷ popt_option "super" "" popt_arg_val (int_arg am_root) (pos 2)
    ∷ popt_option "no-super" "" popt_arg_val (int_arg am_root) (pos 0)
    ∷ popt_option "fake-super" "" popt_arg_val (int_arg am_root) (negsuc 0)
    ∷ popt_option "owner" "o" popt_arg_val (int_arg preserve_uid) (pos 1)
    ∷ popt_option "no-owner" "" popt_arg_val (int_arg preserve_uid) (pos 0)
    ∷ popt_option "no-o" "" popt_arg_val (int_arg preserve_uid) (pos 0)
    ∷ popt_option "group" "g" popt_arg_val (int_arg preserve_gid) (pos 1)
    ∷ popt_option "no-group" "" popt_arg_val (int_arg preserve_gid) (pos 0)
    ∷ popt_option "no-g" "" popt_arg_val (int_arg preserve_gid) (pos 0)
    ∷ popt_option "" "D" popt_arg_none nil_arg (pos b'D')
    ∷ popt_option "no-D" "" popt_arg_none nil_arg opt_no_d
    ∷ popt_option "devices" "" popt_arg_val (int_arg preserve_devices) (pos 1)
    ∷ popt_option "no-devices" "" popt_arg_val (int_arg preserve_devices) (pos 0)
    ∷ popt_option "copy-devices" "" popt_arg_none (int_arg copy_devices) (pos 0)
    ∷ popt_option "write-devices" "" popt_arg_val (int_arg write_devices) (pos 1)
    ∷ popt_option "no-write-devices" "" popt_arg_val (int_arg write_devices) (pos 0)
    ∷ popt_option "specials" "" popt_arg_val (int_arg preserve_specials) (pos 1)
    ∷ popt_option "no-specials" "" popt_arg_val (int_arg preserve_specials) (pos 0)
    ∷ popt_option "links" "l" popt_arg_val (int_arg preserve_links) (pos 1)
    ∷ popt_option "no-links" "" popt_arg_val (int_arg preserve_links) (pos 0)
    ∷ popt_option "no-l" "" popt_arg_val (int_arg preserve_links) (pos 0)
    ∷ popt_option "copy-links" "L" popt_arg_none (int_arg copy_links) (pos 0)
    ∷ popt_option "copy-unsafe-links" "" popt_arg_none (int_arg copy_unsafe_links) (pos 0)
    ∷ popt_option "safe-links" "" popt_arg_none (int_arg safe_symlinks) (pos 0)
    ∷ popt_option "munge-links" "" popt_arg_val (int_arg munge_symlinks) (pos 1)
    ∷ popt_option "no-munge-links" "" popt_arg_val (int_arg munge_symlinks) (pos 0)
    ∷ popt_option "copy-dirlinks" "k" popt_arg_none (int_arg copy_dirlinks) (pos 0)
    ∷ popt_option "keep-dirlinks" "K" popt_arg_none (int_arg keep_dirlinks) (pos 0)
    ∷ popt_option "hard-links" "H" popt_arg_none nil_arg (pos b'H')
    ∷ popt_option "no-hard-links" "" popt_arg_val (int_arg preserve_hard_links) (pos 0)
    ∷ popt_option "no-H" "" popt_arg_val (int_arg preserve_hard_links) (pos 0)
    ∷ popt_option "relative" "R" popt_arg_val (int_arg relative_paths) (pos 1)
    ∷ popt_option "no-relative" "" popt_arg_val (int_arg relative_paths) (pos 0)
    ∷ popt_option "no-R" "" popt_arg_val (int_arg relative_paths) (pos 0)
    ∷ popt_option "implied-dirs" "" popt_arg_val (int_arg implied_dirs) (pos 1)
    ∷ popt_option "no-implied-dirs" "" popt_arg_val (int_arg implied_dirs) (pos 0)
    ∷ popt_option "i-d" "" popt_arg_val (int_arg implied_dirs) (pos 1)
    ∷ popt_option "no-i-d" "" popt_arg_val (int_arg implied_dirs) (pos 0)
    ∷ popt_option "chmod" "" popt_arg_string nil_arg opt_chmod
    ∷ []
