-- ===== src/Options/LongOptions/Transfer.antt =====
-- rsyncopts/rsyncopts.go: the second part of Options.table, from --ignore-times on.
use go_rsync_receiver.Prelude.{List, [], ◌∷◌}
use go_rsync_receiver.Prelude.Int.{pos}
use go_rsync_receiver.Options.Fields.{
  ignore_times, size_only, one_file_system, update_only, ignore_non_existing, ignore_existing,
  max_size_arg, min_size_arg, max_alloc_arg, sparse_files, preallocate_files, inplace, append_mode,
  delete_during, delete_mode, delete_before, delete_after, delete_excluded, missing_args,
  remove_source_files, force_delete, ignore_errors, max_delete, cvs_exclude, whole_file,
  always_checksum, checksum_choice, fuzzy_basis, compress_choice, skip_compress,
  do_compression_level, do_progress, keep_partial, partial_dir, delay_updates, prune_empty_dirs,
  logfile_name, logfile_format, stdout_format, itemize_changes, bwlimit_arg, bwlimit, make_backups,
  backup_dir, backup_suffix, list_only, batch_name, files_from, eol_nulls, old_style_args,
  protect_args, trust_sender, numeric_ids, io_timeout, connect_timeout, do_fsync, shell_cmd,
  rsync_path, tmpdir, iconv_opt, default_af_hint, allow_8bit_chars, mkpath_dest_arg, use_qsort,
  copy_as, bind_address, rsync_port, sockopts, password_file, early_input_file, blocking_io,
  outbuf_mode, protocol_version, checksum_seed, af_inet, af_inet6,
}
use go_rsync_receiver.Options.Codes.{
  opt_append, opt_block_size, opt_bwlimit, opt_chown, opt_compare_dest, opt_copy_dest, opt_daemon,
  opt_exclude, opt_exclude_from, opt_filter, opt_groupmap, opt_include, opt_include_from,
  opt_link_dest, opt_max_size, opt_min_size, opt_new_compress, opt_no_compress, opt_no_iconv,
  opt_old_args, opt_old_compress, opt_only_write_batch, opt_read_batch, opt_sender, opt_server,
  opt_stop_after, opt_stop_at, opt_usermap, opt_write_batch,
}
use go_rsync_receiver.Options.Popt.{
  PoptOption, popt_option, nil_arg, int_arg, string_arg, popt_arg_int, popt_arg_none,
  popt_arg_string, popt_arg_val, popt_bit_set,
}

abbrev pub transfer_options : List PoptOption
transfer_options =
    popt_option "ignore-times" "I" popt_arg_none (int_arg ignore_times) (pos 0)
    ∷ popt_option "size-only" "" popt_arg_none (int_arg size_only) (pos 0)
    ∷ popt_option "one-file-system" "x" popt_arg_none nil_arg (pos b'x')
    ∷ popt_option "no-one-file-system" "" popt_arg_val (int_arg one_file_system) (pos 0)
    ∷ popt_option "no-x" "" popt_arg_val (int_arg one_file_system) (pos 0)
    ∷ popt_option "update" "u" popt_arg_none (int_arg update_only) (pos 0)
    ∷ popt_option "existing" "" popt_arg_none (int_arg ignore_non_existing) (pos 0)
    ∷ popt_option "ignore-non-existing" "" popt_arg_none (int_arg ignore_non_existing) (pos 0)
    ∷ popt_option "ignore-existing" "" popt_arg_none (int_arg ignore_existing) (pos 0)
    ∷ popt_option "max-size" "" popt_arg_string (string_arg max_size_arg) opt_max_size
    ∷ popt_option "min-size" "" popt_arg_string (string_arg min_size_arg) opt_min_size
    ∷ popt_option "max-alloc" "" popt_arg_string (string_arg max_alloc_arg) (pos 0)
    ∷ popt_option "sparse" "S" popt_arg_val (int_arg sparse_files) (pos 1)
    ∷ popt_option "no-sparse" "" popt_arg_val (int_arg sparse_files) (pos 0)
    ∷ popt_option "no-S" "" popt_arg_val (int_arg sparse_files) (pos 0)
    ∷ popt_option "preallocate" "" popt_arg_none (int_arg preallocate_files) (pos 0)
    ∷ popt_option "inplace" "" popt_arg_val (int_arg inplace) (pos 1)
    ∷ popt_option "no-inplace" "" popt_arg_val (int_arg inplace) (pos 0)
    ∷ popt_option "append" "" popt_arg_none nil_arg opt_append
    ∷ popt_option "append-verify" "" popt_arg_val (int_arg append_mode) (pos 2)
    ∷ popt_option "no-append" "" popt_arg_val (int_arg append_mode) (pos 0)
    ∷ popt_option "del" "" popt_arg_none (int_arg delete_during) (pos 0)
    ∷ popt_option "delete" "" popt_arg_none (int_arg delete_mode) (pos 0)
    ∷ popt_option "delete-before" "" popt_arg_none (int_arg delete_before) (pos 0)
    ∷ popt_option "delete-during" "" popt_arg_val (int_arg delete_during) (pos 1)
    ∷ popt_option "delete-delay" "" popt_arg_val (int_arg delete_during) (pos 2)
    ∷ popt_option "delete-after" "" popt_arg_none (int_arg delete_after) (pos 0)
    ∷ popt_option "delete-excluded" "" popt_arg_none (int_arg delete_excluded) (pos 0)
    ∷ popt_option "delete-missing-args" "" popt_bit_set (int_arg missing_args) (pos 2)
    ∷ popt_option "ignore-missing-args" "" popt_bit_set (int_arg missing_args) (pos 1)
    ∷ popt_option "remove-sent-files" "" popt_arg_val (int_arg remove_source_files) (pos 2)
    ∷ popt_option "remove-source-files" "" popt_arg_val (int_arg remove_source_files) (pos 1)
    ∷ popt_option "force" "" popt_arg_val (int_arg force_delete) (pos 1)
    ∷ popt_option "no-force" "" popt_arg_val (int_arg force_delete) (pos 0)
    ∷ popt_option "ignore-errors" "" popt_arg_val (int_arg ignore_errors) (pos 1)
    ∷ popt_option "no-ignore-errors" "" popt_arg_val (int_arg ignore_errors) (pos 0)
    ∷ popt_option "max-delete" "" popt_arg_int (int_arg max_delete) (pos 0)
    ∷ popt_option "" "F" popt_arg_none nil_arg (pos b'F')
    ∷ popt_option "filter" "f" popt_arg_string nil_arg opt_filter
    ∷ popt_option "exclude" "" popt_arg_string nil_arg opt_exclude
    ∷ popt_option "include" "" popt_arg_string nil_arg opt_include
    ∷ popt_option "exclude-from" "" popt_arg_string nil_arg opt_exclude_from
    ∷ popt_option "include-from" "" popt_arg_string nil_arg opt_include_from
    ∷ popt_option "cvs-exclude" "C" popt_arg_none (int_arg cvs_exclude) (pos 0)
    ∷ popt_option "whole-file" "W" popt_arg_val (int_arg whole_file) (pos 1)
    ∷ popt_option "no-whole-file" "" popt_arg_val (int_arg whole_file) (pos 0)
    ∷ popt_option "no-W" "" popt_arg_val (int_arg whole_file) (pos 0)
    ∷ popt_option "checksum" "c" popt_arg_val (int_arg always_checksum) (pos 1)
    ∷ popt_option "no-checksum" "" popt_arg_val (int_arg always_checksum) (pos 0)
    ∷ popt_option "no-c" "" popt_arg_val (int_arg always_checksum) (pos 0)
    ∷ popt_option "checksum-choice" "" popt_arg_string (string_arg checksum_choice) (pos 0)
    ∷ popt_option "cc" "" popt_arg_string (string_arg checksum_choice) (pos 0)
    ∷ popt_option "block-size" "B" popt_arg_string nil_arg opt_block_size
    ∷ popt_option "compare-dest" "" popt_arg_string nil_arg opt_compare_dest
    ∷ popt_option "copy-dest" "" popt_arg_string nil_arg opt_copy_dest
    ∷ popt_option "link-dest" "" popt_arg_string nil_arg opt_link_dest
    ∷ popt_option "fuzzy" "y" popt_arg_none nil_arg (pos b'y')
    ∷ popt_option "no-fuzzy" "" popt_arg_val (int_arg fuzzy_basis) (pos 0)
    ∷ popt_option "no-y" "" popt_arg_val (int_arg fuzzy_basis) (pos 0)
    ∷ popt_option "compress" "z" popt_arg_none nil_arg (pos b'z')
    ∷ popt_option "old-compress" "" popt_arg_none nil_arg opt_old_compress
    ∷ popt_option "new-compress" "" popt_arg_none nil_arg opt_new_compress
    ∷ popt_option "no-compress" "" popt_arg_none nil_arg opt_no_compress
    ∷ popt_option "no-z" "" popt_arg_none nil_arg opt_no_compress
    ∷ popt_option "compress-choice" "" popt_arg_string (string_arg compress_choice) (pos 0)
    ∷ popt_option "zc" "" popt_arg_string (string_arg compress_choice) (pos 0)
    ∷ popt_option "skip-compress" "" popt_arg_string (string_arg skip_compress) (pos 0)
    ∷ popt_option "compress-level" "" popt_arg_int (int_arg do_compression_level) (pos 0)
    ∷ popt_option "zl" "" popt_arg_int (int_arg do_compression_level) (pos 0)
    ∷ popt_option "" "P" popt_arg_none nil_arg (pos b'P')
    ∷ popt_option "progress" "" popt_arg_val (int_arg do_progress) (pos 1)
    ∷ popt_option "no-progress" "" popt_arg_val (int_arg do_progress) (pos 0)
    ∷ popt_option "partial" "" popt_arg_val (int_arg keep_partial) (pos 1)
    ∷ popt_option "no-partial" "" popt_arg_val (int_arg keep_partial) (pos 0)
    ∷ popt_option "partial-dir" "" popt_arg_string (string_arg partial_dir) (pos 0)
    ∷ popt_option "delay-updates" "" popt_arg_val (int_arg delay_updates) (pos 1)
    ∷ popt_option "no-delay-updates" "" popt_arg_val (int_arg delay_updates) (pos 0)
    ∷ popt_option "prune-empty-dirs" "m" popt_arg_val (int_arg prune_empty_dirs) (pos 1)
    ∷ popt_option "no-prune-empty-dirs" "" popt_arg_val (int_arg prune_empty_dirs) (pos 0)
    ∷ popt_option "no-m" "" popt_arg_val (int_arg prune_empty_dirs) (pos 0)
    ∷ popt_option "log-file" "" popt_arg_string (string_arg logfile_name) (pos 0)
    ∷ popt_option "log-file-format" "" popt_arg_string (string_arg logfile_format) (pos 0)
    ∷ popt_option "out-format" "" popt_arg_string (string_arg stdout_format) (pos 0)
    ∷ popt_option "log-format" "" popt_arg_string (string_arg stdout_format) (pos 0)
    ∷ popt_option "itemize-changes" "i" popt_arg_none nil_arg (pos b'i')
    ∷ popt_option "no-itemize-changes" "" popt_arg_val (int_arg itemize_changes) (pos 0)
    ∷ popt_option "no-i" "" popt_arg_val (int_arg itemize_changes) (pos 0)
    ∷ popt_option "bwlimit" "" popt_arg_string (string_arg bwlimit_arg) opt_bwlimit
    ∷ popt_option "no-bwlimit" "" popt_arg_val (int_arg bwlimit) (pos 0)
    ∷ popt_option "backup" "b" popt_arg_val (int_arg make_backups) (pos 1)
    ∷ popt_option "no-backup" "" popt_arg_val (int_arg make_backups) (pos 0)
    ∷ popt_option "backup-dir" "" popt_arg_string (string_arg backup_dir) (pos 0)
    ∷ popt_option "suffix" "" popt_arg_string (string_arg backup_suffix) (pos 0)
    ∷ popt_option "list-only" "" popt_arg_val (int_arg list_only) (pos 2)
    ∷ popt_option "read-batch" "" popt_arg_string (string_arg batch_name) opt_read_batch
    ∷ popt_option "write-batch" "" popt_arg_string (string_arg batch_name) opt_write_batch
    ∷ popt_option "only-write-batch" "" popt_arg_string (string_arg batch_name) opt_only_write_batch
    ∷ popt_option "files-from" "" popt_arg_string (string_arg files_from) (pos 0)
    ∷ popt_option "from0" "0" popt_arg_val (int_arg eol_nulls) (pos 1)
    ∷ popt_option "no-from0" "" popt_arg_val (int_arg eol_nulls) (pos 0)
    ∷ popt_option "old-args" "" popt_arg_none nil_arg opt_old_args
    ∷ popt_option "no-old-args" "" popt_arg_val (int_arg old_style_args) (pos 0)
    ∷ popt_option "secluded-args" "s" popt_arg_val (int_arg protect_args) (pos 1)
    ∷ popt_option "no-secluded-args" "" popt_arg_val (int_arg protect_args) (pos 0)
    ∷ popt_option "protect-args" "" popt_arg_val (int_arg protect_args) (pos 1)
    ∷ popt_option "no-protect-args" "" popt_arg_val (int_arg protect_args) (pos 0)
    ∷ popt_option "no-s" "" popt_arg_val (int_arg protect_args) (pos 0)
    ∷ popt_option "trust-sender" "" popt_arg_val (int_arg trust_sender) (pos 1)
    ∷ popt_option "numeric-ids" "" popt_arg_val (int_arg numeric_ids) (pos 1)
    ∷ popt_option "no-numeric-ids" "" popt_arg_val (int_arg numeric_ids) (pos 0)
    ∷ popt_option "usermap" "" popt_arg_string nil_arg opt_usermap
    ∷ popt_option "groupmap" "" popt_arg_string nil_arg opt_groupmap
    ∷ popt_option "chown" "" popt_arg_string nil_arg opt_chown
    ∷ popt_option "timeout" "" popt_arg_int (int_arg io_timeout) (pos 0)
    ∷ popt_option "no-timeout" "" popt_arg_val (int_arg io_timeout) (pos 0)
    ∷ popt_option "contimeout" "" popt_arg_int (int_arg connect_timeout) (pos 0)
    ∷ popt_option "no-contimeout" "" popt_arg_val (int_arg connect_timeout) (pos 0)
    ∷ popt_option "fsync" "" popt_arg_none (int_arg do_fsync) (pos 0)
    ∷ popt_option "stop-after" "" popt_arg_string nil_arg opt_stop_after
    ∷ popt_option "time-limit" "" popt_arg_string nil_arg opt_stop_after
    ∷ popt_option "stop-at" "" popt_arg_string nil_arg opt_stop_at
    ∷ popt_option "rsh" "e" popt_arg_string (string_arg shell_cmd) (pos 0)
    ∷ popt_option "rsync-path" "" popt_arg_string (string_arg rsync_path) (pos 0)
    ∷ popt_option "temp-dir" "T" popt_arg_string (string_arg tmpdir) (pos 0)
    ∷ popt_option "iconv" "" popt_arg_string (string_arg iconv_opt) (pos 0)
    ∷ popt_option "no-iconv" "" popt_arg_none nil_arg opt_no_iconv
    ∷ popt_option "ipv4" "4" popt_arg_val (int_arg default_af_hint) af_inet
    ∷ popt_option "ipv6" "6" popt_arg_val (int_arg default_af_hint) af_inet6
    ∷ popt_option "8-bit-output" "8" popt_arg_val (int_arg allow_8bit_chars) (pos 1)
    ∷ popt_option "no-8-bit-output" "" popt_arg_val (int_arg allow_8bit_chars) (pos 0)
    ∷ popt_option "no-8" "" popt_arg_val (int_arg allow_8bit_chars) (pos 0)
    ∷ popt_option "mkpath" "" popt_arg_val (int_arg mkpath_dest_arg) (pos 1)
    ∷ popt_option "no-mkpath" "" popt_arg_val (int_arg mkpath_dest_arg) (pos 0)
    ∷ popt_option "qsort" "" popt_arg_none (int_arg use_qsort) (pos 0)
    ∷ popt_option "copy-as" "" popt_arg_string (string_arg copy_as) (pos 0)
    ∷ popt_option "address" "" popt_arg_string (string_arg bind_address) (pos 0)
    ∷ popt_option "port" "" popt_arg_int (int_arg rsync_port) (pos 0)
    ∷ popt_option "sockopts" "" popt_arg_string (string_arg sockopts) (pos 0)
    ∷ popt_option "password-file" "" popt_arg_string (string_arg password_file) (pos 0)
    ∷ popt_option "early-input" "" popt_arg_string (string_arg early_input_file) (pos 0)
    ∷ popt_option "blocking-io" "" popt_arg_val (int_arg blocking_io) (pos 1)
    ∷ popt_option "no-blocking-io" "" popt_arg_val (int_arg blocking_io) (pos 0)
    ∷ popt_option "outbuf" "" popt_arg_string (string_arg outbuf_mode) (pos 0)
    ∷ popt_option "remote-option" "M" popt_arg_string nil_arg (pos b'M')
    ∷ popt_option "protocol" "" popt_arg_int (int_arg protocol_version) (pos 0)
    ∷ popt_option "checksum-seed" "" popt_arg_int (int_arg checksum_seed) (pos 0)
    ∷ popt_option "server" "" popt_arg_none nil_arg opt_server
    ∷ popt_option "sender" "" popt_arg_none nil_arg opt_sender
    ∷ popt_option "config" "" popt_arg_string nil_arg opt_daemon
    ∷ popt_option "daemon" "" popt_arg_none nil_arg opt_daemon
    ∷ popt_option "dparam" "" popt_arg_string nil_arg opt_daemon
    ∷ popt_option "detach" "" popt_arg_none nil_arg opt_daemon
    ∷ popt_option "no-detach" "" popt_arg_none nil_arg opt_daemon
    ∷ []
