-- ===== src/Options/DaemonOptions.antt =====
-- rsyncopts/rsyncopts.go: Options.daemonTable, and GokrazyOptions.table.
use go_rsync_receiver.Prelude.{List, [], ◌∷◌}
use go_rsync_receiver.Prelude.Int.{pos}
use go_rsync_receiver.Options.Fields.{
  gokrazy_config, gokrazy_listen, gokrazy_monitoring_listen, gokrazy_anonssh_listen,
  gokrazy_module_map, bind_address, daemon_bwlimit, config_file, daemon_opt, default_af_hint,
  no_detach, logfile_name, logfile_format, rsync_port, sockopts, protocol_version, am_server,
  tmpdir, verbose, af_inet, af_inet6,
}
use go_rsync_receiver.Options.Codes.{opt_help}
use go_rsync_receiver.Options.Popt.{
  PoptOption, popt_option, nil_arg, int_arg, string_arg, number_arg, popt_arg_int, popt_arg_none,
  popt_arg_string, popt_arg_val,
}

abbrev pub gokrazy_table : List PoptOption
gokrazy_table =
    popt_option "gokr.config" "" popt_arg_string (string_arg gokrazy_config) (pos 0)
    ∷ popt_option "gokr.listen" "" popt_arg_string (string_arg gokrazy_listen) (pos 0)
    ∷ popt_option "gokr.monitoring_listen" "" popt_arg_string (string_arg gokrazy_monitoring_listen)
        (pos 0)
    ∷ popt_option "gokr.anonssh_listen" "" popt_arg_string (string_arg gokrazy_anonssh_listen)
        (pos 0)
    ∷ popt_option "gokr.modulemap" "" popt_arg_string (string_arg gokrazy_module_map) (pos 0)
    ∷ []

abbrev pub daemon_table : List PoptOption
daemon_table =
    popt_option "help" "" popt_arg_none nil_arg opt_help
    ∷ popt_option "address" "" popt_arg_string (string_arg bind_address) (pos 0)
    ∷ popt_option "bwlimit" "" popt_arg_int (int_arg daemon_bwlimit) (pos 0)
    ∷ popt_option "config" "" popt_arg_string (string_arg config_file) (pos 0)
    ∷ popt_option "daemon" "" popt_arg_none (int_arg daemon_opt) (pos 0)
    ∷ popt_option "dparam" "M" popt_arg_string nil_arg (pos b'M')
    ∷ popt_option "ipv4" "4" popt_arg_val (int_arg default_af_hint) af_inet
    ∷ popt_option "ipv6" "6" popt_arg_val (int_arg default_af_hint) af_inet6
    ∷ popt_option "detach" "" popt_arg_val (int_arg no_detach) (pos 0)
    ∷ popt_option "no-detach" "" popt_arg_val (int_arg no_detach) (pos 1)
    ∷ popt_option "log-file" "" popt_arg_string (string_arg logfile_name) (pos 0)
    ∷ popt_option "log-file-format" "" popt_arg_string (string_arg logfile_format) (pos 0)
    ∷ popt_option "port" "" popt_arg_int (int_arg rsync_port) (pos 0)
    ∷ popt_option "sockopts" "" popt_arg_string (string_arg sockopts) (pos 0)
    ∷ popt_option "protocol" "" popt_arg_int (int_arg protocol_version) (pos 0)
    ∷ popt_option "server" "" popt_arg_none (int_arg am_server) (pos 0)
    ∷ popt_option "temp-dir" "T" popt_arg_string (string_arg tmpdir) (pos 0)
    ∷ popt_option "verbose" "v" popt_arg_none (number_arg (pos 0)) (pos b'v')
    ∷ popt_option "no-verbose" "" popt_arg_val (int_arg verbose) (pos 0)
    ∷ popt_option "no-v" "" popt_arg_val (int_arg verbose) (pos 0)
    ∷ popt_option "help" "h" popt_arg_none (number_arg (pos 0)) (pos b'h')
    ∷ []
