-- ===== src/Options/Fields.antt =====
-- rsyncopts/rsyncopts.go: the fields of Options and of its GokrazyOptions, and the values they start
-- with. A field is named so that a row of an option table can refer to it, as `&o.verbose` does; an
-- index tells the fields of a kind apart.
use go_rsync_receiver.Prelude.{ℕ, ◌-◌, ◌^◌, List, [], Bytes, ◌==◌, if◌then◌else◌, replicate, codes}
use go_rsync_receiver.Prelude.Int.{ℤ, pos, negsuc}

-- The fields of Options that are ints
pub data IntField : Type 0 where
  do_compression local_server verbose msgs2stderr quiet output_motd do_stats human_readable dry_run
        recurse allow_inc_recurse xfer_dirs preserve_perms preserve_executability preserve_acls
        preserve_xattrs preserve_mtimes preserve_atimes open_noatime preserve_crtimes omit_dir_times
        omit_link_times modify_window am_root preserve_uid preserve_gid preserve_devices
        copy_devices write_devices preserve_specials preserve_links copy_links copy_unsafe_links
        safe_symlinks munge_symlinks copy_dirlinks keep_dirlinks preserve_hard_links relative_paths
        implied_dirs ignore_times size_only one_file_system update_only ignore_non_existing
        ignore_existing sparse_files preallocate_files inplace append_mode delete_during delete_mode
        delete_before delete_after delete_excluded missing_args remove_source_files force_delete
        ignore_errors max_delete cvs_exclude whole_file always_checksum fuzzy_basis
        do_compression_level do_progress keep_partial delay_updates prune_empty_dirs itemize_changes
        bwlimit make_backups list_only eol_nulls old_style_args protect_args trust_sender
        numeric_ids io_timeout connect_timeout do_fsync default_af_hint allow_8bit_chars
        mkpath_dest_arg use_qsort rsync_port blocking_io protocol_version checksum_seed am_server
        am_sender am_daemon daemon_bwlimit daemon_opt no_detach :
      IntField

-- The fields of Options and of GokrazyOptions that are strings
pub data StringField : Type 0 where
  gokrazy_config gokrazy_listen gokrazy_monitoring_listen gokrazy_anonssh_listen gokrazy_module_map
        max_size_arg min_size_arg max_alloc_arg checksum_choice compress_choice skip_compress
        partial_dir logfile_name logfile_format stdout_format bwlimit_arg backup_dir backup_suffix
        batch_name files_from shell_cmd rsync_path tmpdir iconv_opt copy_as bind_address sockopts
        password_file early_input_file outbuf_mode config_file :
      StringField

unfoldable pub int_index : IntField → ℕ
int_index do_compression = 0
int_index local_server = 1
int_index verbose = 2
int_index msgs2stderr = 3
int_index quiet = 4
int_index output_motd = 5
int_index do_stats = 6
int_index human_readable = 7
int_index dry_run = 8
int_index recurse = 9
int_index allow_inc_recurse = 10
int_index xfer_dirs = 11
int_index preserve_perms = 12
int_index preserve_executability = 13
int_index preserve_acls = 14
int_index preserve_xattrs = 15
int_index preserve_mtimes = 16
int_index preserve_atimes = 17
int_index open_noatime = 18
int_index preserve_crtimes = 19
int_index omit_dir_times = 20
int_index omit_link_times = 21
int_index modify_window = 22
int_index am_root = 23
int_index preserve_uid = 24
int_index preserve_gid = 25
int_index preserve_devices = 26
int_index copy_devices = 27
int_index write_devices = 28
int_index preserve_specials = 29
int_index preserve_links = 30
int_index copy_links = 31
int_index copy_unsafe_links = 32
int_index safe_symlinks = 33
int_index munge_symlinks = 34
int_index copy_dirlinks = 35
int_index keep_dirlinks = 36
int_index preserve_hard_links = 37
int_index relative_paths = 38
int_index implied_dirs = 39
int_index ignore_times = 40
int_index size_only = 41
int_index one_file_system = 42
int_index update_only = 43
int_index ignore_non_existing = 44
int_index ignore_existing = 45
int_index sparse_files = 46
int_index preallocate_files = 47
int_index inplace = 48
int_index append_mode = 49
int_index delete_during = 50
int_index delete_mode = 51
int_index delete_before = 52
int_index delete_after = 53
int_index delete_excluded = 54
int_index missing_args = 55
int_index remove_source_files = 56
int_index force_delete = 57
int_index ignore_errors = 58
int_index max_delete = 59
int_index cvs_exclude = 60
int_index whole_file = 61
int_index always_checksum = 62
int_index fuzzy_basis = 63
int_index do_compression_level = 64
int_index do_progress = 65
int_index keep_partial = 66
int_index delay_updates = 67
int_index prune_empty_dirs = 68
int_index itemize_changes = 69
int_index bwlimit = 70
int_index make_backups = 71
int_index list_only = 72
int_index eol_nulls = 73
int_index old_style_args = 74
int_index protect_args = 75
int_index trust_sender = 76
int_index numeric_ids = 77
int_index io_timeout = 78
int_index connect_timeout = 79
int_index do_fsync = 80
int_index default_af_hint = 81
int_index allow_8bit_chars = 82
int_index mkpath_dest_arg = 83
int_index use_qsort = 84
int_index rsync_port = 85
int_index blocking_io = 86
int_index protocol_version = 87
int_index checksum_seed = 88
int_index am_server = 89
int_index am_sender = 90
int_index am_daemon = 91
int_index daemon_bwlimit = 92
int_index daemon_opt = 93
int_index no_detach = 94

unfoldable pub string_index : StringField → ℕ
string_index gokrazy_config = 0
string_index gokrazy_listen = 1
string_index gokrazy_monitoring_listen = 2
string_index gokrazy_anonssh_listen = 3
string_index gokrazy_module_map = 4
string_index max_size_arg = 5
string_index min_size_arg = 6
string_index max_alloc_arg = 7
string_index checksum_choice = 8
string_index compress_choice = 9
string_index skip_compress = 10
string_index partial_dir = 11
string_index logfile_name = 12
string_index logfile_format = 13
string_index stdout_format = 14
string_index bwlimit_arg = 15
string_index backup_dir = 16
string_index backup_suffix = 17
string_index batch_name = 18
string_index files_from = 19
string_index shell_cmd = 20
string_index rsync_path = 21
string_index tmpdir = 22
string_index iconv_opt = 23
string_index copy_as = 24
string_index bind_address = 25
string_index sockopts = 26
string_index password_file = 27
string_index early_input_file = 28
string_index outbuf_mode = 29
string_index config_file = 30

pub record Options : Type 0 where
  pub ints : IntField → ℤ
  pub strings : StringField → Bytes
  pub info : List ℕ

-- `o.f = v`, for a field of either kind
unfoldable pub set_int : IntField → ℤ → Options → Options
set_int f v o = record o { ints = λ g. if int_index f == int_index g then v else o.ints g }

unfoldable pub set_string : StringField → Bytes → Options → Options
set_string f v o = record o {
  strings = λ g. if string_index f == string_index g then v else o.strings g;
}

-- `math.MinInt32`
abbrev pub min_int32 : ℤ
min_int32 = negsuc (2 ^ 31 - 1)

-- `syscall.AF_INET` and `syscall.AF_INET6`, on Linux
abbrev pub af_inet : ℤ
af_inet = pos 2

abbrev pub af_inet6 : ℤ
af_inet6 = pos 10

abbrev pub count_info : ℕ
count_info = 13

unfoldable pub default_int : IntField → ℤ
default_int msgs2stderr = pos 2
default_int output_motd = pos 1
default_int human_readable = pos 1
default_int allow_inc_recurse = pos 1
default_int xfer_dirs = negsuc 0
default_int relative_paths = negsuc 0
default_int implied_dirs = pos 1
default_int max_delete = min_int32
default_int whole_file = negsuc 0
default_int do_compression_level = min_int32
default_int default_af_hint = af_inet6
default_int blocking_io = negsuc 0
default_int protocol_version = pos 27
default_int _ = pos 0

unfoldable pub default_string : StringField → Bytes
default_string rsync_path = codes "rsync"
default_string _ = []

unfoldable pub new_options : Options
new_options = record { ints = default_int; strings = default_string; info = replicate count_info 0 }
