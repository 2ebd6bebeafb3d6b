-- ===== src/Options/SpecialCases.antt =====
-- rsyncopts/rsyncopts.go: the special cases of ParseArguments.
use go_rsync_receiver.Prelude.{
  Bool, false, ◌||◌, Option, none, some, List, [], ◌∷◌, Bytes, if◌then◌else◌, codes,
}
use go_rsync_receiver.Prelude.Int.{ℤ, pos, ◌+ℤ◌, ◌==ℤ◌, ltb_ℤ}
use go_rsync_receiver.Options.Fields
use go_rsync_receiver.Options.Fields.{Options, IntField, set_int, set_string, new_options}
use go_rsync_receiver.Options.Codes
use go_rsync_receiver.Options.OutputWords.{Texts, info_words, parse_output_words}
use go_rsync_receiver.Options.Popt.{PoptError, Context}
use go_rsync_receiver.Options.NextOpt.{get_opt_arg}

pub data ParseError : Type 0 where
  popt_error : PoptError → ParseError
  sender_without_server not_yet_implemented acls_not_supported : ParseError
  unhandled : ℤ → ParseError

-- What one turn of the main loop gives: the loop goes on, ends, or meets an option of the daemon.
pub data MainTurn : Type 0 where
  main_on main_done main_daemon : Context → MainTurn
  main_failed : ParseError → MainTurn
  main_panicked main_out_of_fuel : MainTurn

-- `opts.f++`
unfoldable pub increment : IntField → Options → Options
increment f o = set_int f (o.ints f +ℤ pos 1) o

unfoldable pub set_archive : Options → Options
set_archive o =
    let recursive =
      if o.ints Fields.recurse ==ℤ pos 0 then set_int Fields.recurse (pos 1) o else o in
    set_int Fields.preserve_specials (pos 1) (
      set_int Fields.preserve_devices (pos 1) (
        set_int Fields.preserve_uid (pos 1) (
          set_int Fields.preserve_gid (pos 1) (
            set_int Fields.preserve_mtimes (pos 1) (
              set_int Fields.preserve_perms (pos 1)
                (set_int Fields.preserve_links (pos 1) recursive))))))

unfoldable pub set_devices : ℤ → Options → Options
set_devices v o = set_int Fields.preserve_specials v (set_int Fields.preserve_devices v o)

unfoldable pub set_atimes : Options → Options
set_atimes o =
    let more = increment Fields.preserve_atimes o in
    if ltb_ℤ (pos 1) (more.ints Fields.preserve_atimes)
    then set_int Fields.open_noatime (pos 1) more
    else more

unfoldable pub is_one_of : ℤ → List ℤ → Bool
is_one_of opt [] = false
is_one_of opt (c ∷ cs) = opt ==ℤ c || is_one_of opt cs

-- The special cases that return errNotYetImplemented.
abbrev pub not_implemented : List ℤ
not_implemented =
    Codes.opt_filter
    ∷ Codes.opt_exclude
    ∷ Codes.opt_include
    ∷ Codes.opt_include_from
    ∷ Codes.opt_exclude_from
    ∷ pos b'y'
    ∷ pos b'F'
    ∷ Codes.opt_old_args
    ∷ pos b'M'
    ∷ Codes.opt_write_batch
    ∷ Codes.opt_only_write_batch
    ∷ Codes.opt_read_batch
    ∷ Codes.opt_block_size
    ∷ Codes.opt_max_size
    ∷ Codes.opt_min_size
    ∷ Codes.opt_bwlimit
    ∷ Codes.opt_append
    ∷ Codes.opt_link_dest
    ∷ Codes.opt_copy_dest
    ∷ Codes.opt_compare_dest
    ∷ Codes.opt_chmod
    ∷ Codes.opt_usermap
    ∷ Codes.opt_groupmap
    ∷ Codes.opt_chown
    ∷ Codes.opt_stop_after
    ∷ Codes.opt_stop_at
    ∷ Codes.opt_stderr
    ∷ []

-- The special cases that set fields, and nothing else.
abbrev pub field_cases : List (ℤ × (Options → Options))
field_cases =
    (pos b'V', λ o. o)
    ∷ (Codes.opt_server, λ o. set_int Fields.am_server (pos 1) o)
    ∷ (pos b'a', set_archive)
    ∷ (pos b'D', set_devices (pos 1))
    ∷ (Codes.opt_no_d, set_devices (pos 0))
    ∷ (pos b'h', increment Fields.human_readable)
    ∷ (pos b'H', λ o. set_int Fields.preserve_hard_links (pos 1) o)
    ∷ (pos b'i', increment Fields.itemize_changes)
    ∷ (pos b'U', set_atimes)
    ∷ (pos b'v', increment Fields.verbose)
    ∷ (pos b'q', increment Fields.quiet)
    ∷ (pos b'x', increment Fields.one_file_system)
    ∷ (pos b'P', λ o. set_int Fields.keep_partial (pos 1) (set_int Fields.do_progress (pos 1) o))
    ∷ (pos b'z', increment Fields.do_compression)
    ∷ (Codes.opt_old_compress, λ o. set_string Fields.compress_choice (codes "zlib") o)
    ∷ (Codes.opt_new_compress, λ o. set_string Fields.compress_choice (codes "zlibx") o)
    ∷ (
      Codes.opt_no_compress,
      λ o. set_string Fields.compress_choice [] (set_int Fields.do_compression (pos 0) o),
    )
    ∷ (pos b'X', increment Fields.preserve_xattrs)
    ∷ []

unfoldable pub set_special : ℤ → List (ℤ × (Options → Options)) → Options → Option Options
set_special opt [] o = none
set_special opt ((code, step) ∷ cases) o =
    if opt ==ℤ code then some (step o) else set_special opt cases o

-- The case that has set its fields, or the default.
unfoldable pub special_set : ℤ → Context → Option Options → MainTurn
special_set opt pc none = main_failed (unhandled opt)
special_set opt pc (some o) = main_on (record pc { options = o })

-- The case OPT_SENDER
unfoldable pub case_sender : Context → MainTurn
case_sender pc =
    if pc.options.ints Fields.am_server ==ℤ pos 0
    then main_failed sender_without_server
    else main_on (record pc { options = set_int Fields.am_sender (pos 1) pc.options })

module _ (texts : Texts) where
  unfoldable pub set_info : Bytes × Context → Context
  set_info (text, pc) = record pc {
    options = record pc.options { info = parse_output_words texts info_words pc.options.info text };
  }

  -- The switch on what poptGetNextOpt returned.
  unfoldable pub special_case : ℤ → Context → MainTurn
  special_case opt pc =
      if opt ==ℤ Codes.opt_sender
      then case_sender pc
      else if opt ==ℤ Codes.opt_daemon
      then main_daemon pc
      else if is_one_of opt not_implemented
      then main_failed not_yet_implemented
      else if opt ==ℤ Codes.opt_info
      then main_on (set_info (get_opt_arg pc))
      else if opt ==ℤ Codes.opt_debug
      then main_on ((get_opt_arg pc).1)
      else if opt ==ℤ pos b'A'
      then main_failed acls_not_supported
      else special_set opt pc (set_special opt field_cases pc.options)
