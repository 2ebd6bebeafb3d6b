-- ===== src/Options/Settle.antt =====
-- rsyncopts/rsyncopts.go: the options that ParseArguments sets at the end by the others.
pub mod Steps
use go_rsync_receiver.Prelude.{
  ℕ, zero, suc, not, ◌&&◌, none, some, List, [], ◌∷◌, equal, leb, ◌==◌, if◌then◌else◌, get_elem?,
  codes,
}
use go_rsync_receiver.Prelude.Int.{pos, ◌==ℤ◌, ltb_ℤ}
use go_rsync_receiver.Options.Fields
use go_rsync_receiver.Options.Fields.{Options, IntField, set_int, set_string, new_options}

-- What follows the main loop, one step for each `if`.
unfoldable pub settle_dirs : Options → Options
settle_dirs o =
    let recursive =
      if not (o.ints Fields.recurse ==ℤ pos 0) then set_int Fields.xfer_dirs (pos 1) o else o in
    if ltb_ℤ (recursive.ints Fields.xfer_dirs) (pos 0)
    then set_int Fields.xfer_dirs
        (if not (recursive.ints Fields.list_only ==ℤ pos 0) then pos 1 else pos 0) recursive
    else recursive

unfoldable pub settle_relative : Options → Options
settle_relative o =
    if ltb_ℤ (o.ints Fields.relative_paths) (pos 0)
    then set_int Fields.relative_paths
        (if not (equal (o.strings Fields.files_from) []) then pos 1 else pos 0) o
    else o

unfoldable pub settle_implied : Options → Options
settle_implied o =
    if o.ints Fields.relative_paths ==ℤ pos 0 then set_int Fields.implied_dirs (pos 0) o else o

unfoldable pub settle_missing : Options → Options
settle_missing o =
    if o.ints Fields.missing_args ==ℤ pos 3 then set_int Fields.missing_args (pos 2) o else o

unfoldable pub settle_suffix : Options → Options
settle_suffix o =
    if equal (o.strings Fields.backup_suffix) [] && equal (o.strings Fields.backup_dir) []
    then set_string Fields.backup_suffix (codes "~") o
    else o

unfoldable pub settle_backups : Options → Options
settle_backups o =
    if not (equal (o.strings Fields.backup_dir) [])
    then set_int Fields.make_backups (pos 1) o
    else o

-- INFO_NAME
abbrev pub info_name : ℕ
info_name = 6

-- A level of the array, and the array with a level changed.
unfoldable pub level_at : ℕ → List ℕ → ℕ
level_at i levels = elim (get_elem? levels i) [ none ↦ 0 | some level ↦ level ]

unfoldable pub set_level : ℕ → ℕ → List ℕ → List ℕ
set_level i lev [] = []
set_level zero lev (level ∷ levels) = lev ∷ levels
set_level (suc i) lev (level ∷ levels) = level ∷ set_level i lev levels

unfoldable pub settle_progress : Options → Options
settle_progress o =
    if not (o.ints Fields.do_progress ==ℤ pos 0) && level_at info_name o.info == 0
    then record o { info = set_level info_name 1 o.info }
    else o

unfoldable pub settle_format : Options → Options
settle_format o =
    if leb 1 (level_at info_name o.info) && equal (o.strings Fields.stdout_format) []
    then set_string Fields.stdout_format (codes "%n%L") o
    else o

unfoldable pub settle_rest : Options → Options
settle_rest o = settle_format (
    settle_progress (
      settle_backups
        (settle_suffix (settle_missing (settle_implied (settle_relative (settle_dirs o)))))))
