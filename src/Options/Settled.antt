-- ===== src/Options/Settled.antt =====
-- What the last part of ParseArguments brings about.
use go_rsync_receiver.Prelude.{
  ◌≡◌, refl, ap, ◌∙◌, true, false, ◌&&◌, [], equal, leb, arith, inl, inr, Bool-cases,
}
use go_rsync_receiver.Prelude.Int.{pos, ◌==ℤ◌, ltb_ℤ}
use go_rsync_receiver.Options.Fields
use go_rsync_receiver.Options.Fields.{
  Options, IntField, StringField, set_int, set_string, int_index, string_index,
}
use go_rsync_receiver.Options.Rows.{IsSided}
use go_rsync_receiver.Options.Access.{sender, server}
use go_rsync_receiver.Options.Settle.{
  settle_dirs, settle_relative, settle_implied, settle_missing, settle_suffix, settle_backups,
  settle_format, settle_rest, level_at, info_name,
}
use go_rsync_receiver.Options.Settle.Steps.{
  settle_suffix-ints, settle_backups-ints, settle_implied-ints, settle_last-ints, settle_dirs-ints,
  settle_rest-later, settle_rest-dirs, settle_last-strings, settle_late-strings,
}

-- The options that depend on each other, as the transfer reads them.
pub record IsSettled (o : Options) : Type 0 where
  pub sided : IsSided o
  pub dirs : ltb_ℤ (o.ints Fields.xfer_dirs) (pos 0) ≡ false
  pub recursive : (o.ints Fields.recurse ==ℤ pos 0) ≡ false → o.ints Fields.xfer_dirs ≡ pos 1
  pub relative : ltb_ℤ (o.ints Fields.relative_paths) (pos 0) ≡ false
  pub implied : o.ints Fields.relative_paths ≡ pos 0 → o.ints Fields.implied_dirs ≡ pos 0
  pub missing : (o.ints Fields.missing_args ==ℤ pos 3) ≡ false
  pub suffix :
      (equal (o.strings Fields.backup_suffix) [] && equal (o.strings Fields.backup_dir) []) ≡ false
  pub backups : equal (o.strings Fields.backup_dir) [] ≡ false → o.ints Fields.make_backups ≡ pos 1
  pub format :
      leb 1 (level_at info_name o.info) ≡ true → equal (o.strings Fields.stdout_format) [] ≡ false

-- Each step brings about what it is there for.
settle_dirs_lem :
    (o : Options)
    → (ltb_ℤ ((settle_dirs o).ints Fields.xfer_dirs) (pos 0) ≡ false)
      × (((settle_dirs o).ints Fields.recurse ==ℤ pos 0) ≡ false
          → (settle_dirs o).ints Fields.xfer_dirs ≡ pos 1)
unfolding settle_dirs set_int int_index
settle_dirs_lem o = elim (Bool-cases (o.ints Fields.recurse ==ℤ pos 0)) [
  | inr miss ↦ rw miss (refl, λ _. refl)
  | inl hit ↦ rw hit (elim (Bool-cases (ltb_ℤ (o.ints Fields.xfer_dirs) (pos 0))) [
    | inr kept ↦ rw kept (kept, λ e. ground (arith, e, hit))
    | inl low ↦ rw low (elim (Bool-cases (o.ints Fields.list_only ==ℤ pos 0)) [
      | inl list ↦ rw list (refl, λ e. ground (arith, e, hit))
      | inr list ↦ rw list (refl, λ e. refl)
    ])
  ])
]

settle_relative_lem :
    (o : Options) → ltb_ℤ ((settle_relative o).ints Fields.relative_paths) (pos 0) ≡ false
unfolding settle_relative set_int int_index
settle_relative_lem o = elim (Bool-cases (ltb_ℤ (o.ints Fields.relative_paths) (pos 0))) [
  | inr kept ↦ rw kept kept
  | inl low ↦ rw low (elim (Bool-cases (equal (o.strings Fields.files_from) [])) [
    | inl empty ↦ rw empty refl
    | inr from ↦ rw from refl
  ])
]

settle_implied_lem :
    (o : Options)
    → (settle_implied o).ints Fields.relative_paths ≡ pos 0
    → (settle_implied o).ints Fields.implied_dirs ≡ pos 0
unfolding settle_implied set_int int_index
settle_implied_lem o = elim (Bool-cases (o.ints Fields.relative_paths ==ℤ pos 0)) [
  | inl none ↦ rw none (λ _. refl)
  | inr some ↦ rw some (λ e. ground (arith, e, some))
]

settle_missing_lem : (o : Options) → ((settle_missing o).ints Fields.missing_args ==ℤ pos 3) ≡ false
unfolding settle_missing set_int int_index
settle_missing_lem o = elim (Bool-cases (o.ints Fields.missing_args ==ℤ pos 3)) [
  | inl both ↦ rw both refl
  | inr other ↦ rw other other
]

settle_suffix_lem :
    (o : Options)
    → (equal ((settle_suffix o).strings Fields.backup_suffix) []
        && equal ((settle_suffix o).strings Fields.backup_dir) [])
      ≡ false
unfolding settle_suffix set_string string_index equal
settle_suffix_lem o =
    elim (Bool-cases
      (equal (o.strings Fields.backup_suffix) [] && equal (o.strings Fields.backup_dir) [])) [
        | inl empty ↦ rw empty refl
        | inr other ↦ rw other other
      ]

settle_backups_lem :
    (o : Options)
    → equal ((settle_backups o).strings Fields.backup_dir) [] ≡ false
    → (settle_backups o).ints Fields.make_backups ≡ pos 1
unfolding settle_backups set_int int_index
settle_backups_lem o = elim (Bool-cases (equal (o.strings Fields.backup_dir) [])) [
  | inl empty ↦ rw empty (λ e. ground (arith, e, empty))
  | inr dir ↦ rw dir (λ _. refl)
]

settle_format_lem :
    (o : Options)
    → leb 1 (level_at info_name (settle_format o).info) ≡ true
    → equal ((settle_format o).strings Fields.stdout_format) [] ≡ false
unfolding settle_format set_string string_index equal
settle_format_lem o =
    elim (Bool-cases
      (leb 1 (level_at info_name o.info) && equal (o.strings Fields.stdout_format) [])) [
        | inl empty ↦ rw empty (λ _. refl)
        | inr other ↦ rw other (λ e. ground (arith, e, other))
      ]

settle_rest-IsSided : (o : Options) → IsSided o → IsSided (settle_rest o)
unfolding sender server int_index
settle_rest-IsSided o h =
    let sending : (settle_rest o).ints Fields.am_sender ≡ o.ints Fields.am_sender =
      settle_rest-dirs o Fields.am_sender refl refl refl refl
      ∙ settle_dirs-ints o Fields.am_sender refl in
    let serving : (settle_rest o).ints Fields.am_server ≡ o.ints Fields.am_server =
      settle_rest-dirs o Fields.am_server refl refl refl refl
      ∙ settle_dirs-ints o Fields.am_server refl in
    rw (sending, serving) h

settle_rest-dirs_lem :
    (o : Options)
    → (ltb_ℤ ((settle_rest o).ints Fields.xfer_dirs) (pos 0) ≡ false)
      × (((settle_rest o).ints Fields.recurse ==ℤ pos 0) ≡ false
          → (settle_rest o).ints Fields.xfer_dirs ≡ pos 1)
unfolding int_index
settle_rest-dirs_lem o =
    let dirs = settle_rest-dirs o Fields.xfer_dirs refl refl refl refl in
    let recursive = settle_rest-dirs o Fields.recurse refl refl refl refl in
    rw (dirs, recursive) (settle_dirs_lem o)

settle_rest-relative_lem :
    (o : Options) → ltb_ℤ ((settle_rest o).ints Fields.relative_paths) (pos 0) ≡ false
unfolding int_index
settle_rest-relative_lem o =
    let relative : (settle_rest o).ints Fields.relative_paths
        ≡ (settle_relative (settle_dirs o)).ints Fields.relative_paths =
      settle_rest-later o Fields.relative_paths refl refl
      ∙ settle_implied-ints (settle_relative (settle_dirs o)) Fields.relative_paths refl in
    rw relative (settle_relative_lem (settle_dirs o))

settle_rest-implied_lem :
    (o : Options)
    → (settle_rest o).ints Fields.relative_paths ≡ pos 0
    → (settle_rest o).ints Fields.implied_dirs ≡ pos 0
unfolding int_index
settle_rest-implied_lem o =
    let relative = settle_rest-later o Fields.relative_paths refl refl in
    let implied = settle_rest-later o Fields.implied_dirs refl refl in
    rw (relative, implied) (settle_implied_lem (settle_relative (settle_dirs o)))

settle_rest-missing_lem :
    (o : Options) → ((settle_rest o).ints Fields.missing_args ==ℤ pos 3) ≡ false
unfolding settle_rest int_index
settle_rest-missing_lem o =
    let o4 = settle_missing (settle_implied (settle_relative (settle_dirs o))) in
    let missing : (settle_rest o).ints Fields.missing_args ≡ o4.ints Fields.missing_args =
      settle_last-ints (settle_backups (settle_suffix o4)) Fields.missing_args
      ∙ settle_backups-ints (settle_suffix o4) Fields.missing_args refl
      ∙ ap (λ ints. ints Fields.missing_args) (settle_suffix-ints o4) in
    rw missing (settle_missing_lem _)

settle_rest-suffix_lem :
    (o : Options)
    → (equal ((settle_rest o).strings Fields.backup_suffix) []
        && equal ((settle_rest o).strings Fields.backup_dir) [])
      ≡ false
unfolding settle_rest string_index
settle_rest-suffix_lem o =
    let o4 = settle_missing (settle_implied (settle_relative (settle_dirs o))) in
    let suffix = settle_late-strings o4 Fields.backup_suffix refl in
    let dir = settle_late-strings o4 Fields.backup_dir refl in
    rw (suffix, dir) (settle_suffix_lem o4)

settle_rest-backups_lem :
    (o : Options)
    → equal ((settle_rest o).strings Fields.backup_dir) [] ≡ false
    → (settle_rest o).ints Fields.make_backups ≡ pos 1
unfolding settle_rest string_index
settle_rest-backups_lem o =
    let o6 =
      settle_backups
        (settle_suffix (settle_missing (settle_implied (settle_relative (settle_dirs o))))) in
    let dir = settle_last-strings o6 Fields.backup_dir refl in
    let backups = settle_last-ints o6 Fields.make_backups in
    rw (dir, backups) (settle_backups_lem _)

settle_rest-format_lem :
    (o : Options)
    → leb 1 (level_at info_name (settle_rest o).info) ≡ true
    → equal ((settle_rest o).strings Fields.stdout_format) [] ≡ false
unfolding settle_rest
settle_rest-format_lem o = settle_format_lem _

pub settle_rest-IsSettled : (o : Options) → IsSided o → IsSettled (settle_rest o)
settle_rest-IsSettled o h = record {
  sided = settle_rest-IsSided o h;
  dirs = (settle_rest-dirs_lem o).0;
  recursive = (settle_rest-dirs_lem o).1;
  relative = settle_rest-relative_lem o;
  implied = settle_rest-implied_lem o;
  missing = settle_rest-missing_lem o;
  suffix = settle_rest-suffix_lem o;
  backups = settle_rest-backups_lem o;
  format = settle_rest-format_lem o;
}
