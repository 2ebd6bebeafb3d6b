-- ===== src/Options/Settle/Steps.antt =====
-- What each step of the last part of ParseArguments leaves alone.
use go_rsync_receiver.Prelude.{
  ℕ, ◌≡◌, refl, ap, ◌∙◌, Bool, true, false, List, ◌==◌, if◌then◌else◌, inl, inr, Bool-cases, Bytes,
}
use go_rsync_receiver.Prelude.Int.{ℤ, pos, ◌==ℤ◌}
use go_rsync_receiver.Options.Fields
use go_rsync_receiver.Options.Fields.{
  Options, IntField, StringField, set_int, set_string, int_index, string_index,
}
use go_rsync_receiver.Options.Rows.{other_field}
use go_rsync_receiver.Options.Settle.{
  settle_dirs, settle_relative, settle_implied, settle_missing, settle_suffix, settle_backups,
  settle_progress, settle_format, settle_rest,
}

-- A step that sets one field when a test holds, and the other fields.
if_int :
    (b : Bool) (f g : IntField) (v : ℤ) (o : Options)
    → (int_index f == int_index g) ≡ false
    → (if b then set_int f v o else o).ints g ≡ o.ints g
if_int true f g v o e = other_field f g v o e
if_int false f g v o e = refl

if_string :
    (b : Bool) (f : StringField) (v : Bytes) (o : Options)
    → (if b then set_string f v o else o).ints ≡ o.ints
unfolding set_string
if_string true f v o = refl
if_string false f v o = refl

if_int_strings :
    (b : Bool) (f : IntField) (v : ℤ) (o : Options)
    → (if b then set_int f v o else o).strings ≡ o.strings
unfolding set_int
if_int_strings true f v o = refl
if_int_strings false f v o = refl

if_info :
    (b : Bool) (levels : List ℕ) (o : Options) (g : IntField)
    → (if b then record o { info = levels } else o).ints g ≡ o.ints g
if_info true levels o g = refl
if_info false levels o g = refl

if_info_strings :
    (b : Bool) (levels : List ℕ) (o : Options) (g : StringField)
    → (if b then record o { info = levels } else o).strings g ≡ o.strings g
if_info_strings true levels o g = refl
if_info_strings false levels o g = refl

pub if_other_string :
    (b : Bool) (f g : StringField) (v : Bytes) (o : Options)
    → (string_index f == string_index g) ≡ false
    → (if b then set_string f v o else o).strings g ≡ o.strings g
unfolding set_string
if_other_string true f g v o e = rw e refl
if_other_string false f g v o e = refl

pub settle_format-ints : (o : Options) → (settle_format o).ints ≡ o.ints
unfolding settle_format
settle_format-ints o = if_string _ _ _ o

pub settle_progress-ints : (o : Options) (g : IntField) → (settle_progress o).ints g ≡ o.ints g
unfolding settle_progress
settle_progress-ints o g = if_info _ _ o g

pub settle_progress-strings :
    (o : Options) (g : StringField) → (settle_progress o).strings g ≡ o.strings g
unfolding settle_progress
settle_progress-strings o g = if_info_strings _ _ o g

pub settle_suffix-ints : (o : Options) → (settle_suffix o).ints ≡ o.ints
unfolding settle_suffix
settle_suffix-ints o = if_string _ _ _ o

pub settle_backups-ints :
    (o : Options) (g : IntField)
    → (int_index Fields.make_backups == int_index g) ≡ false
    → (settle_backups o).ints g ≡ o.ints g
unfolding settle_backups
settle_backups-ints o g e = if_int _ _ g _ o e

pub settle_backups-strings : (o : Options) → (settle_backups o).strings ≡ o.strings
unfolding settle_backups
settle_backups-strings o = if_int_strings _ _ _ o

pub settle_missing-ints :
    (o : Options) (g : IntField)
    → (int_index Fields.missing_args == int_index g) ≡ false
    → (settle_missing o).ints g ≡ o.ints g
unfolding settle_missing
settle_missing-ints o g e = if_int _ _ g _ o e

pub settle_implied-ints :
    (o : Options) (g : IntField)
    → (int_index Fields.implied_dirs == int_index g) ≡ false
    → (settle_implied o).ints g ≡ o.ints g
unfolding settle_implied
settle_implied-ints o g e = if_int _ _ g _ o e

pub settle_relative-ints :
    (o : Options) (g : IntField)
    → (int_index Fields.relative_paths == int_index g) ≡ false
    → (settle_relative o).ints g ≡ o.ints g
unfolding settle_relative
settle_relative-ints o g e = if_int _ _ g _ o e

-- The steps behind the directories and the paths set two ints.
pub settle_late : Options → Options
settle_late o = settle_backups (settle_suffix (settle_missing o))

pub settle_last-ints :
    (o : Options) (g : IntField) → (settle_format (settle_progress o)).ints g ≡ o.ints g
settle_last-ints o g =
    ap (λ ints. ints g) (settle_format-ints (settle_progress o)) ∙ settle_progress-ints o g

pub later_ints :
    (o : Options) (g : IntField)
    → (int_index Fields.missing_args == int_index g) ≡ false
    → (int_index Fields.make_backups == int_index g) ≡ false
    → (settle_format (settle_progress (settle_late o))).ints g ≡ o.ints g
unfolding settle_late
later_ints o g e f =
    settle_last-ints (settle_backups (settle_suffix (settle_missing o))) g
    ∙ settle_backups-ints (settle_suffix (settle_missing o)) g f
    ∙ ap (λ ints. ints g) (settle_suffix-ints (settle_missing o))
    ∙ settle_missing-ints o g e

pub settle_dirs-ints :
    (o : Options) (g : IntField)
    → (int_index Fields.xfer_dirs == int_index g) ≡ false
    → (settle_dirs o).ints g ≡ o.ints g
unfolding settle_dirs
settle_dirs-ints o g e = elim (Bool-cases (o.ints Fields.recurse ==ℤ pos 0)) [
  | inr miss ↦ rw miss (
      if_int _ _ g _ (set_int Fields.xfer_dirs (pos 1) o) e
      ∙ other_field Fields.xfer_dirs g (pos 1) o e)
  | inl hit ↦ rw hit (if_int _ _ g _ o e)
]

pub settle_rest-later :
    (o : Options) (g : IntField)
    → (int_index Fields.missing_args == int_index g) ≡ false
    → (int_index Fields.make_backups == int_index g) ≡ false
    → (settle_rest o).ints g ≡ (settle_implied (settle_relative (settle_dirs o))).ints g
unfolding settle_rest settle_late
settle_rest-later o g e f = later_ints (settle_implied (settle_relative (settle_dirs o))) g e f

pub settle_rest-dirs :
    (o : Options) (g : IntField)
    → (int_index Fields.missing_args == int_index g) ≡ false
    → (int_index Fields.make_backups == int_index g) ≡ false
    → (int_index Fields.implied_dirs == int_index g) ≡ false
    → (int_index Fields.relative_paths == int_index g) ≡ false
    → (settle_rest o).ints g ≡ (settle_dirs o).ints g
settle_rest-dirs o g d e f h =
    settle_rest-later o g d e
    ∙ settle_implied-ints (settle_relative (settle_dirs o)) g f
    ∙ settle_relative-ints (settle_dirs o) g h

pub settle_last-strings :
    (o : Options) (g : StringField)
    → (string_index Fields.stdout_format == string_index g) ≡ false
    → (settle_format (settle_progress o)).strings g ≡ o.strings g
unfolding settle_format
settle_last-strings o g e =
    if_other_string _ _ g _ (settle_progress o) e ∙ settle_progress-strings o g

pub settle_late-strings :
    (o : Options) (g : StringField)
    → (string_index Fields.stdout_format == string_index g) ≡ false
    → (settle_format (settle_progress (settle_backups (settle_suffix o)))).strings g
      ≡ (settle_suffix o).strings g
settle_late-strings o g e =
    settle_last-strings (settle_backups (settle_suffix o)) g e
    ∙ ap (λ strings. strings g) (settle_backups-strings (settle_suffix o))
