-- ===== src/Options/Popt.antt =====
-- rsyncopts/popt.go: the options of a table, the errors, and the context of the walk.
use go_rsync_receiver.Prelude.{
  ℕ, ◌-◌, Bool, not, ◌&&◌, ◌||◌, Option, none, some, List, [], ◌∷◌, ◌++◌, Bytes, equal,
  if◌then◌else◌, codes,
}
use go_rsync_receiver.Prelude.Int.{ℤ, pos, negsuc}
use go_rsync_receiver.Options.Fields.{IntField, StringField, Options}
use Prim.Native.Nat.{bit_and, bit_or}
use Prim.Native.String.{String}

-- What `arg` of a row holds: nil, a pointer to a field, or a number in place of one. No row holds a
-- nil pointer of a type, for which poptSaveInt and poptSaveArg have a test.
pub data Arg : Type 0 where
  nil_arg : Arg
  int_arg : IntField → Arg
  string_arg : StringField → Arg
  number_arg : ℤ → Arg

pub record PoptOption : Type 0 where
  pub long_name : Bytes
  pub short_name : Bytes
  pub arg_info : ℕ
  pub arg : Arg
  pub val : ℤ

-- A row of a table, as it is written.
abbrev pub popt_option : String → String → ℕ → Arg → ℤ → PoptOption
popt_option long short kind a v = record {
  long_name = codes long;
  short_name = codes short;
  arg_info = kind;
  arg = a;
  val = v;
}

unfoldable pub name : PoptOption → Bytes
name o = if equal o.long_name [] then codes "-" ++ o.short_name else codes "--" ++ o.long_name

abbrev pub popt_arg_none : ℕ
popt_arg_none = 0

abbrev pub popt_arg_string : ℕ
popt_arg_string = 1

abbrev pub popt_arg_int : ℕ
popt_arg_int = 2

abbrev pub popt_arg_val : ℕ
popt_arg_val = 7

abbrev popt_arg_mask : ℕ
popt_arg_mask = 0xFF

abbrev pub popt_argflag_or : ℕ
popt_argflag_or = 0x08000000

abbrev pub popt_bit_set : ℕ
popt_bit_set = bit_or popt_arg_val popt_argflag_or

abbrev pub popt_error_noarg : ℤ
popt_error_noarg = negsuc 9

abbrev pub popt_error_badopt : ℤ
popt_error_badopt = negsuc 10

abbrev pub popt_error_unwantedarg : ℤ
popt_error_unwantedarg = negsuc 11

abbrev pub popt_error_badnumber : ℤ
popt_error_badnumber = negsuc 16

abbrev pub popt_error_overflow : ℤ
popt_error_overflow = negsuc 17

abbrev pub popt_error_badoperation : ℤ
popt_error_badoperation = negsuc 18

-- The errors of poptGetNextOpt, by their texts, and the number that each holds.
pub data PoptError : Type 0 where
  empty_option neither_found save_int_failed : PoptError
  not_found unwanted_arg missing_arg : Bytes → PoptError
  save_arg_failed : ℤ → PoptError

unfoldable pub errno : PoptError → ℤ
errno empty_option = popt_error_badopt
errno neither_found = popt_error_badopt
errno save_int_failed = popt_error_badoperation
errno (not_found option) = popt_error_badopt
errno (unwanted_arg option) = popt_error_unwantedarg
errno (missing_arg option) = popt_error_noarg
errno (save_arg_failed code) = code

pub record Context : Type 0 where
  pub table : List PoptOption
  pub args : List Bytes
  pub next_char_arg : Bytes
  pub next_arg : Bytes
  pub options : Options
  pub remaining_args : List Bytes

unfoldable pub is_option : Bytes → Bytes → PoptOption → Bool
is_option long short o =
    (not (equal long []) && equal o.long_name long)
    || (not (equal short []) && equal o.short_name short)

unfoldable pub find_option : List PoptOption → Bytes → Bytes → Option PoptOption
find_option [] long short = none
find_option (o ∷ table) long short =
    if is_option long short o then some o else find_option table long short

-- `a | b` of two ints
unfoldable pub int_or : ℤ → ℤ → ℤ
int_or (pos a) (pos b) = pos (bit_or a b)
int_or (pos a) (negsuc b) = negsuc (b - bit_and a b)
int_or (negsuc a) (pos b) = negsuc (a - bit_and a b)
int_or (negsuc a) (negsuc b) = negsuc (bit_and a b)

unfoldable pub arg_type : PoptOption → ℕ
arg_type o = bit_and o.arg_info popt_arg_mask
