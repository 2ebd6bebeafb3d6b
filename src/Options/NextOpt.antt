-- ===== src/Options/NextOpt.antt =====
-- rsyncopts/popt.go: poptGetNextOpt, which takes arguments until an option has a special case.
pub mod Progress
pub mod Turns
pub mod Fuel
pub mod Spelling
use go_rsync_receiver.Prelude.{
  ℕ, zero, suc, ◌+◌, Bool, true, false, not, ◌&&◌, ◌||◌, Option, none, some, List, [], ◌∷◌, ◌++◌,
  Bytes, equal, length, ◌==◌, if◌then◌else◌, codes,
}
use go_rsync_receiver.Prelude.Int.{ℤ, pos, negsuc, ltb_ℤ, ◌==ℤ◌}
use go_rsync_receiver.Prelude.Words.{wrap_i32}
use go_rsync_receiver.Sender.Filters.{has_prefix, trim_prefix}
use go_rsync_receiver.Options.Fields.{
  IntField, StringField, Options, set_int, set_string, min_int32,
}
use Prim.Native.Nat.{bit_and}
use go_rsync_receiver.Options.Popt.{
  Arg, nil_arg, int_arg, string_arg, PoptOption, PoptError, Context, name, arg_type, find_option,
  int_or, popt_argflag_or, popt_arg_none, popt_arg_string, popt_arg_int, popt_arg_val,
  popt_error_badnumber, popt_error_overflow, popt_error_badoperation, empty_option, neither_found,
  save_int_failed, not_found, unwanted_arg, missing_arg, save_arg_failed,
}

-- What a call that stores a value gives: its result beside the options, or the panic of a failed type
-- assertion.
pub data Saved {ℓ} (A : Type ℓ) : Type ℓ where
  saved : A → Options → Saved A
  save_panic : Saved A

-- `opt.arg != nil`, and the type assertions `opt.arg.(*int)` and `opt.arg.(*string)`, none if they fail.
unfoldable pub is_nil : Arg → Bool
is_nil nil_arg = true
is_nil _ = false

unfoldable pub int_pointer : Arg → Option IntField
int_pointer (int_arg f) = some f
int_pointer _ = none

unfoldable pub string_pointer : Arg → Option StringField
string_pointer (string_arg f) = some f
string_pointer _ = none

unfoldable pub save_int_at : PoptOption → ℤ → Options → Option IntField → Saved Bool
save_int_at o value options none = save_panic
save_int_at o value options (some f) = saved true (
    if not (bit_and o.arg_info popt_argflag_or == 0)
    then set_int f (int_or (options.ints f) value) options
    else set_int f value options)

unfoldable pub save_int : PoptOption → ℤ → Options → Saved Bool
save_int o value options = save_int_at o value options (int_pointer o.arg)

-- The case POPT_ARG_INT, on what strconv.ParseInt gives.
unfoldable pub save_number : PoptOption → Option ℤ → Options → Saved ℤ
save_number o none options = saved popt_error_badnumber options
save_number o (some i) options =
    if ltb_ℤ i min_int32 || ltb_ℤ (pos 0x7FFFFFFF) i
    then saved popt_error_overflow options
    else elim (save_int o i options) [
      | saved _ after ↦ saved (pos 0) after
      | save_panic ↦ save_panic
    ]

unfoldable pub save_string_at : Bytes → Options → Option StringField → Saved ℤ
save_string_at text options none = save_panic
save_string_at text options (some f) = saved (pos 0) (set_string f text options)

unfoldable pub save_string : PoptOption → Bytes → Options → Saved ℤ
save_string o text options = save_string_at text options (string_pointer o.arg)

-- strings.Cut(s, "="): the part before the first `=`, and the part after it, empty if there is none.
unfoldable pub cut_before : Bytes → Bytes
cut_before [] = []
cut_before (b ∷ s) = if b == b'=' then [] else b ∷ cut_before s

unfoldable pub cut_after : Bytes → Bytes
cut_after [] = []
cut_after (b ∷ s) = if b == b'=' then s else cut_after s

-- The name that is looked up: one dash is removed, and a second one if there is one.
unfoldable pub long_name_of : Bytes → Bytes
long_name_of s = trim_prefix (trim_prefix (cut_before s) (codes "-")) (codes "-")

-- What one turn of the loop found, as `opt` and `longArg`, before it looks at the option's kind.
pub data Taken : Type 0 where
  positional : Context → Taken
  rejected : PoptError → Taken
  taken : Option PoptOption → Bytes → Context → Taken

pub data NextOpt : Type 0 where
  returned : ℤ → Context → NextOpt
  failed : PoptError → NextOpt
  panicked out_of_fuel : NextOpt

pub data Turn : Type 0 where
  go_on : Option PoptOption → Context → Turn
  stop : NextOpt → Turn

unfoldable pub take_long : Bytes → Context → Taken
take_long [] pc = rejected empty_option
take_long (b ∷ s) pc =
    if not (b == b'-') || equal s []
    then positional (record pc { remaining_args = pc.remaining_args ++ ((b ∷ s) ∷ []) })
    else elim (find_option pc.table (long_name_of (b ∷ s)) []) [
      | none ↦ taken none [] (record pc { next_char_arg = s })
      | some o ↦ taken (some o) (cut_after (b ∷ s)) pc
    ]

unfoldable pub take_short : Taken → Taken
take_short (positional pc) = positional pc
take_short (rejected e) = rejected e
take_short (taken opt long_arg pc) = elim pc.next_char_arg [
  | [] ↦ taken opt long_arg pc
  | c ∷ rest ↦ elim (find_option pc.table [] (c ∷ [])) [
    | none ↦ rejected (not_found (c ∷ []))
    | some o ↦ taken (some o) long_arg (record pc { next_char_arg = rest })
  ]
]

-- The end of a turn: an option with a special case is returned.
unfoldable pub special_or_go_on : PoptOption → Context → Turn
special_or_go_on o pc =
    if not (o.val ==ℤ pos 0) && not (arg_type o == popt_arg_val)
    then stop (returned (wrap_i32 o.val) pc)
    else go_on (some o) pc

-- The kinds without an argument, and the value that such an option stores.
unfoldable pub is_flag : PoptOption → Bool
is_flag o = arg_type o == popt_arg_none || arg_type o == popt_arg_val

unfoldable pub flag_value : PoptOption → ℤ
flag_value o = if arg_type o == popt_arg_val then o.val else pos 1

-- What becomes of the result of poptSaveInt.
unfoldable pub flag_saved : PoptOption → Context → Saved Bool → Turn
flag_saved o pc (saved true options) = special_or_go_on o (record pc { options = options })
flag_saved o pc (saved false options) = stop (failed save_int_failed)
flag_saved o pc save_panic = stop panicked

unfoldable pub use_flag : PoptOption → Bytes → Context → Turn
use_flag o long_arg pc =
    if not (equal long_arg []) || has_prefix pc.next_char_arg (codes "=")
    then stop (failed (unwanted_arg (name o)))
    else if is_nil o.arg
    then special_or_go_on o pc
    else flag_saved o pc (save_int o (flag_value o) pc.options)

-- What becomes of the result of poptSaveArg.
unfoldable pub value_saved : PoptOption → Context → Saved ℤ → Turn
value_saved o pc (saved code options) =
    if code ==ℤ pos 0
    then special_or_go_on o (record pc { options = options })
    else stop (failed (save_arg_failed code))
value_saved o pc save_panic = stop panicked

-- The number of bytes and of arguments that are left.
unfoldable pub size : List Bytes → ℕ
size [] = 0
size (s ∷ args) = suc (length s + size args)

unfoldable pub room : Context → ℕ
room pc = length pc.next_char_arg + size pc.args

-- `parse_int` stands for strconv.ParseInt(s, 0, 64).
module _ (parse_int : Bytes → Option ℤ) where
  unfoldable pub save_arg : PoptOption → Bytes → Options → Saved ℤ
  save_arg o next_arg options =
      if arg_type o == popt_arg_int
      then save_number o (parse_int next_arg) options
      else if arg_type o == popt_arg_string
      then save_string o next_arg options
      else saved popt_error_badoperation options

  -- The argument is found: it is kept for poptGetOptArg, and stored.
  unfoldable pub use_value : PoptOption → Bytes → Context → Turn
  use_value o text pc =
      let noted = record pc { next_arg = text } in
      if is_nil o.arg
      then special_or_go_on o noted
      else value_saved o noted (save_arg o text pc.options)

  -- The argument is the part behind `=`, the rest of the short options, or the next argument.
  unfoldable pub use_argument : PoptOption → Bytes → Context → Turn
  use_argument o (b ∷ long_arg) pc = use_value o (b ∷ long_arg) pc
  use_argument o [] pc = elim pc.next_char_arg [
    | c ∷ rest ↦ use_value o (trim_prefix (c ∷ rest) (codes "=")) (record pc { next_char_arg = [] })
    | [] ↦ elim pc.args [
      | [] ↦ stop (failed (missing_arg (name o)))
      | s ∷ args ↦ use_value o s (record pc { args = args })
    ]
  ]

  unfoldable pub use_option : Option PoptOption → Taken → Turn
  use_option opt (positional pc) = go_on opt pc
  use_option opt (rejected e) = stop (failed e)
  use_option opt (taken none long_arg pc) = stop (failed neither_found)
  use_option opt (taken (some o) long_arg pc) =
      if is_flag o then use_flag o long_arg pc else use_argument o long_arg pc

  -- One turn of the loop, with the `opt` of the turn before it, by the characters and the arguments
  -- that are left.
  unfoldable pub turn_at : Option PoptOption → Context → Bytes → List Bytes → Turn
  turn_at opt pc (c ∷ rest) args = use_option opt (take_short (taken opt [] pc))
  turn_at opt pc [] [] = stop (returned (negsuc 0) pc)
  turn_at opt pc [] (s ∷ args) =
      use_option opt (take_short (take_long s (record pc { args = args })))

  unfoldable pub next_opt_turn : Option PoptOption → Context → Turn
  next_opt_turn opt pc = turn_at opt pc pc.next_char_arg pc.args

  unfoldable pub next_opt_loop : ℕ → Option PoptOption → Context → NextOpt
  next_opt_loop zero opt pc = out_of_fuel
  next_opt_loop (suc fuel) opt pc = elim (next_opt_turn opt pc) [
    | go_on opt' pc' ↦ next_opt_loop fuel opt' pc'
    | stop result ↦ result
  ]

  -- poptGetNextOpt, with more turns than there are bytes and arguments.
  unfoldable pub next_opt : Context → NextOpt
  next_opt pc = next_opt_loop (suc (room pc)) none pc

-- poptGetOptArg clears the argument that it returns.
unfoldable pub get_opt_arg : Context → Bytes × Context
get_opt_arg pc = (pc.next_arg, record pc { next_arg = [] })
