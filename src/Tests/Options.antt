-- ===== src/Tests/Options.antt =====
-- Runs of the command line.
use go_rsync_receiver.Prelude.{
  ℕ, ◌+◌, ◌-◌, ◌*◌, true, false, ◌&&◌, ◌≡◌, ◌≢◌, ◌↔◌, ◌⊎◌, refl, Option, none, some, List, [], ◌∷◌,
  Bytes, leb, if◌then◌else◌, codes, equal,
}
use go_rsync_receiver.Prelude.Int.{ℤ, pos}
use go_rsync_receiver.Options.Fields
use go_rsync_receiver.Options.Fields.{Options, new_options}
use go_rsync_receiver.Options.Access.{daemon}
use go_rsync_receiver.Options.OutputWords.{Texts}
use go_rsync_receiver.Options.Popt.{
  Context, PoptOption, popt_option, popt_arg_int, int_arg, find_option, is_option, arg_type,
}
use go_rsync_receiver.Options.NextOpt.{
  is_flag, next_opt, is_nil, int_pointer, string_pointer, save_int_at, save_int, save_number,
  save_string_at, save_string, cut_before, cut_after, long_name_of, take_long, take_short,
  special_or_go_on, flag_value, flag_saved, use_flag, value_saved, size, room, save_arg, use_value,
  use_argument, use_option, turn_at, next_opt_turn, next_opt_loop,
}
use go_rsync_receiver.Options.NextOpt.Spelling.{before, next_opt_spelling}
use go_rsync_receiver.Options.LongOptions.{table}
use go_rsync_receiver.Options.Start.{start, with_gokrazy}
use go_rsync_receiver.Options.SpecialCases.{
  main_daemon, special_case, special_set, set_special, is_one_of,
}
use go_rsync_receiver.Options.Settled.{IsSettled}
use go_rsync_receiver.Options.Parse.{
  Parsed, parsed, parse_panicked, parse_out_of_fuel, parse_daemon, parse_arguments, main_parsed,
  main_loop, main_turn, main_result, daemon_result, daemon_turn, daemon_loop, daemon_parsed,
}
use go_rsync_receiver.Options.Parse.Result.{
  main_end, parse_arguments-Ends, parse_arguments_panics, parse_arguments-IsSettled,
}

-- Decimal numbers and ASCII letters, in place of the library functions
abbrev digits_from : ℕ → Bytes → Option ℤ
digits_from n [] = some (pos n)
digits_from n (b ∷ s) =
    let rest = digits_from (n * 10 + (b - b'0')) s in
    if leb b'0' b && leb b b'9' then rest else none

abbrev without_digits : Bytes → Bytes
without_digits [] = []
without_digits (b ∷ s) = if leb b'0' b && leb b b'9' then [] else b ∷ without_digits s

abbrev lower : Bytes → Bytes
lower [] = []
lower (b ∷ s) = (if leb b'A' b && leb b b'Z' then b + 32 else b) ∷ lower s

abbrev pub ascii : Texts
ascii = record {
  trim_space = λ s. s;
  trim_numbers = without_digits;
  to_lower = lower;
  atoi = digits_from 0;
  parse_int = digits_from 0;
}

abbrev daemon_verbose : List Bytes
daemon_verbose = codes "--daemon" ∷ codes "-v" ∷ []

abbrev archive : List Bytes
archive = codes "-avz" ∷ codes "--port=873" ∷ codes "src" ∷ codes "dst" ∷ []

-- The context that was returned, and any other if there is none.
abbrev context_of : Parsed → Context → Context
context_of (parsed pc) other = pc
context_of _ other = other

abbrev fresh : Context
fresh = start table [] new_options

abbrev archive_context : Context
archive_context = context_of (parse_arguments ascii archive false) fresh

parse_arguments-Ends_example : parse_arguments ascii archive true ≢ parse_out_of_fuel
parse_arguments-Ends_example = parse_arguments-Ends ascii archive true

-- The row of `verbose` in the daemon's table has a number where a pointer is expected.
daemon-panics : parse_arguments ascii daemon_verbose false ≡ parse_panicked
unfolding parse_arguments main_parsed main_loop main_turn main_result daemon_result daemon_turn
    daemon_loop daemon_parsed parse_daemon is_nil int_pointer string_pointer save_int_at save_int
    save_number save_string_at save_string cut_before cut_after long_name_of take_long take_short
    special_or_go_on is_flag flag_value flag_saved use_flag value_saved size room save_arg use_value
    use_argument use_option turn_at next_opt_turn next_opt_loop next_opt is_option find_option
    arg_type special_case special_set set_special is_one_of start with_gokrazy equal
daemon-panics = refl

parse_arguments_panics_example : (parse_arguments ascii daemon_verbose false ≡ parse_panicked) ↔ (
    (pc : Context) × (main_end ascii daemon_verbose false ≡ main_daemon pc)
    × (parse_daemon ascii daemon_verbose false pc.options ≡ parse_panicked))
parse_arguments_panics_example = parse_arguments_panics ascii daemon_verbose false

archive-parsed : parse_arguments ascii archive false ≡ parsed archive_context
unfolding parse_arguments main_parsed main_loop main_turn main_result daemon_result daemon_turn
    daemon_loop daemon_parsed parse_daemon is_nil int_pointer string_pointer save_int_at save_int
    save_number save_string_at save_string cut_before cut_after long_name_of take_long take_short
    special_or_go_on is_flag flag_value flag_saved use_flag value_saved size room save_arg use_value
    use_argument use_option turn_at next_opt_turn next_opt_loop next_opt is_option find_option
    arg_type special_case special_set set_special is_one_of start with_gokrazy equal
archive-parsed = refl

parse_arguments-IsSettled_example :
    (daemon archive_context.options ≡ true) ⊎ IsSettled archive_context.options
parse_arguments-IsSettled_example =
    parse_arguments-IsSettled ascii archive false archive_context archive-parsed

abbrev port : PoptOption
port = popt_option "port" "" popt_arg_int (int_arg Fields.rsync_port) (pos 0)

port-found : find_option table (codes "port") [] ≡ some port
unfolding find_option is_option equal
port-found = refl

port-takes_argument : is_flag port ≡ false
unfolding is_flag arg_type
port-takes_argument = refl

next_opt_spelling_example :
    (next_opt ascii.parse_int (before fresh (codes "--port=873" ∷ []))
      ≡ next_opt ascii.parse_int (before fresh (codes "--port" ∷ codes "873" ∷ [])))
    × (next_opt ascii.parse_int (before fresh (codes "-port=873" ∷ []))
        ≡ next_opt ascii.parse_int (before fresh (codes "--port" ∷ codes "873" ∷ [])))
unfolding start
next_opt_spelling_example =
    next_opt_spelling ascii.parse_int fresh port b'p' (codes "ort")
      (refl, (refl, (refl, (refl, tt)))) port-found port-takes_argument b'8' (codes "73") [] refl
