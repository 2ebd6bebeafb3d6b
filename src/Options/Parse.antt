-- ===== src/Options/Parse.antt =====
-- rsyncopts/rsyncopts.go: the loops of ParseArguments, and the options that it sets at the end by the
-- others.
pub mod Ends
pub mod Result
use go_rsync_receiver.Prelude.{ℕ, zero, suc, Bool, List, [], ◌++◌, Bytes, if◌then◌else◌}
use go_rsync_receiver.Prelude.Int.{pos, negsuc, ◌==ℤ◌}
use go_rsync_receiver.Options.Fields
use go_rsync_receiver.Options.Fields.{Options, IntField, set_int, set_string, new_options}
use go_rsync_receiver.Options.LongOptions.{table}
use go_rsync_receiver.Options.DaemonOptions.{gokrazy_table, daemon_table}
use go_rsync_receiver.Options.OutputWords.{Texts, set_output_verbosity}
use go_rsync_receiver.Options.Popt.{PoptOption, Context}
use go_rsync_receiver.Options.NextOpt.{
  NextOpt, next_opt, returned, failed, panicked, out_of_fuel, size,
}
use go_rsync_receiver.Options.SpecialCases.{
  ParseError, popt_error, not_yet_implemented, unhandled, MainTurn, main_on, main_done, main_daemon,
  main_failed, main_panicked, main_out_of_fuel, increment, special_case,
}
use go_rsync_receiver.Options.Start.{start, with_gokrazy}
use go_rsync_receiver.Options.Settle.{settle_rest}

pub data Parsed : Type 0 where
  parsed : Context → Parsed
  parse_failed : ParseError → Parsed
  parse_panicked parse_out_of_fuel : Parsed

-- A turn of the loop on the daemon's table, by what poptGetNextOpt gives.
unfoldable pub daemon_result : NextOpt → MainTurn
daemon_result (returned opt after) =
    if opt ==ℤ negsuc 0
    then main_done after
    else if opt ==ℤ pos b'M'
    then main_failed not_yet_implemented
    else if opt ==ℤ pos b'v'
    then main_on (record after { options = increment Fields.verbose after.options })
    else main_failed (unhandled opt)
daemon_result (failed e) = main_failed (popt_error e)
daemon_result panicked = main_panicked
daemon_result out_of_fuel = main_out_of_fuel

-- The end of the daemon's loop.
unfoldable pub daemon_parsed : MainTurn → Parsed
daemon_parsed (main_done pc) =
    parsed (record pc { options = set_int Fields.am_daemon (pos 1) pc.options })
daemon_parsed (main_failed e) = parse_failed e
daemon_parsed main_panicked = parse_panicked
daemon_parsed _ = parse_out_of_fuel

module _ (texts : Texts) where
  unfoldable pub main_result : NextOpt → MainTurn
  main_result (returned opt after) =
      if opt ==ℤ negsuc 0 then main_done after else special_case texts opt after
  main_result (failed e) = main_failed (popt_error e)
  main_result panicked = main_panicked
  main_result out_of_fuel = main_out_of_fuel

  unfoldable pub main_turn : Context → MainTurn
  main_turn pc = main_result (next_opt texts.parse_int pc)

  unfoldable pub main_loop : ℕ → Context → MainTurn
  main_loop zero pc = main_out_of_fuel
  main_loop (suc fuel) pc = elim (main_turn pc) [ main_on after ↦ main_loop fuel after | end ↦ end ]

  unfoldable pub daemon_turn : Context → MainTurn
  daemon_turn pc = daemon_result (next_opt texts.parse_int pc)

  unfoldable pub daemon_loop : ℕ → Context → MainTurn
  daemon_loop zero pc = main_out_of_fuel
  daemon_loop (suc fuel) pc = elim (daemon_turn pc) [
    | main_on after ↦ daemon_loop fuel after
    | end ↦ end
  ]

  -- The case OPT_DAEMON: all arguments again, into the options as they are by now.
  unfoldable pub parse_daemon : List Bytes → Bool → Options → Parsed
  parse_daemon args gokrazy o =
      daemon_parsed
        (daemon_loop (suc (size args)) (start (with_gokrazy gokrazy daemon_table) args o))

  unfoldable pub settle : Options → Options
  settle o = settle_rest (set_output_verbosity texts o)

  -- The end of the main loop, on the arguments that it was given.
  unfoldable pub main_parsed : List Bytes → Bool → MainTurn → Parsed
  main_parsed args gokrazy (main_done pc) = parsed (record pc { options = settle pc.options })
  main_parsed args gokrazy (main_daemon pc) = parse_daemon args gokrazy pc.options
  main_parsed args gokrazy (main_failed e) = parse_failed e
  main_parsed args gokrazy main_panicked = parse_panicked
  main_parsed args gokrazy _ = parse_out_of_fuel

  -- ParseArguments
  unfoldable pub parse_arguments : List Bytes → Bool → Parsed
  parse_arguments args gokrazy =
      main_parsed args gokrazy
        (main_loop (suc (size args)) (start (with_gokrazy gokrazy table) args new_options))
