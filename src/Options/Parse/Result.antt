-- ===== src/Options/Parse/Result.antt =====
-- ParseArguments as a whole: that it stops, when it panics, and the options that it returns.
use go_rsync_receiver.Prelude.{
  ℕ, zero, suc, ◌<◌, ◌≡◌, ◌≢◌, ◌⊎◌, ◌↔◌, ◌∙◌, inl, inr, refl, subst, ap, Option, none, some,
  get_elem?, Bool, true, Option, List, Bytes, arith, Bool-cases,
}
use go_rsync_receiver.Prelude.Int.{ℤ, pos, negsuc, ◌==ℤ◌}
use go_rsync_receiver.Options.Fields
use go_rsync_receiver.Options.Fields.{Options, set_int, int_index, new_options}
use go_rsync_receiver.Options.Access.{daemon, sender, server}
use go_rsync_receiver.Options.OutputWords.{
  info_verbosity, info_words, parse_output_words, Texts, set_output_verbosity, verbosity_loop,
}
use go_rsync_receiver.Options.Popt.{PoptOption, Context}
use go_rsync_receiver.Options.NextOpt.{NextOpt, returned, failed, panicked, out_of_fuel, room, size}
use go_rsync_receiver.Options.NextOpt.Progress.{ResultOk}
use go_rsync_receiver.Options.NextOpt.Turns.{next_opt-Ok}
use go_rsync_receiver.Options.SpecialCases.{
  MainTurn, main_on, main_done, main_daemon, main_failed, main_panicked, main_out_of_fuel,
}
use go_rsync_receiver.Options.NextOpt.Fuel.{Any, any-All}
use go_rsync_receiver.Options.LongOptions.{table}
use go_rsync_receiver.Options.Start.{start, with_gokrazy}
use go_rsync_receiver.Options.Rows.{IsSided}
use go_rsync_receiver.Options.Settled.{IsSettled, settle_rest-IsSettled}
use go_rsync_receiver.Options.Parse.{
  main_loop, Parsed, parsed, parse_failed, parse_panicked, parse_out_of_fuel, daemon_result,
  daemon_turn, daemon_loop, daemon_parsed, main_parsed, parse_daemon, parse_arguments, settle,
}
use go_rsync_receiver.Options.Parse.Ends.{EndOk, main_loop-start}

module _ (texts : Texts) where
  -- The daemon's loop goes on with less than it had.
  abbrev DaemonOk : ℕ → MainTurn → Type 0
  DaemonOk n (main_on pc) = room pc < n
  DaemonOk n (main_done pc) = Unit
  DaemonOk n (main_daemon pc) = ⊥
  DaemonOk n (main_failed e) = Unit
  DaemonOk n main_panicked = Unit
  DaemonOk n main_out_of_fuel = ⊥

  daemon_result-Ok :
      (t : List PoptOption) (n : ℕ) (r : NextOpt)
      → ResultOk texts.parse_int Any Unit t (any-All texts.parse_int t) n r
      → DaemonOk n (daemon_result r)
  unfolding daemon_result room
  daemon_result-Ok t n (returned opt after) (inr (e, k)) = rw e tt
  daemon_result-Ok t n (returned opt after) (inl k) = elim (Bool-cases (opt ==ℤ negsuc 0)) [
    | inl e ↦ rw e tt
    | inr a ↦ rw a (elim (Bool-cases (opt ==ℤ pos b'M')) [
      | inl e ↦ rw e tt
      | inr b ↦
          rw b (elim (Bool-cases (opt ==ℤ pos b'v')) [ inl e ↦ rw e k.less | inr c ↦ rw c tt ])
    ])
  ]
  daemon_result-Ok t n (failed e) h = tt
  daemon_result-Ok t n panicked h = tt
  daemon_result-Ok t n out_of_fuel h = h

  daemon_turn-Ok : (pc : Context) → DaemonOk (room pc) (daemon_turn texts pc)
  unfolding daemon_turn
  daemon_turn-Ok pc =
      daemon_result-Ok pc.table (room pc) _ (
        next_opt-Ok texts.parse_int Any Unit pc.table (any-All texts.parse_int pc.table) pc refl tt)

  abbrev DaemonEnds : MainTurn → Type 0
  DaemonEnds (main_on pc) = ⊥
  DaemonEnds (main_done pc) = Unit
  DaemonEnds (main_daemon pc) = ⊥
  DaemonEnds (main_failed e) = Unit
  DaemonEnds main_panicked = Unit
  DaemonEnds main_out_of_fuel = ⊥

  daemon_loop-Ends :
      (fuel : ℕ) (pc : Context) → room pc < fuel → DaemonEnds (daemon_loop texts fuel pc)
  unfolding daemon_loop
  daemon_loop-Ends zero pc h = elim h [ ]
  daemon_loop-Ends (suc fuel) pc h =
      end_of (daemon_turn texts pc) (daemon_turn-Ok pc)
        (λ after k. daemon_loop-Ends fuel after (omega (arith, k)))
    where
      end_of :
          (turn : MainTurn)
          → DaemonOk (room pc) turn
          → ((after : Context) → room after < room pc → DaemonEnds (daemon_loop texts fuel after))
          → DaemonEnds (elim turn [ main_on after ↦ daemon_loop texts fuel after | end ↦ end ])
      end_of (main_on after) k rest = rest after k
      end_of (main_done after) k rest = tt
      end_of (main_daemon after) k rest = k
      end_of (main_failed e) k rest = tt
      end_of main_panicked k rest = tt
      end_of main_out_of_fuel k rest = k

  verbosity_loop-IsSided :
      (turns j : ℕ) (o : Options) → IsSided o → IsSided (verbosity_loop texts turns j o)
  unfolding verbosity_loop sender server
  verbosity_loop-IsSided zero j o h = h
  verbosity_loop-IsSided (suc turns) j o h =
      verbosity_loop-IsSided turns (suc j) _ (word_step (get_elem? (info_verbosity texts) j))
    where
      word_step :
          (words : Option Bytes)
          → IsSided (elim words [
            | none ↦ o
            | some text ↦ record o { info = parse_output_words texts info_words o.info text }
          ])
      word_step none = h
      word_step (some text) = h

  settle-IsSettled : (o : Options) → IsSided o → IsSettled (settle texts o)
  unfolding settle set_output_verbosity
  settle-IsSettled o h =
      settle_rest-IsSettled (set_output_verbosity texts o) (verbosity (o.ints Fields.verbose))
    where
      verbosity :
          (v : ℤ) → IsSided (elim v [ pos n ↦ verbosity_loop texts (suc n) 0 o | negsuc n ↦ o ])
      verbosity (pos n) = verbosity_loop-IsSided (suc n) 0 o h
      verbosity (negsuc n) = h

  -- What ParseArguments may return.
  module _ (args : List Bytes) (gokrazy : Bool) where
    abbrev ParsedOk : Parsed → Type 0
    ParsedOk (parsed pc) = (daemon pc.options ≡ true) ⊎ IsSettled pc.options
    ParsedOk (parse_failed e) = Unit
    ParsedOk parse_panicked = Unit
    ParsedOk parse_out_of_fuel = ⊥

    parse_daemon-Ok : (o : Options) → ParsedOk (parse_daemon texts args gokrazy o)
    unfolding parse_daemon daemon_parsed start room daemon set_int int_index
    parse_daemon-Ok o = result_of _ (daemon_loop-Ends _ _ (omega arith))
      where
        result_of : (end : MainTurn) → DaemonEnds end → ParsedOk (daemon_parsed end)
        result_of (main_done pc) h = inl refl
        result_of (main_failed x) h = tt
        result_of main_panicked h = tt
        result_of (main_on pc) h = h
        result_of (main_daemon pc) h = h
        result_of main_out_of_fuel h = h

    parse_arguments-Ok : ParsedOk (parse_arguments texts args gokrazy)
    unfolding parse_arguments main_parsed
    parse_arguments-Ok = result_of _ (main_loop-start texts gokrazy args)
      where
        result_of :
            (end : MainTurn)
            → EndOk texts gokrazy end
            → ParsedOk (main_parsed texts args gokrazy end)
        result_of (main_done pc) h = inr (settle-IsSettled pc.options h)
        result_of (main_daemon pc) h = parse_daemon-Ok pc.options
        result_of (main_failed x) h = tt
        result_of (main_on pc) h = h
        result_of main_panicked h = elim h [ ]
        result_of main_out_of_fuel h = h

    -- ParseArguments stops on any arguments: neither its own loop, nor the daemon's, nor the loops of
    -- poptGetNextOpt run out of their fuel.
    pub parse_arguments-Ends : parse_arguments texts args gokrazy ≢ parse_out_of_fuel
    parse_arguments-Ends e = subst ParsedOk e parse_arguments-Ok

    -- ParseArguments' main loop, with all the fuel that it is given.
    abbrev pub main_end : MainTurn
    main_end =
        main_loop texts (suc (size args)) (start (with_gokrazy gokrazy table) args new_options)

    -- ParseArguments panics exactly when its main loop ends, without a panic, at an option of the daemon,
    -- and the parse for the daemon, of all arguments and into the options as the main loop left them,
    -- panics.
    pub parse_arguments_panics : (parse_arguments texts args gokrazy ≡ parse_panicked) ↔ (
        (pc : Context) × (main_end ≡ main_daemon pc)
        × (parse_daemon texts args gokrazy pc.options ≡ parse_panicked))
    unfolding parse_arguments main_parsed
    parse_arguments_panics = (
      by_end main_end refl (main_loop-start texts gokrazy args),
      λ (pc, e, p). ap (main_parsed texts args gokrazy) e ∙ p,
    )
      where
        by_end :
            (end : MainTurn)
            → main_end ≡ end
            → EndOk texts gokrazy end
            → main_parsed texts args gokrazy end ≡ parse_panicked
            → (pc : Context) × (main_end ≡ main_daemon pc)
              × (parse_daemon texts args gokrazy pc.options ≡ parse_panicked)
        by_end (main_done pc) e h p = cc
        by_end (main_daemon pc) e h p = (pc, e, p)
        by_end (main_failed x) e h p = cc
        by_end (main_on pc) e h p = elim h [ ]
        by_end main_panicked e h p = elim h [ ]
        by_end main_out_of_fuel e h p = elim h [ ]

    -- The options that ParseArguments returns are those of a daemon or are settled: a sender is a
    -- server, the modes of directories and paths are chosen and agree with each other, the two options
    -- on missing arguments are made one, and backups and names have their suffix and format.
    pub parse_arguments-IsSettled :
        (pc : Context)
        → parse_arguments texts args gokrazy ≡ parsed pc
        → (daemon pc.options ≡ true) ⊎ IsSettled pc.options
    parse_arguments-IsSettled pc e = subst ParsedOk e parse_arguments-Ok
