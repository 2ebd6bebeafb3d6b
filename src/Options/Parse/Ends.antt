-- ===== src/Options/Parse/Ends.antt =====
-- ParseArguments on any arguments: its loops stop, and what holds of the options that it returns.
use go_rsync_receiver.Prelude.{
  ℕ, zero, suc, ◌<◌, ◌≡◌, inl, inr, refl, Bool, Option, none, some, List, [], ◌∷◌, Bytes, All,
  arith, Bool-cases,
}
use go_rsync_receiver.Prelude.Int.{ℤ, pos, negsuc, ◌==ℤ◌, ltb_ℤ}
use go_rsync_receiver.Options.Fields
use go_rsync_receiver.Options.Fields.{
  Options, set_int, set_string, int_index, new_options, default_int,
}
use go_rsync_receiver.Options.Codes
use go_rsync_receiver.Options.Access.{sender, server}
use go_rsync_receiver.Options.OutputWords.{Texts}
use go_rsync_receiver.Options.Popt.{Context}
use go_rsync_receiver.Options.NextOpt.{
  NextOpt, returned, failed, panicked, out_of_fuel, next_opt, room, size, get_opt_arg,
}
use go_rsync_receiver.Options.NextOpt.Progress.{Keeps, ResultOk}
use go_rsync_receiver.Options.NextOpt.Turns.{next_opt-Ok}
use go_rsync_receiver.Options.SpecialCases.{
  MainTurn, main_on, main_done, main_daemon, main_failed, main_panicked, main_out_of_fuel,
  increment, set_archive, set_devices, set_atimes, set_special, set_info, special_case, special_set,
  case_sender, field_cases, is_one_of, not_implemented,
}
use go_rsync_receiver.Options.LongOptions.{table}
use go_rsync_receiver.Options.Start.{start, with_gokrazy}
use go_rsync_receiver.Options.Rows.{IsSided, with_gokrazy-All}
use go_rsync_receiver.Options.Parse.{main_result, main_turn, main_loop}

-- The special cases leave a sender a server.
abbrev Kept : Option Options → Type 0
Kept none = Unit
Kept (some o) = IsSided o

abbrev KeepsSides : (ℤ × (Options → Options)) → Type 0
KeepsSides (code, step) = (o : Options) → IsSided o → IsSided (step o)

set_archive-IsSided : (o : Options) → IsSided o → IsSided (set_archive o)
unfolding set_archive sender server set_int int_index
set_archive-IsSided o h = elim (Bool-cases (o.ints Fields.recurse ==ℤ pos 0)) [
  | inl hit ↦ rw hit h
  | inr miss ↦ rw miss h
]

set_atimes-IsSided : (o : Options) → IsSided o → IsSided (set_atimes o)
unfolding set_atimes increment sender server set_int int_index
set_atimes-IsSided o h =
    let more = increment Fields.preserve_atimes o in
    elim (Bool-cases (ltb_ℤ (pos 1) (more.ints Fields.preserve_atimes))) [
      | inl hit ↦ rw hit h
      | inr miss ↦ rw miss h
    ]

set_server-IsSided : (o : Options) → IsSided (set_int Fields.am_server (pos 1) o)
unfolding sender server set_int int_index
set_server-IsSided o s = refl

field_cases-All : All KeepsSides field_cases
unfolding set_devices increment sender server set_int set_string int_index
field_cases-All = (
  λ o h. h,
  (
    λ o h. set_server-IsSided o,
    (
      set_archive-IsSided,
      (
        λ o h. h,
        (
          λ o h. h,
          (
            λ o h. h,
            (
              λ o h. h,
              (
                λ o h. h,
                (
                  set_atimes-IsSided,
                  (
                    λ o h. h,
                    (
                      λ o h. h,
                      (
                        λ o h. h,
                        (λ o h. h, (λ o h. h, (λ o h. h, (λ o h. h, (λ o h. h, (λ o h. h, tt)))))),
                      ),
                    ),
                  ),
                ),
              ),
            ),
          ),
        ),
      ),
    ),
  ),
)

set_special-Kept :
    (opt : ℤ) (cases : List (ℤ × (Options → Options))) (o : Options)
    → All KeepsSides cases
    → IsSided o
    → Kept (set_special opt cases o)
unfolding set_special
set_special-Kept opt [] o all h = tt
set_special-Kept opt ((code, step) ∷ cases) o (step_keeps, all) h =
    elim (Bool-cases (opt ==ℤ code)) [
      | inl hit ↦ rw hit (step_keeps o h)
      | inr miss ↦ rw miss (set_special-Kept opt cases o all h)
    ]

module _ (texts : Texts) (gokrazy : Bool) where
  abbrev Context-Keeps : ℕ → Context → Type 0
  Context-Keeps =
      Keeps texts.parse_int IsSided ⊥ (with_gokrazy gokrazy table)
        (with_gokrazy-All texts.parse_int gokrazy)

  -- What a turn of the main loop may give.
  abbrev MainOk : ℕ → MainTurn → Type 0
  MainOk n (main_on pc) = Context-Keeps n pc
  MainOk n (main_done pc) = IsSided pc.options
  MainOk n (main_daemon pc) = IsSided pc.options
  MainOk n (main_failed e) = Unit
  MainOk n main_panicked = ⊥
  MainOk n main_out_of_fuel = ⊥

  case_sender-Ok : (n : ℕ) (pc : Context) → Context-Keeps n pc → MainOk n (case_sender pc)
  unfolding case_sender room sender server set_int int_index
  case_sender-Ok n pc k = elim (Bool-cases (pc.options.ints Fields.am_server ==ℤ pos 0)) [
    | inl hit ↦ rw hit tt
    | inr miss ↦ rw miss (record { same = k.same; kept = λ s. rw miss refl; less = k.less })
  ]

  set_info-Ok :
      (n : ℕ) (pc : Context)
      → Context-Keeps n pc
      → MainOk n (main_on (set_info texts (get_opt_arg pc)))
  unfolding set_info get_opt_arg room sender server
  set_info-Ok n pc k = record { same = k.same; kept = k.kept; less = k.less }

  set_debug-Ok :
      (n : ℕ) (pc : Context) → Context-Keeps n pc → MainOk n (main_on ((get_opt_arg pc).1))
  unfolding get_opt_arg room
  set_debug-Ok n pc k = record { same = k.same; kept = k.kept; less = k.less }

  special_set-Ok :
      (n : ℕ) (opt : ℤ) (pc : Context) (o : Option Options)
      → Context-Keeps n pc
      → Kept o
      → MainOk n (special_set opt pc o)
  unfolding special_set room
  special_set-Ok n opt pc none k h = tt
  special_set-Ok n opt pc (some o) k h = record { same = k.same; kept = h; less = k.less }

  special_case-Ok :
      (n : ℕ) (opt : ℤ) (pc : Context) → Context-Keeps n pc → MainOk n (special_case texts opt pc)
  unfolding special_case
  special_case-Ok n opt pc k = elim (Bool-cases (opt ==ℤ Codes.opt_sender)) [
    | inl e ↦ rw e (case_sender-Ok n pc k)
    | inr a ↦ rw a (elim (Bool-cases (opt ==ℤ Codes.opt_daemon)) [
      | inl e ↦ rw e k.kept
      | inr b ↦ rw b (elim (Bool-cases (is_one_of opt not_implemented)) [
        | inl e ↦ rw e tt
        | inr c ↦ rw c (elim (Bool-cases (opt ==ℤ Codes.opt_info)) [
          | inl e ↦ rw e (set_info-Ok n pc k)
          | inr d ↦ rw d (elim (Bool-cases (opt ==ℤ Codes.opt_debug)) [
            | inl e ↦ rw e (set_debug-Ok n pc k)
            | inr f ↦ rw f (elim (Bool-cases (opt ==ℤ pos b'A')) [
              | inl e ↦ rw e tt
              | inr g ↦ rw g (
                  special_set-Ok n opt pc _ k
                    (set_special-Kept opt field_cases pc.options field_cases-All k.kept))
            ])
          ])
        ])
      ])
    ])
  ]

  main_turn-Ok :
      (pc : Context)
      → pc.table ≡ with_gokrazy gokrazy table
      → IsSided pc.options
      → MainOk (room pc) (main_turn texts pc)
  unfolding main_turn main_result
  main_turn-Ok pc same kept = turn_of (next_opt texts.parse_int pc) (
      next_opt-Ok texts.parse_int IsSided ⊥ _ (with_gokrazy-All texts.parse_int gokrazy) pc same
        kept)
    where
      turn_of :
          (r : NextOpt)
          → ResultOk texts.parse_int IsSided ⊥
              (with_gokrazy gokrazy table)
              (with_gokrazy-All texts.parse_int gokrazy)
              (room pc)
              r
          → MainOk (room pc) (main_result texts r)
      turn_of (returned opt after) (inl k) = elim (Bool-cases (opt ==ℤ negsuc 0)) [
        | inl hit ↦ rw hit k.kept
        | inr miss ↦ rw miss (special_case-Ok (room pc) opt after k)
      ]
      turn_of (returned opt after) (inr (e, k)) = rw e k.kept
      turn_of (failed e) h = tt
      turn_of panicked h = h
      turn_of out_of_fuel h = h

  -- What the loop may end with.
  abbrev pub EndOk : MainTurn → Type 0
  EndOk (main_on pc) = ⊥
  EndOk (main_done pc) = IsSided pc.options
  EndOk (main_daemon pc) = IsSided pc.options
  EndOk (main_failed e) = Unit
  EndOk main_panicked = ⊥
  EndOk main_out_of_fuel = ⊥

  main_loop-Ok :
      (fuel : ℕ) (pc : Context)
      → pc.table ≡ with_gokrazy gokrazy table
      → IsSided pc.options
      → room pc < fuel
      → EndOk (main_loop texts fuel pc)
  unfolding main_loop
  main_loop-Ok zero pc same kept h = elim h [ ]
  main_loop-Ok (suc fuel) pc same kept h =
      end_of (main_turn texts pc) (main_turn-Ok pc same kept)
        (λ after k. main_loop-Ok fuel after k.same k.kept (omega (arith, k.less)))
    where
      end_of :
          (turn : MainTurn)
          → MainOk (room pc) turn
          → ((after : Context) → Context-Keeps (room pc) after → EndOk (main_loop texts fuel after))
          → EndOk (elim turn [ main_on after ↦ main_loop texts fuel after | end ↦ end ])
      end_of (main_on after) k rest = rest after k
      end_of (main_done after) k rest = k
      end_of (main_daemon after) k rest = k
      end_of (main_failed e) k rest = tt
      end_of main_panicked k rest = k
      end_of main_out_of_fuel k rest = k

  -- ParseArguments' main loop from its start.
  pub main_loop-start :
      (args : List Bytes)
      → EndOk
          (main_loop texts (suc (size args)) (start (with_gokrazy gokrazy table) args new_options))
  unfolding start room new_options default_int sender
  main_loop-start args = main_loop-Ok _ _ refl (λ s. ground (arith, s)) (omega arith)
