-- ===== src/Options/NextOpt/Turns.antt =====
-- The turns of poptGetNextOpt, and its loop: it stops, and keeps what the rows keep.
use go_rsync_receiver.Prelude.{
  ℕ, zero, suc, ◌+◌, ◌≤◌, ◌<◌, ◌≡◌, inl, inr, refl, sym, ap, Option, none, List, [], ◌∷◌, Bytes,
  length, All, arith,
}
use go_rsync_receiver.Prelude.Int.{ℤ}
use go_rsync_receiver.Options.Fields.{Options}
use go_rsync_receiver.Options.Popt.{PoptOption, Context}
use go_rsync_receiver.Options.NextOpt.{
  NextOpt, returned, failed, panicked, out_of_fuel, Turn, go_on, stop, next_opt_turn, turn_at,
  next_opt_loop, next_opt, room, size,
}
use go_rsync_receiver.Options.NextOpt.Progress.{
  IsSafe, Keeps, TurnOk, ResultOk, short-Ok, take_short-Ok, take_long-Ok, use_option-Ok,
}

module _ (parse_int : Bytes → Option ℤ) (P : Options → Type 0) (Panics : Type 0)
    (t : List PoptOption) (rows : All (IsSafe parse_int P Panics) t) where
  turn_at-Ok :
      (n : ℕ) (opt : Option PoptOption) (pc : Context) (chars : Bytes) (args : List Bytes)
      → pc.next_char_arg ≡ chars
      → pc.args ≡ args
      → pc.table ≡ t
      → P pc.options
      → room pc ≤ n
      → TurnOk parse_int P Panics t rows n (turn_at parse_int opt pc chars args)
  unfolding turn_at size room
  turn_at-Ok n opt pc (c ∷ r) args e f same kept h =
      use_option-Ok parse_int P Panics t rows n opt _
        (short-Ok parse_int P Panics t rows n opt [] pc c r e same kept h)
  turn_at-Ok n opt pc [] [] e f same kept h =
      inr (refl, record { same = same; kept = kept; less = omega (arith, h) })
  turn_at-Ok n opt pc [] (s ∷ args) e f same kept h =
      let fewer : suc (length s + size args) ≡ size pc.args = sym (ap size f) in
      let next = record pc { args = args } in
      let found =
        take_long-Ok parse_int P Panics t rows n s next e same kept (omega (arith, h, fewer)) in
      use_option-Ok parse_int P Panics t rows n opt _
        (take_short-Ok parse_int P Panics t rows n _ found)

  pub next_opt_turn-Ok :
      (n : ℕ) (opt : Option PoptOption) (pc : Context)
      → pc.table ≡ t
      → P pc.options
      → room pc ≤ n
      → TurnOk parse_int P Panics t rows n (next_opt_turn parse_int opt pc)
  unfolding next_opt_turn
  next_opt_turn-Ok n opt pc same kept h = turn_at-Ok n opt pc _ _ refl refl same kept h

  ResultOk-weaken :
      (m n : ℕ) (r : NextOpt)
      → m ≤ n
      → ResultOk parse_int P Panics t rows m r
      → ResultOk parse_int P Panics t rows n r
  ResultOk-weaken m n (returned v pc) h (inl k) =
      inl (record { same = k.same; kept = k.kept; less = omega (arith, h, k.less) })
  ResultOk-weaken m n (returned v pc) h (inr (e, k)) =
      inr (e, record { same = k.same; kept = k.kept; less = omega (arith, h, k.less) })
  ResultOk-weaken m n (failed e) h k = tt
  ResultOk-weaken m n panicked h k = k
  ResultOk-weaken m n out_of_fuel h k = k

  next_opt_loop-Ok :
      (fuel : ℕ) (opt : Option PoptOption) (pc : Context)
      → pc.table ≡ t
      → P pc.options
      → room pc < fuel
      → ResultOk parse_int P Panics t rows (room pc) (next_opt_loop parse_int fuel opt pc)
  unfolding next_opt_loop
  next_opt_loop-Ok zero opt pc same kept h = elim h [ ]
  next_opt_loop-Ok (suc fuel) opt pc same kept h =
      after (next_opt_turn parse_int opt pc)
        (next_opt_turn-Ok (room pc) opt pc same kept (omega arith))
        (λ opt' pc' k.
          ResultOk-weaken _ _ _ (omega (arith, k.less))
            (next_opt_loop-Ok fuel opt' pc' k.same k.kept (omega (arith, k.less))))
    where
      after :
          (turn : Turn)
          → TurnOk parse_int P Panics t rows (room pc) turn
          → ((opt' : Option PoptOption) (pc' : Context)
              → Keeps parse_int P Panics t rows (room pc) pc'
              → ResultOk parse_int P Panics t rows
                  (room pc)
                  (next_opt_loop parse_int fuel opt' pc'))
          → ResultOk parse_int P Panics t rows (room pc) (elim turn [
            | go_on opt' pc' ↦ next_opt_loop parse_int fuel opt' pc'
            | stop result ↦ result
          ])
      after (go_on opt' pc') k rest = rest opt' pc' k
      after (stop result) k rest = k

  pub next_opt-Ok :
      (pc : Context)
      → pc.table ≡ t
      → P pc.options
      → ResultOk parse_int P Panics t rows (room pc) (next_opt parse_int pc)
  unfolding next_opt
  next_opt-Ok pc same kept = next_opt_loop-Ok _ none pc same kept (omega arith)
