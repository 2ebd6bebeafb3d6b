-- ===== src/Options/NextOpt/Fuel.antt =====
-- poptGetNextOpt over any table: its fuel is enough, and more makes no difference.
use go_rsync_receiver.Prelude.{
  ℕ, zero, suc, ◌<◌, ◌≡◌, refl, sym, subst, ap, Option, none, List, [], ◌∷◌, Bytes, All, arith, ◌∙◌,
}
use go_rsync_receiver.Prelude.Int.{ℤ}
use go_rsync_receiver.Options.Fields.{Options}
use go_rsync_receiver.Options.Popt.{PoptOption, Context}
use go_rsync_receiver.Options.NextOpt.{
  Saved, saved, save_panic, NextOpt, Turn, go_on, stop, next_opt_turn, next_opt_loop, next_opt,
  room,
}
use go_rsync_receiver.Options.NextOpt.Progress.{IsFine, IsSafe, TurnOk}
use go_rsync_receiver.Options.NextOpt.Turns.{next_opt_turn-Ok}

-- Nothing is asked of the options, and a panic may be.
abbrev pub Any : Options → Type 0
Any o = Unit

any-IsFine : {A : Type 0} (r : Saved A) → IsFine Any Unit r
any-IsFine (saved a o) = tt
any-IsFine save_panic = tt

any-IsSafe : (parse_int : Bytes → Option ℤ) (o : PoptOption) → IsSafe parse_int Any Unit o
any-IsSafe parse_int o = record {
  flag = λ _ _ p _. any-IsFine _;
  value = λ _ _ s p _. any-IsFine _;
}

pub any-All :
    (parse_int : Bytes → Option ℤ) (t : List PoptOption) → All (IsSafe parse_int Any Unit) t
any-All parse_int [] = tt
any-All parse_int (o ∷ t) = (any-IsSafe parse_int o, any-All parse_int t)

module _ (parse_int : Bytes → Option ℤ) where
  -- A turn that goes on leaves less than there was.
  Shrinks : ℕ → Turn → Type 0
  Shrinks n (go_on opt pc) = room pc < n
  Shrinks n (stop result) = Unit

  TurnOk-Shrinks :
      (t : List PoptOption) (n : ℕ) (x : Turn)
      → TurnOk parse_int Any Unit t (any-All parse_int t) n x
      → Shrinks n x
  unfolding Shrinks
  TurnOk-Shrinks t n (go_on opt pc) k = k.less
  TurnOk-Shrinks t n (stop result) k = tt

  next_opt_turn-Shrinks :
      (opt : Option PoptOption) (pc : Context) → Shrinks (room pc) (next_opt_turn parse_int opt pc)
  next_opt_turn-Shrinks opt pc = TurnOk-Shrinks pc.table (room pc) _ (
      next_opt_turn-Ok parse_int Any Unit pc.table (any-All parse_int pc.table) (room pc) opt pc
        refl tt (omega arith))

  -- What follows a turn.
  after : ℕ → Turn → NextOpt
  after fuel (go_on opt pc) = next_opt_loop parse_int fuel opt pc
  after fuel (stop result) = result

  next_opt_loop-after :
      (fuel : ℕ) (opt : Option PoptOption) (pc : Context)
      → next_opt_loop parse_int (suc fuel) opt pc ≡ after fuel (next_opt_turn parse_int opt pc)
  unfolding next_opt_loop after
  next_opt_loop-after fuel opt pc = by_turn (next_opt_turn parse_int opt pc)
    where
      by_turn :
          (turn : Turn)
          → elim turn [ go_on o p ↦ next_opt_loop parse_int fuel o p | stop result ↦ result ]
            ≡ after fuel turn
      by_turn (go_on o p) = refl
      by_turn (stop result) = refl

  next_opt_loop-enough :
      (fuel more : ℕ) (opt : Option PoptOption) (pc : Context)
      → room pc < fuel
      → room pc < more
      → next_opt_loop parse_int fuel opt pc ≡ next_opt_loop parse_int more opt pc
  unfolding after Shrinks
  next_opt_loop-enough zero more opt pc h k = elim h [ ]
  next_opt_loop-enough (suc fuel) zero opt pc h k = elim k [ ]
  next_opt_loop-enough (suc fuel) (suc more) opt pc h k =
      next_opt_loop-after fuel opt pc
      ∙ by_turn (next_opt_turn parse_int opt pc) (next_opt_turn-Shrinks opt pc)
          (λ o p l. next_opt_loop-enough fuel more o p (omega (arith, h, l)) (omega (arith, k, l)))
      ∙ sym (next_opt_loop-after more opt pc)
    where
      by_turn :
          (turn : Turn)
          → Shrinks (room pc) turn
          → ((o : Option PoptOption) (p : Context)
              → room p < room pc
              → next_opt_loop parse_int fuel o p ≡ next_opt_loop parse_int more o p)
          → after fuel turn ≡ after more turn
      by_turn (go_on o p) l same = same o p l
      by_turn (stop result) l same = refl

  -- Contexts whose first turns are the same have the same results.
  pub next_opt-turn :
      (pc pd : Context)
      → next_opt_turn parse_int none pc ≡ next_opt_turn parse_int none pd
      → next_opt parse_int pc ≡ next_opt parse_int pd
  unfolding next_opt after Shrinks
  next_opt-turn pc pd e =
      next_opt_loop-after (room pc) none pc
      ∙ by_turn (next_opt_turn parse_int none pc) (next_opt_turn parse_int none pd) e
          (next_opt_turn-Shrinks none pc) (next_opt_turn-Shrinks none pd)
      ∙ sym (next_opt_loop-after (room pd) none pd)
    where
      fuels :
          (x : Turn)
          → Shrinks (room pc) x
          → Shrinks (room pd) x
          → after (room pc) x ≡ after (room pd) x
      fuels (go_on o p) l m = next_opt_loop-enough (room pc) (room pd) o p l m
      fuels (stop result) l m = refl

      by_turn :
          (x y : Turn)
          → x ≡ y
          → Shrinks (room pc) x
          → Shrinks (room pd) y
          → after (room pc) x ≡ after (room pd) y
      by_turn x y e l m = fuels x l (subst (Shrinks (room pd)) (sym e) m) ∙ ap (after (room pd)) e
