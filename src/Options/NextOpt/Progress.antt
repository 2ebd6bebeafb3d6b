-- ===== src/Options/NextOpt/Progress.antt =====
-- What a turn of poptGetNextOpt does over a table whose rows store what they may: it keeps what they keep,
-- and leaves less.
use go_rsync_receiver.Prelude.{
  ℕ, suc, ◌+◌, ◌≤◌, ◌<◌, ◌≡◌, subst, ◌⊎◌, inl, inr, refl, sym, ◌∙◌, ap, Bool, true, false, not,
  ◌&&◌, ◌||◌, Option, none, some, List, [], ◌∷◌, Bytes, equal, length, All, arith, Bool-cases,
  Option-cases, ◌==◌, codes,
}
use mathlib.Core.Option.{some-injective}
use go_rsync_receiver.Prelude.Int.{ℤ, pos, negsuc, ◌==ℤ◌}
use go_rsync_receiver.Options.Fields.{Options}
use go_rsync_receiver.Sender.Filters.{has_prefix}
use go_rsync_receiver.Options.Popt.{
  PoptOption, Context, find_option, is_option, arg_type, popt_arg_val,
}
use go_rsync_receiver.Options.NextOpt.{
  Saved, saved, save_panic, is_nil, save_int, save_arg, is_flag, flag_value, Taken, positional,
  rejected, taken, NextOpt, returned, failed, panicked, out_of_fuel, Turn, go_on, stop, take_long,
  take_short, special_or_go_on, flag_saved, value_saved, use_flag, use_value, use_argument,
  use_option, room, size, long_name_of,
}

List-cases : {A : Type 0} (l : List A) → (l ≡ []) ⊎ ((x : A) × (r : List A) × (l ≡ x ∷ r))
List-cases [] = inl refl
List-cases (x ∷ r) = inr (x, r, refl)

-- `Panics` says what a panic means: `⊥` where there is none.
module _ (P : Options → Type 0) (Panics : Type 0) where
  abbrev pub IsFine : {A : Type 0} → Saved A → Type 0
  IsFine (saved a o) = P o
  IsFine save_panic = Panics

module _ (parse_int : Bytes → Option ℤ) (P : Options → Type 0) (Panics : Type 0) where
  -- A row whose stores keep `P`.
  pub record IsSafe (o : PoptOption) : Type 0 where
    pub flag :
        is_flag o ≡ true
        → is_nil o.arg ≡ false
        → (p : Options) → P p
        → IsFine P Panics (save_int o (flag_value o) p)
    pub value :
        is_flag o ≡ false
        → is_nil o.arg ≡ false
        → (s : Bytes) (p : Options) → P p
        → IsFine P Panics (save_arg parse_int o s p)

  module _ (t : List PoptOption) (rows : All IsSafe t) where
    pub record Keeps (n : ℕ) (pc : Context) : Type 0 where
      pub same : pc.table ≡ t
      pub kept : P pc.options
      pub less : room pc < n

    abbrev pub ResultOk : ℕ → NextOpt → Type 0
    ResultOk n (returned v pc) = Keeps n pc ⊎ ((v ≡ negsuc 0) × Keeps (suc n) pc)
    ResultOk n (failed e) = Unit
    ResultOk n panicked = Panics
    ResultOk n out_of_fuel = ⊥

    abbrev pub TurnOk : ℕ → Turn → Type 0
    TurnOk n (go_on opt pc) = Keeps n pc
    TurnOk n (stop result) = ResultOk n result

    abbrev pub TakenOk : ℕ → Taken → Type 0
    TakenOk n (positional pc) = Keeps n pc
    TakenOk n (rejected e) = Unit
    TakenOk n (taken none long_arg pc) = Keeps n pc
    TakenOk n (taken (some o) long_arg pc) = IsSafe o × Keeps n pc

    find_option-All :
        (l : List PoptOption) (long short : Bytes) (o : PoptOption)
        → All IsSafe l
        → find_option l long short ≡ some o
        → IsSafe o
    unfolding find_option
    find_option-All [] long short o h e = ground arith
    find_option-All (r ∷ l) long short o (s, h) e = elim (Bool-cases (is_option long short r)) [
      | inl hit ↦ subst IsSafe (some-injective _ _ (sym (rw hit refl) ∙ e)) s
      | inr miss ↦ find_option-All l long short o h (sym (rw miss refl) ∙ e)
    ]

    special_or_go_on-Ok :
        (n : ℕ) (o : PoptOption) (pc : Context) → Keeps n pc → TurnOk n (special_or_go_on o pc)
    unfolding special_or_go_on
    special_or_go_on-Ok n o pc k =
        elim (Bool-cases (not (o.val ==ℤ pos 0) && not (arg_type o == popt_arg_val))) [
          | inl hit ↦ rw hit (inl k)
          | inr miss ↦ rw miss k
        ]

    flag_saved-Ok :
        (n : ℕ) (o : PoptOption) (pc : Context) (r : Saved Bool)
        → IsFine P Panics r
        → Keeps n pc
        → TurnOk n (flag_saved o pc r)
    unfolding flag_saved room
    flag_saved-Ok n o pc (saved true p) h k =
        special_or_go_on-Ok n o _ (record { same = k.same; kept = h; less = k.less })
    flag_saved-Ok n o pc (saved false p) h k = tt
    flag_saved-Ok n o pc save_panic h k = h

    value_saved-Ok :
        (n : ℕ) (o : PoptOption) (pc : Context) (r : Saved ℤ)
        → IsFine P Panics r
        → Keeps n pc
        → TurnOk n (value_saved o pc r)
    unfolding value_saved room
    value_saved-Ok n o pc (saved code p) h k = elim (Bool-cases (code ==ℤ pos 0)) [
      | inl hit ↦
          rw hit (special_or_go_on-Ok n o _ (record { same = k.same; kept = h; less = k.less }))
      | inr miss ↦ rw miss tt
    ]
    value_saved-Ok n o pc save_panic h k = h

    use_flag-Ok :
        (n : ℕ) (o : PoptOption) (long_arg : Bytes) (pc : Context)
        → IsSafe o
        → is_flag o ≡ true
        → Keeps n pc
        → TurnOk n (use_flag o long_arg pc)
    unfolding use_flag
    use_flag-Ok n o long_arg pc s f k =
        elim (Bool-cases (not (equal long_arg []) || has_prefix pc.next_char_arg (codes "="))) [
          | inl hit ↦ rw hit tt
          | inr miss ↦ rw miss elim (Bool-cases (is_nil o.arg)) [
            | inl nil ↦ rw nil (special_or_go_on-Ok n o pc k)
            | inr set ↦ rw set (flag_saved-Ok n o pc _ (s.flag f set pc.options k.kept) k)
          ]
        ]

    use_value-Ok :
        (n : ℕ) (o : PoptOption) (text : Bytes) (pc : Context)
        → IsSafe o
        → is_flag o ≡ false
        → Keeps n pc
        → TurnOk n (use_value parse_int o text pc)
    unfolding use_value room
    use_value-Ok n o text pc s f k =
        let noted : Keeps n (record pc { next_arg = text }) = record {
          same = k.same;
          kept = k.kept;
          less = k.less;
        } in
        elim (Bool-cases (is_nil o.arg)) [
          | inl nil ↦ rw nil (special_or_go_on-Ok n o _ noted)
          | inr set ↦ rw set (value_saved-Ok n o _ _ (s.value f set text pc.options k.kept) noted)
        ]

    use_argument-Ok :
        (n : ℕ) (o : PoptOption) (long_arg : Bytes) (pc : Context)
        → IsSafe o
        → is_flag o ≡ false
        → Keeps n pc
        → TurnOk n (use_argument parse_int o long_arg pc)
    unfolding use_argument room size
    use_argument-Ok n o (b ∷ l) pc s f k = use_value-Ok n o _ pc s f k
    use_argument-Ok n o [] pc s f k = elim (List-cases pc.next_char_arg) [
      | inr (c, r, e) ↦
          let shorter : 0 + size pc.args < n = omega (arith, k.less) in
          rw e (use_value-Ok n o _ _ s f (record { same = k.same; kept = k.kept; less = shorter }))
      | inl e ↦ elim (List-cases pc.args) [
        | inl none_left ↦ rw (e, none_left) tt
        | inr (a, args, left) ↦
            let fewer : suc (length a + size args) ≡ size pc.args = sym (ap size left) in
            rw (e, left)
              (use_value-Ok n o a _ s f
                (record { same = k.same; kept = k.kept; less = omega (arith, k.less, fewer) }))
      ]
    ]

    -- A short option takes its character, also where nothing was taken before it.
    pub short-Ok :
        (n : ℕ) (opt : Option PoptOption) (long_arg : Bytes) (pc : Context) (c : ℕ) (r : Bytes)
        → pc.next_char_arg ≡ c ∷ r
        → pc.table ≡ t
        → P pc.options
        → room pc ≤ n
        → TakenOk n (take_short (taken opt long_arg pc))
    unfolding take_short room
    short-Ok n opt long_arg pc c r e same kept h =
        let longer : suc (length r) ≡ length pc.next_char_arg = sym (ap length e) in
        rw e elim (Option-cases (find_option pc.table [] (c ∷ []))) [
          | inl miss ↦ rw miss tt
          | inr (o, hit) ↦
              let row : IsSafe o =
                find_option-All t [] (c ∷ []) o rows (sym (rw same refl) ∙ hit) in
              rw hit (row, record { same = same; kept = kept; less = omega (arith, longer, h) })
        ]

    pub take_short-Ok : (n : ℕ) (x : Taken) → TakenOk n x → TakenOk n (take_short x)
    unfolding take_short
    take_short-Ok n (positional pc) k = k
    take_short-Ok n (rejected e) k = tt
    take_short-Ok n (taken none long_arg pc) k = elim (List-cases pc.next_char_arg) [
      | inl e ↦ rw e k
      | inr (c, r, e) ↦ short-Ok n none long_arg pc c r e k.same k.kept (omega (arith, k.less))
    ]
    take_short-Ok n (taken (some o) long_arg pc) (s, k) = elim (List-cases pc.next_char_arg) [
      | inl e ↦ rw e (s, k)
      | inr (c, r, e) ↦ short-Ok n (some o) long_arg pc c r e k.same k.kept (omega (arith, k.less))
    ]

    pub take_long-Ok :
        (n : ℕ) (s : Bytes) (pc : Context)
        → pc.next_char_arg ≡ []
        → pc.table ≡ t
        → P pc.options
        → length s + size pc.args < n
        → TakenOk n (take_long s pc)
    unfolding take_long room
    take_long-Ok n [] pc e same kept h = tt
    take_long-Ok n (b ∷ s) pc e same kept h =
        let nothing : length pc.next_char_arg ≡ 0 = ap length e in
        let left : room pc < n = omega (arith, nothing, h) in
        elim (Bool-cases (not (b == b'-') || equal s [])) [
          | inl hit ↦ rw hit (record { same = same; kept = kept; less = left })
          | inr miss ↦
              rw miss elim (Option-cases (find_option pc.table (long_name_of (b ∷ s)) [])) [
                | inl absent ↦
                    rw absent (record { same = same; kept = kept; less = omega (arith, h) })
                | inr (o, found) ↦
                    let row : IsSafe o =
                      find_option-All t (long_name_of (b ∷ s)) [] o rows
                        (sym (rw same refl) ∙ found) in
                    rw found (row, record { same = same; kept = kept; less = left })
              ]
        ]

    pub use_option-Ok :
        (n : ℕ) (opt : Option PoptOption) (x : Taken)
        → TakenOk n x
        → TurnOk n (use_option parse_int opt x)
    unfolding use_option
    use_option-Ok n opt (positional pc) k = k
    use_option-Ok n opt (rejected e) k = tt
    use_option-Ok n opt (taken none long_arg pc) k = tt
    use_option-Ok n opt (taken (some o) long_arg pc) (s, k) = elim (Bool-cases (is_flag o)) [
      | inl flag ↦ rw flag (use_flag-Ok n o long_arg pc s flag k)
      | inr value ↦ rw value (use_argument-Ok n o long_arg pc s value k)
    ]
