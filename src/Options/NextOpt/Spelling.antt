-- ===== src/Options/NextOpt/Spelling.antt =====
-- The ways to write an option with its argument.
use go_rsync_receiver.Prelude.{
  ℕ, ◌≡◌, refl, sym, ap, ◌∙◌, false, Option, none, some, List, [], ◌∷◌, ◌++◌, Bytes, All, ◌==◌,
  equal, codes,
}
use go_rsync_receiver.Prelude.Int.{ℤ}
use go_rsync_receiver.Options.Popt.{PoptOption, Context, find_option}
use go_rsync_receiver.Options.NextOpt.{
  Turn, is_flag, cut_before, cut_after, long_name_of, take_long, take_short, use_option,
  use_argument, use_value, turn_at, next_opt_turn, next_opt,
}
use go_rsync_receiver.Options.NextOpt.Fuel.{next_opt-turn}

-- A byte that is not `=`.
abbrev pub IsPlain : ℕ → Type 0
IsPlain b = (b == b'=') ≡ false

cut_before-append : (s value : Bytes) → All IsPlain s → cut_before (s ++ (b'=' ∷ value)) ≡ s
unfolding cut_before
cut_before-append [] value h = refl
cut_before-append (b ∷ s) value (p, h) = rw p (ap (◌∷◌ b) (cut_before-append s value h))

cut_after-append : (s value : Bytes) → All IsPlain s → cut_after (s ++ (b'=' ∷ value)) ≡ value
unfolding cut_after
cut_after-append [] value h = refl
cut_after-append (b ∷ s) value (p, h) = rw p (cut_after-append s value h)

cut_before-IsPlain : (s : Bytes) → All IsPlain s → cut_before s ≡ s
unfolding cut_before
cut_before-IsPlain [] h = refl
cut_before-IsPlain (b ∷ s) (p, h) = rw p (ap (◌∷◌ b) (cut_before-IsPlain s h))

cut_after-IsPlain : (s : Bytes) → All IsPlain s → cut_after s ≡ []
unfolding cut_after
cut_after-IsPlain [] h = refl
cut_after-IsPlain (b ∷ s) (p, h) = rw p (cut_after-IsPlain s h)

-- The context before the arguments, with no short options pending.
abbrev pub before : Context → List Bytes → Context
before pc args = record pc { next_char_arg = []; args = args }

module _ (parse_int : Bytes → Option ℤ) (pc : Context) (o : PoptOption) (c : ℕ) (name : Bytes)
    (plain : All IsPlain (c ∷ name)) (found : find_option pc.table (c ∷ name) [] ≡ some o)
    (argument : is_flag o ≡ false) where
  -- An argument of two bytes and more that begins with a dash and names the option.
  found-turn :
      (d : ℕ) (s : Bytes) (rest : List Bytes)
      → long_name_of (b'-' ∷ d ∷ s) ≡ c ∷ name
      → next_opt_turn parse_int none (before pc ((b'-' ∷ d ∷ s) ∷ rest))
        ≡ use_argument parse_int o (cut_after (b'-' ∷ d ∷ s)) (before pc rest)
  unfolding next_opt_turn turn_at take_long take_short use_option equal
  found-turn d s rest e = rw (e, found, argument) refl

  two_dashes : (s : Bytes) → cut_before s ≡ c ∷ name → long_name_of (b'-' ∷ b'-' ∷ s) ≡ c ∷ name
  unfolding long_name_of cut_before equal
  two_dashes s e = rw e refl

  one_dash :
      (tail : Bytes)
      → cut_before (c ∷ name ++ tail) ≡ c ∷ name
      → (c == b'-') ≡ false
      → long_name_of (b'-' ∷ (c ∷ name ++ tail)) ≡ c ∷ name
  unfolding long_name_of cut_before equal
  one_dash tail e d = rw e (rw d refl)

  module _ (b : ℕ) (value : Bytes) (rest : List Bytes) where
    -- The first turn, whichever way the option is written.
    abbrev stored : Turn
    stored = use_value parse_int o (b ∷ value) (before pc rest)

    joined-turn :
        next_opt_turn parse_int none
          (before pc ((codes "--" ++ (c ∷ name) ++ (b'=' ∷ b ∷ value)) ∷ rest))
        ≡ stored
    unfolding use_argument cut_after
    joined-turn =
        let tail = b'=' ∷ b ∷ value in
        let text : cut_after (c ∷ name ++ tail) ≡ b ∷ value =
          cut_after-append (c ∷ name) (b ∷ value) plain in
        found-turn b'-' _ rest
          (two_dashes (c ∷ name ++ tail) (cut_before-append (c ∷ name) (b ∷ value) plain))
        ∙ ap (λ l. use_argument parse_int o l (before pc rest)) text

    dashed-turn :
        (c == b'-') ≡ false
        → next_opt_turn parse_int none
            (before pc ((codes "-" ++ (c ∷ name) ++ (b'=' ∷ b ∷ value)) ∷ rest))
          ≡ stored
    unfolding use_argument cut_after
    dashed-turn d =
        let tail = b'=' ∷ b ∷ value in
        let text : cut_after (c ∷ name ++ tail) ≡ b ∷ value =
          cut_after-append (c ∷ name) (b ∷ value) plain in
        found-turn c _ rest (one_dash tail (cut_before-append (c ∷ name) (b ∷ value) plain) d)
        ∙ ap (λ l. use_argument parse_int o l (before pc rest)) text

    split-turn :
        next_opt_turn parse_int none (before pc ((codes "--" ++ (c ∷ name)) ∷ (b ∷ value) ∷ rest))
        ≡ stored
    unfolding use_argument cut_after
    split-turn =
        found-turn b'-' _ _ (two_dashes (c ∷ name) (cut_before-IsPlain (c ∷ name) plain))
        ∙ ap (λ l. use_argument parse_int o l (before pc ((b ∷ value) ∷ rest)))
            (cut_after-IsPlain (c ∷ name) plain)

    -- An option that takes an argument and that the table has under a long name gives the same result
    -- whether it is written `--name=value`, `-name=value` or as the two arguments `--name` and `value`,
    -- if the name has no `=` and does not begin with a dash, and the value is not empty.
    pub next_opt_spelling :
        (c == b'-') ≡ false
        → (next_opt parse_int (before pc ((codes "--" ++ (c ∷ name) ++ (b'=' ∷ b ∷ value)) ∷ rest))
            ≡ next_opt parse_int (before pc ((codes "--" ++ (c ∷ name)) ∷ (b ∷ value) ∷ rest)))
          × (next_opt parse_int (before pc ((codes "-" ++ (c ∷ name) ++ (b'=' ∷ b ∷ value)) ∷ rest))
              ≡ next_opt parse_int (before pc ((codes "--" ++ (c ∷ name)) ∷ (b ∷ value) ∷ rest)))
    next_opt_spelling d = (
      next_opt-turn parse_int _ _ (joined-turn ∙ sym split-turn),
      next_opt-turn parse_int _ _ (dashed-turn d ∙ sym split-turn),
    )
