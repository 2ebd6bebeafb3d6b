-- ===== src/Options/Rows.antt =====
-- The rows of the tables: what an option of the client or the server stores has the type of its field,
-- and the fields that say which side runs are left to the special cases.
use go_rsync_receiver.Prelude.{
  ◌≡◌, ap, inl, inr, refl, sym, subst, Bool, true, false, not, ◌&&◌, ◌||◌, Option, none, some, List,
  [], ◌∷◌, ◌++◌, Bytes, All, arith, Bool-cases, ◌==◌,
}
use go_rsync_receiver.Prelude.Int.{ℤ, pos, ltb_ℤ}
use go_rsync_receiver.Options.Fields.{
  Options, IntField, StringField, am_server, am_sender, set_int, set_string, int_index, min_int32,
}
use go_rsync_receiver.Options.Access.{sender, server}
use Prim.Native.Nat.{bit_and}
use go_rsync_receiver.Options.Popt.{
  Arg, nil_arg, int_arg, string_arg, number_arg, popt_argflag_or, PoptOption, arg_type,
  popt_arg_int, popt_arg_string,
}
use go_rsync_receiver.Options.NextOpt.{
  save_int_at, save_string_at, Saved, saved, save_panic, is_nil, is_flag, int_pointer,
  string_pointer, save_int, save_number, save_string, save_arg,
}
use go_rsync_receiver.Options.NextOpt.Progress.{IsFine, IsSafe}
use go_rsync_receiver.Options.Start.{with_gokrazy}
use go_rsync_receiver.Options.LongOptions.{table}
use go_rsync_receiver.Options.DaemonOptions.{gokrazy_table}

-- A process that sends is a server.
abbrev pub IsSided : Options → Type 0
IsSided o = sender o ≡ true → server o ≡ true

-- A field that does not say which side runs.
is_common : IntField → Bool
is_common f = not (int_index f == int_index am_sender) && not (int_index f == int_index am_server)

is_stored : PoptOption → Arg → Bool
is_stored o nil_arg = true
is_stored o (int_arg f) = is_common f && not (arg_type o == popt_arg_string)
is_stored o (string_arg f) = not (is_flag o) && not (arg_type o == popt_arg_int)
is_stored o (number_arg n) = false

are_stored : List PoptOption → Bool
are_stored [] = true
are_stored (o ∷ rows) = is_stored o o.arg && are_stored rows

pub other_field :
    (f g : IntField) (v : ℤ) (o : Options)
    → (int_index f == int_index g) ≡ false
    → (set_int f v o).ints g ≡ o.ints g
unfolding set_int
other_field f g v o e = rw e refl

set_int-IsSided :
    (f : IntField) (v : ℤ) (o : Options) → is_common f ≡ true → IsSided o → IsSided (set_int f v o)
unfolding is_common sender server
set_int-IsSided f v o c h =
    let not_sender : (int_index f == int_index am_sender) ≡ false = ground arith in
    let not_server : (int_index f == int_index am_server) ≡ false = ground arith in
    rw (other_field f am_sender v o not_sender, other_field f am_server v o not_server) h

pub set_string-IsSided :
    (f : StringField) (v : Bytes) (o : Options) → IsSided o → IsSided (set_string f v o)
unfolding set_string sender server
set_string-IsSided f v o h = h

abbrev Kept : {A : Type 0} → Saved A → Type 0
Kept = IsFine IsSided ⊥

save_int-IsSided :
    (row : PoptOption) (f : IntField) (v : ℤ) (o : Options)
    → int_pointer row.arg ≡ some f
    → is_common f ≡ true
    → IsSided o
    → Kept (save_int row v o)
unfolding save_int save_int_at
save_int-IsSided row f v o e c h =
    subst (λ x. Kept (save_int_at row v o x)) (sym e)
      (elim (Bool-cases (not (bit_and row.arg_info popt_argflag_or == 0))) [
        | inl or ↦ rw or (set_int-IsSided f _ o c h)
        | inr plain ↦ rw plain (set_int-IsSided f v o c h)
      ])

save_number-IsSided :
    (row : PoptOption) (f : IntField) (i : Option ℤ) (o : Options)
    → int_pointer row.arg ≡ some f
    → is_common f ≡ true
    → IsSided o
    → Kept (save_number row i o)
unfolding save_number
save_number-IsSided row f none o e c h = h
save_number-IsSided row f (some i) o e c h =
    elim (Bool-cases (ltb_ℤ i min_int32 || ltb_ℤ (pos 0x7FFFFFFF) i)) [
      | inl far ↦ rw far h
      | inr near ↦ rw near (without_result (save_int row i o) (save_int-IsSided row f i o e c h))
    ]
  where
    without_result :
        (r : Saved Bool)
        → Kept r
        → Kept (elim r [ saved _ after ↦ saved (pos 0) after | save_panic ↦ save_panic ])
    without_result (saved b after) k = k
    without_result save_panic k = k

save_arg-IsSided :
    (parse_int : Bytes → Option ℤ) (row : PoptOption) (f : IntField) (s : Bytes) (o : Options)
    → int_pointer row.arg ≡ some f
    → is_common f ≡ true
    → (arg_type row == popt_arg_string) ≡ false
    → IsSided o
    → Kept (save_arg parse_int row s o)
unfolding save_arg
save_arg-IsSided parse_int row f s o e c kind h = elim (Bool-cases (arg_type row == popt_arg_int)) [
  | inl int ↦ rw int (save_number-IsSided row f (parse_int s) o e c h)
  | inr other ↦ rw (other, kind) h
]

save_string-IsSided :
    (row : PoptOption) (f : StringField) (s : Bytes) (o : Options)
    → string_pointer row.arg ≡ some f
    → IsSided o
    → Kept (save_string row s o)
unfolding save_string save_string_at
save_string-IsSided row f s o e h =
    subst (λ x. Kept (save_string_at s o x)) (sym e) (set_string-IsSided f s o h)

save_text-IsSided :
    (parse_int : Bytes → Option ℤ) (row : PoptOption) (f : StringField) (s : Bytes) (o : Options)
    → string_pointer row.arg ≡ some f
    → (arg_type row == popt_arg_int) ≡ false
    → IsSided o
    → Kept (save_arg parse_int row s o)
unfolding save_arg
save_text-IsSided parse_int row f s o e kind h =
    elim (Bool-cases (arg_type row == popt_arg_string)) [
      | inl text ↦ rw (kind, text) (save_string-IsSided row f s o e h)
      | inr other ↦ rw (kind, other) h
    ]

is_stored-IsSafe :
    (parse_int : Bytes → Option ℤ) (row : PoptOption) (a : Arg)
    → row.arg ≡ a
    → is_stored row a ≡ true
    → IsSafe parse_int IsSided ⊥ row
unfolding is_stored is_nil int_pointer string_pointer
is_stored-IsSafe parse_int row nil_arg e h =
    let nil : is_nil row.arg ≡ true = ap is_nil e in
    record {
      flag = λ _ set p k. absurd (ground (arith, nil, set));
      value = λ _ set s p k. absurd (ground (arith, nil, set));
    }
is_stored-IsSafe parse_int row (int_arg f) e h =
    let pointer : int_pointer row.arg ≡ some f = ap int_pointer e in
    let common : is_common f ≡ true = ground arith in
    let kind : (arg_type row == popt_arg_string) ≡ false = ground arith in
    record {
      flag = λ _ set p k. save_int-IsSided row f _ p pointer common k;
      value = λ _ set s p k. save_arg-IsSided parse_int row f s p pointer common kind k;
    }
is_stored-IsSafe parse_int row (string_arg f) e h =
    let pointer : string_pointer row.arg ≡ some f = ap string_pointer e in
    let kind : (arg_type row == popt_arg_int) ≡ false = ground arith in
    record {
      flag = λ flag set p k. absurd (ground (arith, flag, h));
      value = λ _ set s p k. save_text-IsSided parse_int row f s p pointer kind k;
    }
is_stored-IsSafe parse_int row (number_arg n) e h = ground arith

are_stored-All :
    (parse_int : Bytes → Option ℤ) (rows : List PoptOption)
    → are_stored rows ≡ true
    → All (IsSafe parse_int IsSided ⊥) rows
unfolding are_stored
are_stored-All parse_int [] h = tt
are_stored-All parse_int (row ∷ rows) h = (
  is_stored-IsSafe parse_int row row.arg refl (ground arith),
  are_stored-All parse_int rows (ground arith),
)

-- The rows of the two sides, with the options of gokrazy and without them.
pub with_gokrazy-All :
    (parse_int : Bytes → Option ℤ) (gokrazy : Bool)
    → All (IsSafe parse_int IsSided ⊥) (with_gokrazy gokrazy table)
unfolding with_gokrazy are_stored is_stored is_common int_index arg_type is_flag
with_gokrazy-All parse_int true = are_stored-All parse_int (gokrazy_table ++ table) refl
with_gokrazy-All parse_int false = are_stored-All parse_int table refl
