-- ===== src/Outcome.antt =====
-- What a Go function that takes part in the protocol does: it returns a value, returns an error, or
-- panics, and leaves a new state in each case. `out_of_fuel` is no Go behaviour: a loop of the model
-- used up the bound on its rounds.
use go_rsync_receiver.Prelude.{ℕ, ◌≡◌, refl, Bool, true, false, Bytes}
use go_rsync_receiver.Prelude.Int.{ℤ}

-- One constructor for each error value that the modelled files return.
pub data Error : Type 0 where
  -- io.EOF and io.ErrUnexpectedEOF of a read
  eof unexpected_eof : Error
  -- an error of the connection's writer
  write_failed : Error
  -- rsyncwire.MultiplexReader: a message too long, the peer's error message, a tag that is not data
  too_long : ℕ → Error
  remote : Bytes → Error
  unexpected_tag : ℕ → Error
  -- rsync.SumHead.ReadFrom
  bad_count bad_block bad_checksum bad_remainder : ℤ → Error
  -- rsyncreceiver: the name of a list entry is too long, a copy without a local file, a checksum
  -- that differs
  name_overflow : ℤ → ℤ → Error
  no_local_file : Error
  file_corruption : Bytes → Error
  -- rsyncsender: the peer's last number is not -1
  bad_finish : ℤ → Error
  -- errors of the file system behind utils.FS: an *os.PathError, or any other
  path_error other_error : Error

pub data Outcome {ℓ} (A : Type ℓ) : Type ℓ where
  ok : A → Outcome A
  err : Error → Outcome A
  panic : Outcome A
  out_of_fuel : Outcome A

-- A step over a state of type `S`.
abbrev pub Prog : Type 0 → Type 0 → Type 0
Prog S A = S → Outcome A × S

abbrev pub continue : {S A B : Type 0} → (Outcome A × S) → (A → Prog S B) → Outcome B × S
continue (ok a, s) f = f a s
continue (err e, s) f = (err e, s)
continue (panic, s) f = (panic, s)
continue (out_of_fuel, s) f = (out_of_fuel, s)

infixl 5 ◌>>=◌ ◌>>◌
abbrev pub ◌>>=◌ : {S A B : Type 0} → Prog S A → (A → Prog S B) → Prog S B
◌>>=◌ m f s = continue (m s) f

abbrev pub ◌>>◌ : {S A B : Type 0} → Prog S A → Prog S B → Prog S B
◌>>◌ m k s = continue (m s) (λ _. k)

abbrev pub return : {S A : Type 0} → A → Prog S A
return a s = (ok a, s)

abbrev pub fail : {S A : Type 0} → Error → Prog S A
fail e s = (err e, s)

-- `if bad { return err }`
abbrev pub reject_if : {S : Type 0} → Bool → Error → Prog S (Unit {0})
reject_if true e s = (err e, s)
reject_if false e s = (ok tt, s)

-- Inversion of a bind that returned a value.
pub continue-eq-ok :
    {S A B : Type 0} (r : Outcome A × S) (f : A → Prog S B) {b : B} {t : S}
    → continue r f ≡ (ok b, t)
    → (a : A) × (s : S) × (r ≡ (ok a, s)) × (f a s ≡ (ok b, t))
continue-eq-ok (ok a, s) f h = (a, s, refl, h)
continue-eq-ok (err e, s) f h = cc
continue-eq-ok (panic, s) f h = cc
continue-eq-ok (out_of_fuel, s) f h = cc
