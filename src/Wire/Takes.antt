-- ===== src/Wire/Takes.antt =====
-- Reading on any input, well formed or not: a program that returns has taken a front of the input,
-- of some least length; it may fail, and does not panic.
use go_rsync_receiver.Prelude.{
  ℕ, ◌+◌, ◌≤◌, ◌≡◌, refl, sym, ap, ◌∙◌, Bool, true, false, [], ◌++◌, append_assoc, arith, Bytes,
  length, take, length-append, length-take, take-append-drop, leb, Bool-cases, inl, inr,
}
use go_rsync_receiver.Prelude.Int.{negsuc, ◌==ℤ◌}
use go_rsync_receiver.Outcome.{
  Outcome, ok, err, panic, out_of_fuel, Error, Prog, continue, reject_if,
}
use go_rsync_receiver.Wire.Stream.{Conn, read_full}
use go_rsync_receiver.Wire.Numbers.{read_byte, read_int32, read_long, read_int64}

abbrev pub Takes : {A : Type 0} → ℕ → Conn → Outcome A × Conn → Type 0
Takes k c (ok a, d) = (front : Bytes) × (c.input ≡ front ++ d.input) × (k ≤ length front)
Takes k c (err e, d) = Unit
Takes k c (panic, d) = ⊥
Takes k c (out_of_fuel, d) = ⊥

pub Takes-after :
    {A : Type 0} (k j : ℕ) (c d : Conn) (front : Bytes) (r : Outcome A × Conn)
    → c.input ≡ front ++ d.input
    → k ≤ length front
    → Takes j d r
    → Takes (k + j) c r
Takes-after k j c d front (ok a, t) e l (more, e', l') = (
  front ++ more,
  e ∙ ap (◌++◌ front) e' ∙ sym (append_assoc front more t.input),
  omega (arith, length-append front more),
)
Takes-after k j c d front (err x, t) e l h = tt
Takes-after k j c d front (panic, t) e l h = h
Takes-after k j c d front (out_of_fuel, t) e l h = h

pub Takes-bind :
    {A B : Type 0} (k j : ℕ) (c : Conn) (r : Outcome A × Conn) (f : A → Prog Conn B)
    → Takes k c r
    → ((a : A) (d : Conn) → Takes j d (f a d))
    → Takes (k + j) c (continue r f)
Takes-bind k j c (ok a, d) f (front, e, l) h = Takes-after k j c d front (f a d) e l (h a d)
Takes-bind k j c (err x, d) f t h = tt
Takes-bind k j c (panic, d) f t h = t
Takes-bind k j c (out_of_fuel, d) f t h = t

pub Takes-less :
    {A : Type 0} (k j : ℕ) (c : Conn) (r : Outcome A × Conn) → j ≤ k → Takes k c r → Takes j c r
Takes-less k j c (ok a, d) h (front, e, l) = (front, e, omega arith)
Takes-less k j c (err x, d) h t = tt
Takes-less k j c (panic, d) h t = t
Takes-less k j c (out_of_fuel, d) h t = t

pub Takes-return : {A : Type 0} (c : Conn) (a : A) → Takes 0 c (ok a, c)
Takes-return c a = ([], refl, omega arith)

pub reject_if-Takes : (b : Bool) (e : Error) (c : Conn) → Takes 0 c (reject_if b e c)
reject_if-Takes true e c = tt
reject_if-Takes false e c = ([], refl, omega arith)

pub read_full-Takes : (n : ℕ) (c : Conn) → Takes n c (read_full n c)
unfolding read_full
read_full-Takes n c = elim (Bool-cases (leb n (length c.input))) [
  | inl enough ↦
      rw enough
        (take n c.input, sym (take-append-drop n c.input), ground (arith, length-take n c.input))
  | inr short ↦ rw short tt
]

pub read_int32-Takes : (c : Conn) → Takes 4 c (read_int32 c)
unfolding read_int32
read_int32-Takes c =
    Takes-bind 4 0 c (read_full 4 c) _ (read_full-Takes 4 c) (λ a d. ([], refl, omega arith))

pub read_byte-Takes : (c : Conn) → Takes 1 c (read_byte c)
unfolding read_byte
read_byte-Takes c =
    Takes-bind 1 0 c (read_full 1 c) _ (read_full-Takes 1 c) (λ a d. ([], refl, omega arith))

read_long-Takes : (c : Conn) → Takes 0 c (read_long c)
unfolding read_long
read_long-Takes c =
    Takes-less 8 0 c _ (omega arith)
      (Takes-bind 8 0 c (read_full 8 c) _ (read_full-Takes 8 c) (λ a d. ([], refl, omega arith)))

pub read_int64-Takes : (c : Conn) → Takes 4 c (read_int64 c)
unfolding read_int64
read_int64-Takes c = Takes-bind 4 0 c (read_int32 c) _ (read_int32-Takes c) (λ z d.
    elim (Bool-cases (z ==ℤ negsuc 0)) [
      | inl is ↦ rw is (read_long-Takes d)
      | inr not_is ↦ rw not_is ([], refl, omega arith)
    ])

-- What ReadFull returned was next on the connection.
pub read_full-eq-ok :
    (n : ℕ) (c : Conn) {p : Bytes} {d : Conn} → read_full n c ≡ (ok p, d) → c.input ≡ p ++ d.input
unfolding read_full
read_full-eq-ok n c h = ground (arith, take-append-drop n c.input)
