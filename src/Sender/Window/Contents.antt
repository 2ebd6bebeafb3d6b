-- ===== src/Sender/Window/Contents.antt =====
-- What the window's bytes are after it grew, and after bytes were written into it.
use go_rsync_receiver.Prelude.{
  ℕ, zero, suc, ◌+◌, ◌-◌, ◌≤◌, ◌≡◌, refl, sym, ap, ◌∙◌, [], ◌∷◌, ◌++◌, append_assoc, arith, Bytes,
  length, replicate, take, drop, length-append, length-take, length-drop, take-length-append,
}
use go_rsync_receiver.Sender.Search.Slices.{slice, slice-add, length-slice, drop-slice}
use go_rsync_receiver.Sender.Window.{grown, written}

-- A range of a range.
slice-slice :
    (content : Bytes) (p m at n : ℕ)
    → at + n ≤ m
    → p + m ≤ length content
    → slice (slice content p m) at n ≡ slice content (p + at) n
slice-slice content p m at n h k =
    let r = m - at - n in
    let whole : m ≡ at + (n + r) = omega arith in
    ap (λ (x : ℕ). slice (slice content p x) at n) whole
    ∙ ap (take n) (drop-slice content p at (n + r) (omega arith) ∙ slice-add content (p + at) n r)
    ∙ take-length-append n (slice content (p + at) n) (slice content (p + at + n) r)
        (length-slice content (p + at) n (omega arith))

-- A range of a window that holds `m` bytes of the file from `p` on.
pub slice-window :
    (content window : Bytes) (p m at n : ℕ)
    → at + n ≤ m
    → p + m ≤ length content
    → m ≤ length window
    → take m window ≡ slice content p m
    → slice window at n ≡ slice content (p + at) n
slice-window content window p m at n h k l e =
    let start : at ≡ 0 + at = omega arith in
    ap (λ (x : ℕ). slice window x n) start
    ∙ sym (slice-slice window 0 m at n h (omega arith))
    ∙ ap (λ (x : Bytes). slice x at n) e
    ∙ slice-slice content p m at n h k

take-append : (n : ℕ) (w z : Bytes) → n ≤ length w → take n (w ++ z) ≡ take n w
take-append zero w z h = refl
take-append (suc n) [] z h = absurd (omega arith)
take-append (suc n) (x ∷ w) z h = ap (◌∷◌ x) (take-append n w z (omega arith))

pub take-grown : (n m : ℕ) (w : Bytes) → n ≤ length w → take n (grown m w) ≡ take n w
unfolding grown
take-grown n m w h = take-append n w (replicate (m - length w) 0) h

length-replicate : (n : ℕ) → length {A = ℕ} (replicate n 0) ≡ n
length-replicate zero = refl
length-replicate (suc n) = omega (arith, length-replicate n)

pub length-grown : (m : ℕ) (w : Bytes) → length w ≤ m → length (grown m w) ≡ m
unfolding grown
length-grown m w h =
    omega (arith, length-append w (replicate (m - length w) 0), length-replicate (m - length w))

pub length-written :
    (at : ℕ) (chunk w : Bytes)
    → at + length chunk ≤ length w
    → length (written at chunk w) ≡ length w
unfolding written
length-written at chunk w h = omega (
  arith,
  length-append (take at w) (chunk ++ drop (at + length chunk) w),
  length-append chunk (drop (at + length chunk) w),
  length-take at w,
  length-drop (at + length chunk) w,
)

-- The window holds what it held before `at`, and then what was written.
pub take-written :
    (content : Bytes) (p at n : ℕ) (chunk w : Bytes)
    → at ≤ length w
    → length chunk ≡ n
    → take at w ≡ slice content p at
    → chunk ≡ slice content (p + at) n
    → take (at + n) (written at chunk w) ≡ slice content p (at + n)
unfolding written
take-written content p at n chunk w h l e c =
    let rest = drop (at + length chunk) w in
    let long : length (take at w ++ chunk) ≡ at + n =
      omega (arith, length-append (take at w) chunk, length-take at w) in
    ap (take (at + n)) (sym (append_assoc (take at w) chunk rest))
    ∙ take-length-append (at + n) (take at w ++ chunk) rest long
    ∙ (λ i. e i ++ c i)
    ∙ sym (slice-add content p at n)
