-- ===== src/Sender/Search/Slices.antt =====
-- Ranges of a file, as the window of the search moves over them.
use go_rsync_receiver.Prelude.{
  ℕ, zero, suc, ◌+◌, ◌≤◌, ◌<◌, ◌≡◌, refl, sym, ap, ◌∙◌, [], ◌∷◌, ◌++◌, some, arith, Bytes, length,
  take, drop, drop-drop, length-take, length-drop, drop-length-append, get_elem?,
}

take-add : (n m : ℕ) (xs : Bytes) → take (n + m) xs ≡ take n xs ++ take m (drop n xs)
take-add zero m xs = ap (λ (k : ℕ). take k xs) (omega arith)
take-add (suc n) m [] = ap (λ (k : ℕ). take {A = ℕ} k []) shift ∙ sym (nothing m)
  where
    shift : suc n + m ≡ suc (n + m)
    shift = omega arith

    nothing : (k : ℕ) → take {A = ℕ} k [] ≡ []
    nothing zero = refl
    nothing (suc k) = refl
take-add (suc n) m (x ∷ xs) = ap (λ (k : ℕ). take k (x ∷ xs)) shift ∙ ap (◌∷◌ x) (take-add n m xs)
  where
    shift : suc n + m ≡ suc (n + m)
    shift = omega arith

-- `n` bytes of a file from `at` on.
abbrev pub slice : Bytes → ℕ → ℕ → Bytes
slice content at n = take n (drop at content)

pub slice-add :
    (content : Bytes) (at n m : ℕ)
    → slice content at (n + m) ≡ slice content at n ++ slice content (at + n) m
slice-add content at n m =
    take-add n m (drop at content)
    ∙ ap (λ (x : Bytes). slice content at n ++ take m x) (drop-drop at n content)

pub length-slice :
    (content : Bytes) (at n : ℕ) → at + n ≤ length content → length (slice content at n) ≡ n
length-slice content at n h = omega (arith, length-take n (drop at content), length-drop at content)

pub drop-slice :
    (content : Bytes) (at b n : ℕ)
    → at + b ≤ length content
    → drop b (slice content at (b + n)) ≡ slice content (at + b) n
drop-slice content at b n h =
    ap (drop b) (slice-add content at b n)
    ∙ drop-length-append b (slice content at b) (slice content (at + b) n)
        (length-slice content at b h)

single : (l : Bytes) → length l ≡ 1 → (x : ℕ) × (l ≡ x ∷ [])
single [] e = absurd (omega arith)
single (x ∷ []) e = (x, refl)
single (x ∷ y ∷ l) e = absurd (omega arith)

-- The first byte of a window that is not empty, and the window behind it.
pub slice-first :
    (content : Bytes) (at n : ℕ)
    → at + suc n ≤ length content
    → (x : ℕ) × (slice content at (suc n) ≡ x ∷ slice content (at + 1) n)
slice-first content at n h =
    let (x, e) = single (slice content at 1) (length-slice content at 1 (omega arith)) in
    let shift : suc n ≡ 1 + n = omega arith in
    (
      x,
      ap (slice content at) shift
          ∙ slice-add content at 1 n
          ∙ ap (λ (l : Bytes). l ++ slice content (at + 1) n) e,
    )

-- A window that grows by the byte behind it.
pub slice-last :
    (content : Bytes) (at n : ℕ)
    → at + n < length content
    → (y : ℕ) × (slice content at (n + 1) ≡ slice content at n ++ (y ∷ []))
slice-last content at n h =
    let (y, e) =
      single (slice content (at + n) 1) (length-slice content (at + n) 1 (omega arith)) in
    (y, slice-add content at n 1 ∙ ap (λ (l : Bytes). slice content at n ++ l) e)

pub get_elem?-append_last :
    (l : Bytes) (y n : ℕ) → length l ≡ n → get_elem? (l ++ (y ∷ [])) n ≡ some y
get_elem?-append_last [] y zero e = refl
get_elem?-append_last [] y (suc n) e = absurd (omega arith)
get_elem?-append_last (x ∷ l) y zero e = absurd (omega arith)
get_elem?-append_last (x ∷ l) y (suc n) e = get_elem?-append_last l y n (omega arith)
