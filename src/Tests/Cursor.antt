-- ===== src/Tests/Cursor.antt =====
-- Two small files, and a file by its cursor, for the runs of the search.
use go_rsync_receiver.Prelude.{
  ℕ, ◌+◌, ◌<◌, ◌≡◌, refl, sym, subst, List, [], ◌∷◌, Option, none, arith, Bytes, length,
}
use go_rsync_receiver.Outcome.{Error, eof}
use go_rsync_receiver.Sender.Search.{Target}
use go_rsync_receiver.Sender.Search.Slices.{slice, slice-first}
use go_rsync_receiver.Sender.Window.{FileRead, read_error, read_bytes}
use go_rsync_receiver.Sender.Window.Loading.{ReadsSome, IsFile}

abbrev pub five_seven : Bytes
five_seven = 5 ∷ 7 ∷ []

-- The receiver has one byte, 7.
abbrev pub seven : Bytes
seven = 7 ∷ []

-- A file of these bytes, by its cursor, that gives one byte to a read.
abbrev pub seek_to_cursor : ℕ → ℕ → Option Error × ℕ
seek_to_cursor n f = (none, n)

abbrev read_result : Bytes → ℕ → FileRead × ℕ
read_result [] f = (read_error eof, f)
read_result (b ∷ rest) f = (read_bytes b rest, f + length (b ∷ rest))

abbrev pub read_one : Bytes → ℕ → ℕ → FileRead × ℕ
read_one content n f = read_result (slice content f 1) f

abbrev pub AtCursor : ℕ → ℕ → Type 0
AtCursor n f = f ≡ n

read_one-ReadsSome :
    (content : Bytes) (n p : ℕ)
    → 0 < n
    → p < length content
    → ReadsSome content AtCursor p n (read_one content n p)
read_one-ReadsSome content n p h k =
    let (x, e) = slice-first content p 0 (omega arith) in
    rw e (record {
      first = x;
      rest = [];
      result = refl;
      fits = omega arith;
      inside = omega arith;
      same = sym e;
      at = refl;
    })

pub one_by_one-IsFile :
    (content : Bytes) → IsFile seek_to_cursor (read_one content) content AtCursor
one_by_one-IsFile content = record {
  seeks = λ n p f a h. (refl, refl);
  reads = λ n p f a h k.
      subst (λ (x : ℕ). ReadsSome content AtCursor p n (read_one content n x)) (sym a)
        (read_one-ReadsSome content n p h k);
}

abbrev pub as_given : List Target → List Target
as_given ts = ts
