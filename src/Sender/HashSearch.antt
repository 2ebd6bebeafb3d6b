-- ===== src/Sender/HashSearch.antt =====
-- hashSearch of rsyncsender/match.go: the table of the receiver's blocks, and the loop.
pub mod Found
pub mod Complete
pub mod Ready
pub mod Taking
pub mod Rounds
pub mod Progress
pub mod Sound
pub mod Delivery
use go_rsync_receiver.Prelude.{
  ℕ, zero, suc, ◌+◌, ◌-◌, ◌%◌, ◌^◌, ◌*◌, min, max, Bool, true, false, not, List, [], ◌∷◌, Option,
  none, some, Bytes, equal, length, take, drop, get_elem?, leb, ◌==◌, if◌then◌else◌,
}
use go_rsync_receiver.Prelude.Int.{ℤ, pos, pos_part, ◌-ℤ◌, ◌==ℤ◌}
use go_rsync_receiver.Prelude.Words.{to_u32, shl32}
use go_rsync_receiver.Outcome.{
  Outcome, ok, err, panic, out_of_fuel, Error, Prog, return, fail, ◌>>=◌, ◌>>◌,
}
use go_rsync_receiver.Wire.{Conn, le_bytes, write, write_int32}
use go_rsync_receiver.Rsync.{SumBuf, SumHead, write_to}
use go_rsync_receiver.Checksum.{Sums, tag2, checksum2}
use go_rsync_receiver.Sender.Search.{
  Target, Search, Token, block, last, sum_at, ask, on_wire, matched, read_chunk, advance,
  skip_block,
}
use Prim.Native.Nat.{bit_and, bit_or}

-- `tagTable`: the assignments, the last one first.
abbrev pub TagTable : Type 0
TagTable = List (ℕ × ℕ)

unfoldable pub lookup_tag : ℕ → TagTable → Option ℕ
lookup_tag tag [] = none
lookup_tag tag ((t, j) ∷ rest) = if t == tag then some j else lookup_tag tag rest

-- What opening the file and its Stat give.
pub data Stat : Type 0 where
  no_file : Error → Stat
  size_is : ℕ → Stat

-- `readSize`; 3 * 2 ^ 29 fits an int32.
unfoldable pub read_size : SumHead → ℕ
read_size head = max (3 * pos_part head.block_length) (256 * 1024)

-- `sum`, put together from the rolled halves.
unfoldable pub sum_of_halves : Sums → ℕ
sum_of_halves s = bit_or (bit_and s.s1 0xffff) (shl32 s.s2 16)

-- `end`: at most the first offset behind which the last block does not fit; 0 stands for what is
-- below it too, since all that the code asks is whether an offset is below it.
unfoldable pub search_end : ℕ → SumBuf → ℕ
search_end size sb = pos_part (pos (size + 1) -ℤ sb.len)

unfoldable pub last_of : List SumBuf → Option SumBuf
last_of [] = none
last_of (sb ∷ []) = some sb
last_of (sb ∷ next ∷ rest) = last_of (next ∷ rest)

unfoldable pub at_end : {M : Type 0} → ℕ → Prog (Search M) Bool
at_end end s = (ok (leb end s.offset), s)

unfoldable pub write_sum : {M : Type 0} → (Bytes → Bytes) → Prog (Search M) (Unit {0})
write_sum md4 s = on_wire (write (md4 s.hashed)) s

-- The variables as hashSearch sets them; the seed is hashed first.
unfoldable pub searching : {M : Type 0} → ℤ → M → Conn → Search M
searching seed map c = record {
  conn = c;
  hashed = le_bytes 4 (to_u32 seed);
  map = map;
  last_match = 0;
  offset = 0;
  k = 0;
  sums = record { s1 = 0; s2 = 0 };
}

module _ {M : Type 0} (ptr : ℕ → ℤ → M → Bytes × M) (md4 : Bytes → Bytes) (seed : ℤ) where
  -- `sum2` of the window, made once.
  unfoldable pub window_sum : Option Bytes → ℕ → ℕ → Prog (Search M) Bytes
  window_sum (some sum2) offset len = return sum2
  window_sum none offset len = do buf ← ask ptr offset len; return (checksum2 md4 seed buf)

  -- The comparison of the strong checksums; `next` goes on with the targets behind this one.
  unfoldable pub compare_sum2 :
      SumHead
      → Target
      → SumBuf
      → (Option Bytes → Prog (Search M) (Option ℕ))
      → Bytes
      → Prog (Search M) (Option ℕ)
  compare_sum2 head t sb next sum2 =
      if equal (take (pos_part head.checksum_length) sum2)
        (take (pos_part head.checksum_length) sb.sum2)
      then return (some t.index)
      else next (some sum2)

  unfoldable pub try_sum :
      SumHead
      → ℕ
      → ℕ
      → ℕ
      → Target
      → (Option Bytes → Prog (Search M) (Option ℕ))
      → Option Bytes
      → SumBuf
      → Prog (Search M) (Option ℕ)
  try_sum head len offset sum t next known sb =
      if not (sum == sb.sum1)
      then next known
      else if not (pos len ==ℤ sb.len)
      then next known
      else (do sum2 ← window_sum known offset len; compare_sum2 head t sb next sum2)

  unfoldable pub try_target :
      SumHead
      → ℕ
      → ℕ
      → ℕ
      → ℕ
      → Target
      → (Option Bytes → Prog (Search M) (Option ℕ))
      → Option Bytes
      → Prog (Search M) (Option ℕ)
  try_target head len offset tag sum t next known =
      if t.tag == tag
      then (do
        sb ← sum_at (get_elem? head.sums t.index)
        try_sum head len offset sum t next known sb)
      else return none

  -- The targets from `j` on, and the index of the first block that matches.
  unfoldable pub try_targets :
      SumHead → ℕ → ℕ → ℕ → ℕ → List Target → Option Bytes → Prog (Search M) (Option ℕ)
  try_targets head len offset tag sum [] known = return none
  try_targets head len offset tag sum (t ∷ rest) known =
      try_target head len offset tag sum t (try_targets head len offset tag sum rest) known

  -- `targets` has ChecksumCount elements.
  unfoldable pub look_from : SumHead → ℕ → List Target → ℕ → Option ℕ → Prog (Search M) (Option ℕ)
  look_from head size targets tag none s = (ok none, s)
  look_from head size targets tag (some j) s =
      try_targets head (min (pos_part head.block_length) (size - s.offset)) s.offset tag
        (sum_of_halves s.sums) (take (pos_part head.checksum_count - j) (drop j targets)) none s

  unfoldable pub look : SumHead → ℕ → List Target → TagTable → Prog (Search M) (Option ℕ)
  look head size targets table s =
      let tag = tag2 (s.sums.s1 % 2 ^ 16) (s.sums.s2 % 2 ^ 16) in
      look_from head size targets tag (lookup_tag tag table) s

  -- What is done with a match; it says whether the loop is left.
  unfoldable pub take_match : SumHead → ℕ → ℕ → Option ℕ → Prog (Search M) Bool
  take_match head size end none s = (ok false, s)
  take_match head size end (some i) s =
      (do
        matched ptr head s.offset (block i)
        sb ← sum_at (get_elem? head.sums i)
        skip_block (pos_part sb.len)
        read_chunk ptr head size
        at_end end)
        s

  -- A round, which says whether there is another one.
  unfoldable pub round : SumHead → ℕ → ℕ → List Target → TagTable → Prog (Search M) Bool
  round head size end targets table = do
    hit ← look head size targets table
    left ← take_match head size end hit
    if left then return false else advance ptr head size end

  unfoldable pub search_loop :
      ℕ → SumHead → ℕ → ℕ → List Target → TagTable → Prog (Search M) (Unit {0})
  search_loop zero head size end targets table s = (out_of_fuel, s)
  search_loop (suc fuel) head size end targets table s =
      (do
        more ← round head size end targets table
        if more then search_loop fuel head size end targets table else return tt)
        s

  -- A round moves the offset on, which stays below the size of the file.
  unfoldable pub search_from :
      SumHead → ℕ → List Target → TagTable → SumBuf → Prog (Search M) (Unit {0})
  search_from head size targets table final = do
    read_chunk ptr head size
    search_loop (suc (size + 1)) head size (search_end size final) targets table
    matched ptr head size last
    write_sum md4

  -- hashSearch, on a file that is open: its size, and the map that mapFile made of it.
  unfoldable pub search_file : ℤ → SumHead → ℕ → List Target → TagTable → Prog (Search M) (Unit {0})
  search_file file_index head size targets table = do
    on_wire (write_int32 file_index)
    on_wire (write_to head)
    final ← sum_at (last_of head.sums)
    search_from head size targets table final

  -- hashSearch: the size of the file, or the error of os.OpenFile or of Stat. `st.lastMatch` is 0.
  unfoldable pub hash_search :
      (ℕ → ℕ → ℕ → M) → ℤ → SumHead → List Target → TagTable → Stat → Prog Conn (Unit {0})
  hash_search map_file file_index head targets table (no_file e) c = (err e, c)
  hash_search map_file file_index head targets table (size_is size) c =
      let r =
        search_file file_index head size targets table
          (searching seed (map_file size (read_size head) (pos_part head.block_length)) c) in
      (r.0, r.1.conn)
