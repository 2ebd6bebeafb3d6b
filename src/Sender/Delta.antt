-- ===== src/Sender/Delta.antt =====
-- From the receiver's request to its file: generateAndSendSums, receiveSums, hashSearch, receiveData.
use go_rsync_receiver.Prelude.{
  ℕ, zero, suc, ◌+◌, ◌*◌, ◌^◌, ◌≤◌, ◌<◌, ◌≡◌, refl, sym, ap, ◌∙◌, subst, List, [], ◌∷◌, ◌++◌,
  Option, none, some, arith, Bytes, length, length-append, append-nil, take, drop,
  take-length-append, drop-length-append, drop-drop, get_elem?, All, true,
}
use go_rsync_receiver.Prelude.Int.{ℤ, pos, pos_part}
use go_rsync_receiver.Outcome.{Outcome, ok, err, panic, out_of_fuel, Error}
use go_rsync_receiver.Wire.{Conn, int32_bytes}
use go_rsync_receiver.Wire.RoundTrip.{IsFresh}
use go_rsync_receiver.Rsync.{SumBuf, SumHead}
use go_rsync_receiver.Checksum.{checksum2}
use go_rsync_receiver.Files.{LocalFile, got, Opened}
use go_rsync_receiver.Receiver.Data.{Receiving, receive_data}
use go_rsync_receiver.Receiver.Data.Lengths.{HasLength, remainder, inside, no_remainder}
use go_rsync_receiver.Receiver.Generator.{generate_and_send_sums}
use go_rsync_receiver.Receiver.Generator.Sums.{IsContent}
use go_rsync_receiver.Sender.Blocks.{receive_sums}
use go_rsync_receiver.Sender.Blocks.RoundTrip.{SignatureOf, nil, cons, receive_sums_lem}
use go_rsync_receiver.Sender.Search.Slices.{slice}
use go_rsync_receiver.Sender.HashSearch.{last_of, size_is}
use go_rsync_receiver.Sender.HashSearch.Found.{short}
use go_rsync_receiver.Sender.HashSearch.Ready.{Signed}
use go_rsync_receiver.Sizes.{sum_sizes_sqroot}
use go_rsync_receiver.Sizes.Cover.{
  sum_sizes_sqroot-Describes, sum_sizes_sqroot-IsValid, sum_sizes_sqroot-IsI32,
}
use go_rsync_receiver.Sender.Search.{Target}
use go_rsync_receiver.Sender.Requests.{search_source}
use go_rsync_receiver.Sender.Window.{FileRead, map_file, ptr}
use go_rsync_receiver.Sender.Window.Loading.{IsFile}
use go_rsync_receiver.Sender.Window.Delivery.{receive_data-search_source}

-- Block `i` of the file `old`, as its checksums `sb` tell of it.
record IsBlock (md4 : Bytes → Bytes) (seed : ℤ) (sh : SumHead) (old : Bytes) (i : ℕ) (sb : SumBuf)
    : Type 0 where
  b : Bytes
  len : sb.len ≡ pos (length b)
  strong : sb.sum2 ≡ checksum2 md4 seed b
  long : HasLength sh i (length b)
  inside_file : i * pos_part sh.block_length + length b ≤ length old
  same : b ≡ slice old (i * pos_part sh.block_length) (length b)

get_ok : SumHead → Outcome SumHead → SumHead
get_ok h (ok x) = x
get_ok h (err e) = h
get_ok h panic = h
get_ok h out_of_fuel = h

get_or : SumBuf → Option SumBuf → SumBuf
get_or sb none = sb
get_or sb (some x) = x

module _ (md4 : Bytes → Bytes) (seed : ℤ) (sh : SumHead) (old : Bytes) where
  SignatureOf-IsBlock :
      (i at : ℕ) (sums : List SumBuf) (more : Bytes)
      → SignatureOf md4 seed sh i at sums more
      → more ≡ drop at old
      → at + length more ≡ length old
      → (j : ℕ) (sb : SumBuf) → get_elem? sums j ≡ some sb
      → IsBlock md4 seed sh old (i + j) sb
  unfolding get_or
  SignatureOf-IsBlock i at _ _ nil d l j sb e = absurd (ground (arith, e))
  SignatureOf-IsBlock i at _ _
        (cons {s = s} {more = more} b index offset len weak strong long start rest) d l zero sb e =
      let here : i + 0 ≡ i = omega arith in
      subst (λ (n : ℕ). IsBlock md4 seed sh old n sb) (sym here)
        (subst (IsBlock md4 seed sh old i) (ap (get_or s) e) (record {
          b = b;
          len = len;
          strong = strong;
          long = long;
          inside_file = omega (arith, start, l, length-append b more);
          same =
              sym (take-length-append (length b) b more refl)
              ∙ ap (take (length b)) d
              ∙ ap (λ (n : ℕ). slice old n (length b)) (sym start);
        }))
  SignatureOf-IsBlock i at _ _
        (cons {rest = sums} {more = more} b index offset len weak strong long start rest) d l
        (suc j) sb e =
      let next : i + 1 + j ≡ i + suc j = omega arith in
      subst (λ (n : ℕ). IsBlock md4 seed sh old n sb) next
        (SignatureOf-IsBlock (i + 1) (at + length b) sums more rest
          (sym (drop-length-append (length b) b more refl)
            ∙ ap (drop (length b)) d
            ∙ drop-drop at (length b) old)
          (omega (arith, l, length-append b more)) j sb e)

HasLength-pos :
    (sh : SumHead) (i len : ℕ) → 0 < pos_part sh.block_length → HasLength sh i len → 0 < len
HasLength-pos sh i zero h (remainder c r e) = absurd (r e)
HasLength-pos sh i (suc len) h (remainder c r e) = omega arith
HasLength-pos sh i len h (inside c e) = omega (arith, h, ap pos_part e)
HasLength-pos sh i len h (no_remainder c e) = omega (arith, h, ap pos_part e)

last_of-some : (sums : List SumBuf) → 0 < length sums → (sb : SumBuf) × (last_of sums ≡ some sb)
unfolding last_of
last_of-some [] h = absurd (omega arith)
last_of-some (x ∷ []) h = (x, refl)
last_of-some (x ∷ y ∷ rest) h = last_of-some (y ∷ rest) (omega arith)

SignatureOf-length :
    (md4 : Bytes → Bytes) (seed : ℤ) (sh : SumHead) (i at : ℕ) (sums : List SumBuf) (more : Bytes)
    → SignatureOf md4 seed sh i at sums more
    → 0 < length more
    → 0 < length sums
SignatureOf-length md4 seed sh i at _ _ nil h = absurd (omega arith)
SignatureOf-length md4 seed sh i at _ _ (cons b index offset len weak strong long start rest) h =
    omega arith

times_large : (i b : ℕ) → 0 < b → i ≤ i * b
times_large i b h = grind arith

-- A block of the old file is signed, if no other bytes of the new file have its strong checksum.
IsBlock-Signed :
    (md4 : Bytes → Bytes) (seed : ℤ) (head : SumHead) (file : LocalFile) (old content : Bytes)
    (i : ℕ) (sb : SumBuf)
    → ((x : Bytes) → length (md4 x) ≡ 16)
    → head.checksum_length ≡ pos 16
    → head.block_length ≡ pos (pos_part head.block_length)
    → 0 < pos_part head.block_length
    → IsContent file old
    → length old < 2 ^ 31
    → ((offset at len : ℕ)
        → checksum2 md4 seed (slice content offset len) ≡ checksum2 md4 seed (slice old at len)
        → slice content offset len ≡ slice old at len)
    → IsBlock md4 seed (record head { sums = [] }) old i sb
    → Signed md4 seed head (some file) content i sb
unfolding checksum2
IsBlock-Signed md4 seed head file old content i sb sixteen full whole_block some_block there small
      alone v =
    let size = pos_part head.block_length in
    let len = length v.b in
    let all : (x : Bytes) → short head (checksum2 md4 seed x) ≡ checksum2 md4 seed x = λ x.
      ap (λ (z : ℤ). take (pos_part z) (checksum2 md4 seed x)) full
      ∙ ap (take 16) (sym (append-nil (checksum2 md4 seed x)))
      ∙ take-length-append 16 (checksum2 md4 seed x) [] (sixteen _) in
    record {
      len = len;
      p = v.b;
      some_bytes = HasLength-pos (record head { sums = [] }) i len some_block v.long;
      listed = v.len;
      copies = record {
        file = file;
        block_len = size;
        number = omega (
          arith,
          v.inside_file,
          small,
          times_large i size some_block,
          HasLength-pos (record head { sums = [] }) i len some_block v.long,
        );
        there = refl;
        blocks = whole_block;
        long = v.long;
        read = there (i * size) len v.inside_file ∙ ap got (sym v.same);
      };
      signed = ap (short head) v.strong;
      alone = λ offset h e.
          alone offset (i * size) len
            (sym (all (slice content offset len)) ∙ e ∙ all v.b ∙ ap (checksum2 md4 seed) v.same)
          ∙ sym v.same;
    }

-- The receiver has the file `old`, and asks for `content` with generateAndSendSums; receiveSums reads
-- the request, and hashSearch answers it, with its tables and its window; the two connections are plain
-- and unused, and no write fails. Then receiveData, on the bytes behind the file's index, succeeds,
-- closes the pipe, has handed to the file system exactly `content`, and leaves what follows. `old` is
-- not empty and shorter than 2 ^ 31 bytes, its square root is computed as at most 2 ^ 29; `content`
-- has 1 to 256 * 1024 bytes; MD4 gives 16 bytes, and tells different ranges of the two files apart.
-- Seek and Read do what os.File documents, the file is at its start, sort.Slice adds no element.
pub receive_data-generate_and_send_sums :
    {F : Type 0} (seek : ℕ → F → Option Error × F) (read : ℕ → F → FileRead × F)
    (content old : Bytes) (At : ℕ → F → Type 0) (f : F) (md4 : Bytes → Bytes) (root : ℕ → ℕ)
    (seed : ℤ) (head : SumHead) (file : LocalFile) (sort : List Target → List Target) (index : ℤ)
    (whole : Opened) (name more rest : Bytes) (a b c : Conn) (s : Receiving)
    → IsFile seek read content At
    → At 0 f
    → 0 < length content
    → length content ≤ 256 * 1024
    → IsContent file old
    → 0 < length old
    → length old < 2 ^ 31
    → root (length old) ≤ 2 ^ 29
    → ((x : Bytes) → length (md4 x) ≡ 16)
    → ((offset at len : ℕ)
        → checksum2 md4 seed (slice content offset len) ≡ checksum2 md4 seed (slice old at len)
        → slice content offset len ≡ slice old at len)
    → ((P : Target → Type 0) (ts : List Target) → All P ts → All P (sort ts))
    → IsFresh a
    → b.input ≡ (generate_and_send_sums md4 root seed file (length old) a).1.output ++ more
    → (receive_sums b).0 ≡ ok head
    → IsFresh c
    → int32_bytes index ++ s.conn.input
      ≡ (search_source
          (ptr seek read)
          md4
          root
          seed
          sort
          index
          head
          (record { whole = whole; stat = size_is (length content); map = map_file f })
          c).1.output
        ++ rest
    → ((receive_data md4 seed name (some file) s).0 ≡ ok tt)
      × ((receive_data md4 seed name (some file) s).1.piped ≡ s.piped ++ content)
      × ((receive_data md4 seed name (some file) s).1.closed ≡ true)
      × ((receive_data md4 seed name (some file) s).1.conn.input ≡ rest)
unfolding get_ok
receive_data-generate_and_send_sums seek read content old At f md4 root seed head file sort index
      whole name more rest a b c s is_file at some_bytes short_file there some_old small fits
      sixteen alone keeps fresh asked known fresh' input =
    let len = length old in
    let short_old : len ≤ 700 * 2 ^ 30 = omega arith in
    let sh = sum_sizes_sqroot root len in
    let (sums, read_as, signature, _) =
      receive_sums_lem md4 root seed file old more a b sixteen there short_old fits fresh asked in
    let made : SumHead = record sh { sums = sums } in
    let same : head ≡ made = ap (get_ok head) (sym known ∙ read_as) in
    let d = sum_sizes_sqroot-Describes root len short_old fits in
    let v = sum_sizes_sqroot-IsValid root len short_old fits in
    let block : pos_part sh.block_length ≡ d.block = ap pos_part d.block_is in
    let some_block : 0 < pos_part made.block_length = omega (arith, block, d.short_end) in
    let (final, ends) =
      last_of-some sums (SignatureOf-length md4 seed _ 0 0 sums old signature some_old) in
    let blocks_of : (i : ℕ) (sb : SumBuf)
        → get_elem? sums i ≡ some sb
        → IsBlock md4 seed (record sh { sums = [] }) old i sb =
      λ i sb e.
        let first : 0 + i ≡ i = omega arith in
        subst (λ (n : ℕ). IsBlock md4 seed (record sh { sums = [] }) old n sb) first
          (SignatureOf-IsBlock md4 seed (record sh { sums = [] }) old 0 0 sums old signature refl
            (omega arith) i sb e) in
    receive_data-search_source seek read content At f md4 seed made (some file) root sort index
      whole final name rest c s is_file at some_bytes short_file some_block
      (λ i sb e.
        IsBlock-Signed md4 seed made file old content i sb sixteen (unfold sum_sizes_sqroot in refl)
          (d.block_is ∙ ap pos (sym block)) some_block there small alone (blocks_of i sb e))
      keeps ends
      (record {
        count_lo = v.count_lo;
        block_lo = v.block_lo;
        block_hi = v.block_hi;
        checksum_lo = v.checksum_lo;
        checksum_hi = v.checksum_hi;
        remainder_lo = v.remainder_lo;
        remainder_hi = v.remainder_hi;
      })
      (sum_sizes_sqroot-IsI32 root len short_old fits) fresh'
      (input
        ∙ ap
            (λ (h : SumHead).
              (search_source (ptr seek read) md4 root seed sort index h
                (record { whole = whole; stat = size_is (length content); map = map_file f })
                c).1.output
              ++ rest)
            same)
