-- ===== src/Sender/HashSearch/Complete.antt =====
-- The search finds a block that is there: a window that is one of the receiver's blocks is a hit.
use go_rsync_receiver.Prelude.{
  ℕ, ◌+◌, ◌^◌, ◌≤◌, ◌<◌, ◌≡◌, refl, sym, ap, List, [], ◌∷◌, Option, none, some, Bytes, equal,
  equal_iff, length, take, get_elem?, ◌==◌, Bool-cases, inl, inr, All,
}
use go_rsync_receiver.Prelude.Int.{ℤ, pos, pos_part, ◌==ℤ◌, ==ℤ_iff}
use go_rsync_receiver.Outcome.{ok, Outcome, Prog}
use go_rsync_receiver.Rsync.{SumBuf, SumHead}
use go_rsync_receiver.Checksum.{checksum2}
use go_rsync_receiver.Sender.Search.{Target, Search, sum_at}
use go_rsync_receiver.Sender.Search.Slices.{slice}
use go_rsync_receiver.Sender.Search.Tokens.{Serves}
use go_rsync_receiver.Sender.HashSearch.{compare_sum2, try_sum, try_target, try_targets}
use go_rsync_receiver.Prelude.{
  ltb, All-take, All-drop, zero, suc, ◌-◌, ◌*◌, ◌/◌, ◌%◌, ◌∙◌, ◌≢◌, ◌⊎◌, subst, arith, drop, min,
  true,
}
use go_rsync_receiver.Prelude.Bits.{bit_and_mask, bit_or_high_field}
use go_rsync_receiver.Prelude.Words.{shl32, shr}
use go_rsync_receiver.Checksum.{Sums, tag2, tag_of, checksum1}
use go_rsync_receiver.Sender.Roll.{halves}
use go_rsync_receiver.Checksum.Exact.{checksum1_exact}
use go_rsync_receiver.Sender.Search.Rolling.{Rolled}
use go_rsync_receiver.Sender.HashSearch.{sum_of_halves, look_from, look}
use go_rsync_receiver.Sender.HashSearch.Found.{short, HasBlock, Known, window_sum-slice}
use go_rsync_receiver.Sender.Requests.{build_table}
use go_rsync_receiver.Sender.Requests.Tables.{IsFirst, lookup_tag-build_table}
use Prim.Native.Nat.{bit_and}

sum_of_halves-halves : (c : ℕ) → c < 2 ^ 32 → sum_of_halves (halves c) ≡ c
unfolding sum_of_halves halves
sum_of_halves-halves c h =
    let low : bit_and (bit_and c 0xffff) 0xffff ≡ c % 2 ^ 16 =
      bit_and_mask 16 (bit_and c 0xffff) ∙ omega (arith, bit_and_mask 16 c) in
    let high : shl32 (shr c 16) 16 ≡ c / 2 ^ 16 * 2 ^ 16 = omega arith in
    rw (low, high) (bit_or_high_field (c / 2 ^ 16) 16 (c % 2 ^ 16) (omega arith) ∙ omega arith)

get_elem?-drop : (j n : ℕ) (l : List Target) → get_elem? (drop j l) n ≡ get_elem? l (j + n)
get_elem?-drop zero n l = ap (get_elem? l) (omega arith)
get_elem?-drop (suc j) n [] = refl
get_elem?-drop (suc j) n (x ∷ l) = get_elem?-drop j n l ∙ ap (get_elem? (x ∷ l)) shift
  where
    shift : suc (j + n) ≡ suc j + n
    shift = omega arith

get_elem?-take : (k n : ℕ) (l : List Target) → n < k → get_elem? (take k l) n ≡ get_elem? l n
get_elem?-take zero n l h = absurd (omega arith)
get_elem?-take (suc k) n [] h = refl
get_elem?-take (suc k) zero (x ∷ l) h = refl
get_elem?-take (suc k) (suc n) (x ∷ l) h = get_elem?-take k n l (omega arith)

from : Target → Option Target → Target
from x none = x
from x (some y) = y

All-get_elem? :
    (P : Target → Type 0) (l : List Target) (n : ℕ) (t : Target)
    → All P l
    → get_elem? l n ≡ some t
    → P t
unfolding from
All-get_elem? P [] n t a e = absurd (ground (arith, e))
All-get_elem? P (x ∷ l) zero t a e = subst P (ap (from x) e) a.0
All-get_elem? P (x ∷ l) (suc n) t a e = All-get_elem? P l n t a.1 e

-- The first target with a tag is not behind another with the tag, and in a sorted list all between
-- them have it.
first_early :
    (targets : List Target) (tag j n : ℕ) (t : Target)
    → IsFirst targets tag j
    → get_elem? targets n ≡ some t
    → t.tag ≡ tag
    → j ≤ n
first_early targets tag j n t first e h = elim (Bool-cases (ltb n j)) [
  | inl earlier ↦ absurd (first.before n t (ground (arith, earlier)) e h)
  | inr later ↦ ground (arith, later)
]

between :
    (targets : List Target) (tag j n : ℕ) (t : Target)
    → IsFirst targets tag j
    → ((a b : ℕ) (u v : Target)
        → a ≤ b
        → get_elem? targets a ≡ some u
        → get_elem? targets b ≡ some v
        → u.tag ≤ v.tag)
    → get_elem? targets n ≡ some t
    → t.tag ≡ tag
    → (i : ℕ) (u : Target) → j ≤ i
    → i ≤ n
    → get_elem? targets i ≡ some u
    → u.tag ≡ tag
between targets tag j n t first sorted e h i u lo hi f =
    omega
      (arith, sorted j i first.target u lo first.there f, sorted i n u t hi f e, first.tagged, h)

-- Something was found.
abbrev pub Finds : {M : Type 0} → Outcome (Option ℕ) × Search M → Type 0
Finds r = (i : ℕ) × (r.0 ≡ ok (some i))

module _ {M : Type 0} (ptr : ℕ → ℤ → M → Bytes × M) (content : Bytes) (Good : M → Type 0)
    (serves : Serves ptr content Good) (small : length content < 2 ^ 31) (md4 : Bytes → Bytes)
    (seed : ℤ) (head : SumHead) where
  -- The checksums of a block are those of the window.
  record Fits (offset len sum : ℕ) (sb : SumBuf) : Type 0 where
    weak : (sum == sb.sum1) ≡ true
    long : (pos len ==ℤ sb.len) ≡ true
    strong :
        equal (short head (checksum2 md4 seed (slice content offset len))) (short head sb.sum2)
        ≡ true

  try_sum-Finds :
      (offset len sum : ℕ) (t : Target) (sb : SumBuf)
      (next : Option Bytes → Prog (Search M) (Option ℕ)) (known : Option Bytes) (s : Search M)
      → Known ptr content Good serves small md4 seed head offset len known
      → Good s.map
      → offset + len ≤ length content
      → Fits offset len sum sb
        ⊎ ((known' : Option Bytes) (s' : Search M)
            → Known ptr content Good serves small md4 seed head offset len known'
            → Good s'.map
            → Finds (next known' s'))
      → Finds (try_sum ptr md4 seed head len offset sum t next known sb s)
  unfolding try_sum compare_sum2
  try_sum-Finds offset len sum t sb next known s k g h (inl fits) =
      let (m, e, good) =
        window_sum-slice ptr content Good serves small md4 seed head known offset len s k g h in
      (t.index, rw (fits.weak, fits.long, e) (rw fits.strong refl))
  try_sum-Finds offset len sum t sb next known s k g h (inr later) =
      elim (Bool-cases (sum == sb.sum1)) [
        | inr weak ↦ rw weak (later known s k g)
        | inl weak ↦ elim (Bool-cases (pos len ==ℤ sb.len)) [
          | inr other ↦ rw (weak, other) (later known s k g)
          | inl long ↦
              let sum2 = checksum2 md4 seed (slice content offset len) in
              let (m, e, good) =
                window_sum-slice ptr content Good serves small md4 seed head known offset len s k g
                  h in
              elim (Bool-cases (equal (short head sum2) (short head sb.sum2))) [
                | inl same ↦ (t.index, rw (weak, long, e) (rw same refl))
                | inr differs ↦
                    let found = later (some sum2) (record s { map = m }) refl good in
                    (found.0, rw (weak, long, e) (rw differs found.1))
              ]
        ]
      ]

  try_targets-Finds :
      (offset len tag sum : ℕ) (ts : List Target) (n : ℕ) (t : Target) (sb : SumBuf)
      (known : Option Bytes) (s : Search M)
      → All (HasBlock head) ts
      → get_elem? ts n ≡ some t
      → get_elem? head.sums t.index ≡ some sb
      → Fits offset len sum sb
      → ((i : ℕ) (u : Target) → i ≤ n → get_elem? ts i ≡ some u → u.tag ≡ tag)
      → Known ptr content Good serves small md4 seed head offset len known
      → Good s.map
      → offset + len ≤ length content
      → Finds (try_targets ptr md4 seed head len offset tag sum ts known s)
  unfolding try_targets try_target sum_at from
  try_targets-Finds offset len tag sum [] n t sb known s a e listed fits tagged k g h =
      absurd (ground (arith, e))
  try_targets-Finds offset len tag sum (u ∷ ts) zero t sb known s a e listed fits tagged k g h =
      let same : (u.tag == tag) ≡ true = ground (arith, tagged 0 u (omega arith) refl) in
      let is_t : u ≡ t = ap (from u) e in
      let there : get_elem? head.sums u.index ≡ some sb =
        ap (λ (x : Target). get_elem? head.sums x.index) is_t ∙ listed in
      rw (same, there)
        (try_sum-Finds offset len sum u sb (try_targets ptr md4 seed head len offset tag sum ts)
          known s k g h (inl fits))
  try_targets-Finds offset len tag sum (u ∷ ts) (suc n) t sb known s (here, a) e listed fits tagged
        k g h =
      let same : (u.tag == tag) ≡ true = ground (arith, tagged 0 u (omega arith) refl) in
      rw (same, here.1)
        (try_sum-Finds offset len sum u here.0 (try_targets ptr md4 seed head len offset tag sum ts)
          known s k g h
          (inr (λ known' s' k' g'.
            try_targets-Finds offset len tag sum ts n t sb known' s' a e listed fits
              (λ i v l f. tagged (suc i) v (omega (arith, l)) f) k' g' h)))

  -- A window whose weak checksum, length and strong checksum are those of one of the receiver's
  -- blocks is found: hashSearch's look at it gives the index of some block. The sums are those of the
  -- window; the targets are sorted by their tags, name blocks that the head has, and hold one for
  -- this block, with the tag of its checksum, at a place below ChecksumCount; the window serves the
  -- file's bytes.
  pub look-Finds :
      (targets : List Target) (n : ℕ) (t : Target) (sb : SumBuf) (s : Search M)
      → ((a b : ℕ) (u v : Target)
          → a ≤ b
          → get_elem? targets a ≡ some u
          → get_elem? targets b ≡ some v
          → u.tag ≤ v.tag)
      → All (HasBlock head) targets
      → n < pos_part head.checksum_count
      → get_elem? targets n ≡ some t
      → get_elem? head.sums t.index ≡ some sb
      → t.tag ≡ tag_of sb.sum1
      → Good s.map
      → Rolled content (pos_part head.block_length) s
      → sb.sum1 ≡ checksum1 (slice content s.offset s.k)
      → sb.len ≡ pos s.k
      → short head sb.sum2 ≡ short head (checksum2 md4 seed (slice content s.offset s.k))
      → Finds (look ptr md4 seed head (length content) targets (build_table targets) s)
  unfolding look look_from tag_of halves
  look-Finds targets n t sb s sorted all fits there listed tagged g rolled weak long strong =
      let c = checksum1 (slice content s.offset s.k) in
      let len = min (pos_part head.block_length) (length content - s.offset) in
      let tag = tag2 (s.sums.s1 % 2 ^ 16) (s.sums.s2 % 2 ^ 16) in
      let is_tag : tag ≡ tag_of c =
        ap (λ (x : Sums). tag2 (x.s1 % 2 ^ 16) (x.s2 % 2 ^ 16)) rolled.summed in
      let ours : t.tag ≡ tag = tagged ∙ ap tag_of weak ∙ sym is_tag in
      let sum_is : sum_of_halves s.sums ≡ c =
        ap sum_of_halves rolled.summed
        ∙ sum_of_halves-halves c (omega (arith, checksum1_exact (slice content s.offset s.k))) in
      let matching : Fits s.offset len (sum_of_halves s.sums) sb = record {
        weak = ground (arith, sum_is, weak);
        long = (==ℤ_iff (pos len) sb.len).1 (ap pos (sym rolled.window) ∙ sym long);
        strong =
            (equal_iff (short head (checksum2 md4 seed (slice content s.offset len)))
                (short head sb.sum2)).1
              (ap (λ (x : ℕ). short head (checksum2 md4 seed (slice content s.offset x)))
                  (sym rolled.window)
                ∙ sym strong);
      } in
      elim (lookup_tag-build_table targets tag) [
        | inr (nowhere, none_has) ↦
            absurd (All-get_elem? (λ (u : Target). u.tag ≢ tag) targets n t none_has there ours)
        | inl (j, found, first) ↦
            let early : j ≤ n = first_early targets tag j n t first there ours in
            let left = pos_part head.checksum_count - j in
            let whole : j + (n - j) ≡ n = omega arith in
            let at : (i : ℕ)
                → i ≤ n - j
                → get_elem? (take left (drop j targets)) i ≡ get_elem? targets (j + i) =
              λ i h.
                get_elem?-take left i (drop j targets) (omega arith) ∙ get_elem?-drop j i targets in
            rw found (
              try_targets-Finds s.offset len tag (sum_of_halves s.sums) (take left (drop j targets))
                (n - j) t sb none s
                (All-take (HasBlock head) left (drop j targets)
                  (All-drop (HasBlock head) j targets all))
                (at (n - j) (omega arith) ∙ ap (get_elem? targets) whole ∙ there) listed matching
                (λ i u h e.
                  between targets tag j n t first sorted there ours (j + i) u (omega arith)
                    (omega arith) (sym (at i h) ∙ e))
                tt g (omega (arith, rolled.inside)))
      ]
