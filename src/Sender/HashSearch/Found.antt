-- ===== src/Sender/HashSearch/Found.antt =====
-- The linear search through the targets: what it finds is a block with the window's bytes.
use go_rsync_receiver.Prelude.{
  ℕ, ◌+◌, ◌^◌, ◌≤◌, ◌<◌, ◌≡◌, refl, sym, ap, List, [], ◌∷◌, Option, none, some, Bytes, equal,
  equal_iff, length, take, get_elem?, ◌==◌, Bool-cases, inl, inr, All,
}
use go_rsync_receiver.Prelude.Int.{ℤ, pos, pos_part, ◌==ℤ◌, ==ℤ_iff}
use go_rsync_receiver.Outcome.{ok, Outcome, Prog}
use go_rsync_receiver.Rsync.{SumBuf, SumHead}
use go_rsync_receiver.Checksum.{checksum2}
use go_rsync_receiver.Sender.Search.{Target, Search, sum_at}
use go_rsync_receiver.Sender.Search.Slices.{slice}
use go_rsync_receiver.Sender.Search.Tokens.{Serves, ask-slice}
use go_rsync_receiver.Sender.HashSearch.{window_sum, compare_sum2, try_sum, try_target, try_targets}

-- The first bytes of a strong checksum, as many as the head says.
abbrev pub short : SumHead → Bytes → Bytes
short head sum2 = take (pos_part head.checksum_length) sum2

-- The bytes `p` of the window at `offset` have the length and the strong checksum of block `i`.
pub record Hits (md4 : Bytes → Bytes) (seed : ℤ) (head : SumHead) (p : Bytes) (len i : ℕ)
    : Type 0 where
  pub sb : SumBuf
  pub listed : get_elem? head.sums i ≡ some sb
  pub long : sb.len ≡ pos len
  pub same : short head (checksum2 md4 seed p) ≡ short head sb.sum2

-- A target names a block that the head has.
abbrev pub HasBlock : SumHead → Target → Type 0
HasBlock head t = (sb : SumBuf) × (get_elem? head.sums t.index ≡ some sb)

module _ {M : Type 0} (ptr : ℕ → ℤ → M → Bytes × M) (content : Bytes) (Good : M → Type 0)
    (serves : Serves ptr content Good) (small : length content < 2 ^ 31) (md4 : Bytes → Bytes)
    (seed : ℤ) (head : SumHead) where
  abbrev pub Hit : ℕ → ℕ → Option ℕ → Type 0
  Hit offset len none = Unit {0}
  Hit offset len (some i) = Hits md4 seed head (slice content offset len) len i

  -- The search changes the map at most, and what it found hits.
  pub record Looked (offset len : ℕ) (s : Search M) (r : Outcome (Option ℕ) × Search M)
      : Type 0 where
    pub hit : Option ℕ
    pub map : M
    pub result : r ≡ (ok hit, record s { map = map })
    pub good : Good map
    pub found : Hit offset len hit

  -- `sum2`, if it is there, is that of the window.
  abbrev pub Known : ℕ → ℕ → Option Bytes → Type 0
  Known offset len none = Unit {0}
  Known offset len (some sum2) = sum2 ≡ checksum2 md4 seed (slice content offset len)

  abbrev GoesOn : ℕ → ℕ → (Option Bytes → Prog (Search M) (Option ℕ)) → Type 0
  GoesOn offset len next =
      (known : Option Bytes) (s : Search M)
      → Known offset len known
      → Good s.map
      → Looked offset len s (next known s)

  pub window_sum-slice :
      (known : Option Bytes) (offset len : ℕ) (s : Search M)
      → Known offset len known
      → Good s.map
      → offset + len ≤ length content
      → (m : M) × (window_sum ptr md4 seed known offset len s
          ≡ (ok (checksum2 md4 seed (slice content offset len)), record s { map = m }))
        × Good m
  unfolding window_sum
  window_sum-slice none offset len s k g h =
      let (m, e, good) = ask-slice ptr content Good serves small offset len s g h in
      (m, rw e refl, good)
  window_sum-slice (some sum2) offset len s k g h = (s.map, ap (λ (x : Bytes). (ok x, s)) k, g)

  compare_sum2-Looked :
      (offset len : ℕ) (t : Target) (sb : SumBuf) (next : Option Bytes → Prog (Search M) (Option ℕ))
      (s : Search M)
      → GoesOn offset len next
      → Good s.map
      → get_elem? head.sums t.index ≡ some sb
      → sb.len ≡ pos len
      → Looked offset len s (
          compare_sum2 ptr md4 seed head t sb next
            (checksum2 md4 seed (slice content offset len))
            s)
  unfolding compare_sum2
  compare_sum2-Looked offset len t sb next s goes g listed long =
      let sum2 = checksum2 md4 seed (slice content offset len) in
      elim (Bool-cases (equal (short head sum2) (short head sb.sum2))) [
        | inl same ↦ record {
          hit = some t.index;
          map = s.map;
          result = rw same refl;
          good = g;
          found = record {
            sb = sb;
            listed = listed;
            long = long;
            same = (equal_iff (short head sum2) (short head sb.sum2)).0 same;
          };
        }
        | inr differs ↦
            let rest = goes (some sum2) s refl g in
            record {
              hit = rest.hit;
              map = rest.map;
              result = rw differs rest.result;
              good = rest.good;
              found = rest.found;
            }
      ]

  try_sum-Looked :
      (offset len sum : ℕ) (t : Target) (sb : SumBuf)
      (next : Option Bytes → Prog (Search M) (Option ℕ)) (known : Option Bytes) (s : Search M)
      → GoesOn offset len next
      → Known offset len known
      → Good s.map
      → offset + len ≤ length content
      → get_elem? head.sums t.index ≡ some sb
      → Looked offset len s (try_sum ptr md4 seed head len offset sum t next known sb s)
  unfolding try_sum
  try_sum-Looked offset len sum t sb next known s goes k g h listed =
      elim (Bool-cases (sum == sb.sum1)) [
        | inr weak ↦ rw weak (goes known s k g)
        | inl weak ↦ elim (Bool-cases (pos len ==ℤ sb.len)) [
          | inr other ↦ rw (weak, other) (goes known s k g)
          | inl long ↦
              let (m, e, good) = window_sum-slice known offset len s k g h in
              let t' : Search M = record s { map = m } in
              let r =
                compare_sum2-Looked offset len t sb next t' goes good listed
                  (sym ((==ℤ_iff (pos len) sb.len).0 long)) in
              record {
                hit = r.hit;
                map = r.map;
                result = rw (weak, long, e) r.result;
                good = r.good;
                found = r.found;
              }
        ]
      ]

  pub try_targets-Looked :
      (offset len tag sum : ℕ) (ts : List Target) (known : Option Bytes) (s : Search M)
      → All (HasBlock head) ts
      → Known offset len known
      → Good s.map
      → offset + len ≤ length content
      → Looked offset len s (try_targets ptr md4 seed head len offset tag sum ts known s)
  unfolding try_targets try_target sum_at
  try_targets-Looked offset len tag sum [] known s a k g h = record {
    hit = none;
    map = s.map;
    result = refl;
    good = g;
    found = tt;
  }
  try_targets-Looked offset len tag sum (t ∷ ts) known s ((sb, listed), a) k g h =
      elim (Bool-cases (t.tag == tag)) [
        | inr other ↦ record {
          hit = none;
          map = s.map;
          result = rw other refl;
          good = g;
          found = tt;
        }
        | inl same ↦
            let next = try_targets ptr md4 seed head len offset tag sum ts in
            let r =
              try_sum-Looked offset len sum t sb next known s
                (λ known' s' k' g'. try_targets-Looked offset len tag sum ts known' s' a k' g' h) k
                g h listed in
            record {
              hit = r.hit;
              map = r.map;
              result = rw (same, listed) r.result;
              good = r.good;
              found = r.found;
            }
      ]
