-- ===== src/Rsync/Heads.antt =====
-- A head is read back as it was written, and whatever is read is in range.
use go_rsync_receiver.Prelude.{◌≡◌, refl, ap, ◌∙◌, Bool, false, ◌++◌, append-nil, arith, Bytes}
use go_rsync_receiver.Prelude.Int.{ℤ, pos, negsuc, ◌≤ℤ◌}
use go_rsync_receiver.Prelude.Words.{IsI32}
use go_rsync_receiver.Outcome.{ok, Error, reject_if, return, continue, continue-eq-ok}
use go_rsync_receiver.Wire.{Conn, read_int32, int32_bytes}
use go_rsync_receiver.Wire.Sent.{write_string-Sends}
use go_rsync_receiver.Wire.Received.{
  Reads, Reads-bind, Reads-map, read_int32-int32_bytes, received-input,
}
use go_rsync_receiver.Wire.RoundTrip.{IsFresh, sent-output}
use go_rsync_receiver.Rsync.{
  SumHead, max_block_len, outside, checked_int32, read_from, head_bytes, write_to,
}

-- The ranges that ReadFrom demands.
pub record IsValid (sh : SumHead) : Type 0 where
  pub count_lo : pos 0 ≤ℤ sh.checksum_count
  pub block_lo : pos 0 ≤ℤ sh.block_length
  pub block_hi : sh.block_length ≤ℤ max_block_len
  pub checksum_lo : pos 0 ≤ℤ sh.checksum_length
  pub checksum_hi : sh.checksum_length ≤ℤ pos 16
  pub remainder_lo : pos 0 ≤ℤ sh.remainder_length
  pub remainder_hi : sh.remainder_length ≤ℤ sh.block_length

checked_int32-Reads :
    (bad : ℤ → Bool) (error : ℤ → Error) (z : ℤ)
    → IsI32 z
    → bad z ≡ false
    → Reads (checked_int32 bad error) (int32_bytes z) z
unfolding checked_int32
checked_int32-Reads bad error z r h =
    Reads-map read_int32 _ (int32_bytes z) z z (read_int32-int32_bytes z r) (λ c. rw h)

block-IsI32 : (sh : SumHead) → IsValid sh → IsI32 sh.block_length
block-IsI32 sh v = go sh.block_length v.block_lo v.block_hi
  where
    go : (z : ℤ) → pos 0 ≤ℤ z → z ≤ℤ max_block_len → IsI32 z
    go (pos n) h k = omega arith
    go (negsuc n) h k = omega arith

between-IsI32 : (z limit : ℤ) → pos 0 ≤ℤ z → z ≤ℤ limit → IsI32 limit → IsI32 z
between-IsI32 (pos n) (pos m) h k r = omega arith
between-IsI32 (pos n) (negsuc m) h k r = absurd (omega arith)
between-IsI32 (negsuc n) limit h k r = absurd (omega arith)

inside : (z limit : ℤ) → pos 0 ≤ℤ z → z ≤ℤ limit → outside limit z ≡ false
inside z limit h k = ground arith

-- ReadFrom takes the bytes of WriteTo.
pub read_from-Reads :
    (old sh : SumHead)
    → IsValid sh
    → IsI32 sh.checksum_count
    → Reads (read_from old) (head_bytes sh) (record sh { sums = old.sums })
unfolding read_from head_bytes
read_from-Reads old sh v r =
    let b = block-IsI32 sh v in
    let s = between-IsI32 _ (pos 16) v.checksum_lo v.checksum_hi (omega arith) in
    let m = between-IsI32 _ _ v.remainder_lo v.remainder_hi b in
    Reads-bind (checked_int32 _ _) _ (int32_bytes sh.checksum_count) _ sh.checksum_count _
      (checked_int32-Reads _ _ _ r (ground arith))
      (Reads-bind (checked_int32 _ _) _ (int32_bytes sh.block_length) _ sh.block_length _
        (checked_int32-Reads _ _ _ b (inside _ max_block_len v.block_lo v.block_hi))
        (Reads-bind (checked_int32 _ _) _ (int32_bytes sh.checksum_length) _ sh.checksum_length _
          (checked_int32-Reads _ _ _ s (inside _ (pos 16) v.checksum_lo v.checksum_hi))
          (Reads-map (checked_int32 _ _) _ (int32_bytes sh.remainder_length) sh.remainder_length _
            (checked_int32-Reads _ _ _ m (inside _ _ v.remainder_lo v.remainder_hi)) (λ c. refl))))

-- ReadFrom returns the four numbers that WriteTo wrote over a plain, unused connection that takes
-- every write, if they are in range and the count is an int32, and leaves what
-- follows; the block checksums of the receiving head stay as they are.
pub read_from-write_to :
    (old sh : SumHead) (c d : Conn) (rest : Bytes)
    → IsValid sh
    → IsI32 sh.checksum_count
    → IsFresh c
    → d.input ≡ (write_to sh c).1.output ++ rest
    → ((read_from old d).0 ≡ ok (record sh { sums = old.sums }))
      × ((read_from old d).1.input ≡ rest)
read_from-write_to old sh c d rest v r f e =
    rw (read_from-Reads old sh v r d rest (e ∙ ap (λ (o : Bytes). o ++ rest) written))
      (refl, received-input _ rest d)
  where
    written : (write_to sh c).1.output ≡ head_bytes sh
    written =
        unfold write_to in
        rw (write_string-Sends (head_bytes sh) c f.reliable) (sent-output _ c f ∙ append-nil _)

checked_int32-eq-ok :
    (bad : ℤ → Bool) (error : ℤ → Error) (c : Conn) {z : ℤ} {d : Conn}
    → checked_int32 bad error c ≡ (ok z, d)
    → bad z ≡ false
unfolding checked_int32
checked_int32-eq-ok bad error c h = let (x, s, p, q) = continue-eq-ok (read_int32 c) _ h in go x s q
  where
    go :
        (x : ℤ) (s : Conn) {z : ℤ} {d : Conn}
        → continue (reject_if (bad x) (error x) s) (λ _. return x) ≡ (ok z, d)
        → bad z ≡ false
    go x s q = ground arith

-- Whatever the peer sends, a head that ReadFrom returns is in range.
pub read_from-IsValid :
    (old : SumHead) (c : Conn) {sh : SumHead} {d : Conn} → read_from old c ≡ (ok sh, d) → IsValid sh
unfolding read_from
read_from-IsValid old c h =
    let (count, c1, e1, h1) = continue-eq-ok (checked_int32 _ _ c) _ h in
    let (block, c2, e2, h2) = continue-eq-ok (checked_int32 _ _ c1) _ h1 in
    let (size, c3, e3, h3) = continue-eq-ok (checked_int32 _ _ c2) _ h2 in
    let (remainder, c4, e4, h4) = continue-eq-ok (checked_int32 _ _ c3) _ h3 in
    let k1 = checked_int32-eq-ok _ _ c e1 in
    let k2 = checked_int32-eq-ok _ _ c1 e2 in
    let k3 = checked_int32-eq-ok _ _ c2 e3 in let k4 = checked_int32-eq-ok _ _ c3 e4 in ground arith
