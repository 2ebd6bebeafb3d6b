-- ===== src/Sender/Search/Rolling.antt =====
-- The rolled sums are those of the window, round after round.
use go_rsync_receiver.Prelude.{
  ℕ, suc, ◌+◌, ◌-◌, ◌^◌, ◌≤◌, ◌<◌, ◌≡◌, refl, sym, ap, ◌∙◌, min, true, false, [], ◌∷◌, ◌++◌, none,
  some, arith, Bytes, length, length-append, drop, get_elem?, ltb, leb, Bool-cases, inl, inr,
}
use go_rsync_receiver.Prelude.Int.{ℤ}
use go_rsync_receiver.Outcome.{ok, Outcome}
use go_rsync_receiver.Checksum.{Sums, checksum1}
use go_rsync_receiver.Sender.Roll.{halves, roll}
use go_rsync_receiver.Sender.Roll.Laws.{roll-checksum1, roll-checksum1_end}
use go_rsync_receiver.Sender.Search.Slices.{
  slice, length-slice, drop-slice, slice-first, slice-last, get_elem?-append_last,
}
use go_rsync_receiver.Sender.Search.Tokens.{Serves, ask-slice}
use go_rsync_receiver.Sender.Search.{
  Search, ask, newest_of, behind, roll_by, roll_window, update_sums,
}

-- The window at the search's offset: as long as a block, or shorter at the end of the file; the sums
-- are the halves of its checksum.
pub record Rolled (content : Bytes) (block : ℕ) {M : Type 0} (s : Search M) : Type 0 where
  pub inside : s.offset < length content
  pub window : s.k ≡ min block (length content - s.offset)
  pub summed : s.sums ≡ halves (checksum1 (slice content s.offset s.k))

module _ (content : Bytes) {M : Type 0} where
  roll_window-more :
      (k : ℕ) (s : Search M)
      → s.k ≡ suc k
      → s.offset + suc k < length content
      → s.sums ≡ halves (checksum1 (slice content s.offset (suc k)))
      → roll_window true (slice content s.offset (suc k + 1)) s
        ≡ (ok tt, record s { sums = halves (checksum1 (slice content (s.offset + 1) (suc k))) })
  unfolding roll_window roll_by newest_of
  roll_window-more k s e h sums =
      let (x, first) = slice-first content s.offset k (omega arith) in
      let buf = slice content (s.offset + 1) k in
      let (y, end) = slice-last content s.offset (suc k) h in
      let len : length buf ≡ k = length-slice content (s.offset + 1) k (omega arith) in
      let next = buf ++ (y ∷ []) in
      let window : slice content s.offset (suc k + 1) ≡ x ∷ next =
        end ∙ ap (λ (l : Bytes). l ++ (y ∷ [])) first in
      let shift : suc k + 1 ≡ 1 + suc k = omega arith in
      let moved : slice content (s.offset + 1) (suc k) ≡ next =
        sym (drop-slice content s.offset 1 (suc k) (omega arith))
        ∙ ap (λ (n : ℕ). drop 1 (slice content s.offset n)) (sym shift)
        ∙ ap (drop 1) window in
      let back : next ≡ slice content (s.offset + 1) (suc k) = sym moved in
      let found : get_elem? (x ∷ next) s.k ≡ some y =
        ap (get_elem? (x ∷ next)) e ∙ get_elem?-append_last buf y k len in
      let long : length (x ∷ buf) ≡ s.k = ap suc len ∙ sym e in
      let grown : length next ≡ s.k = omega (arith, length-append buf (y ∷ [])) in
      let rolled : roll s.k x (some y) s.sums
          ≡ (s.k, halves (checksum1 (slice content (s.offset + 1) (suc k)))) =
        ap (λ (n : ℕ). roll n x (some y) s.sums) (sym long)
        ∙ ap (roll (length (x ∷ buf)) x (some y))
            (sums ∙ ap (λ (l : Bytes). halves (checksum1 l)) first)
        ∙ roll-checksum1 x y buf
        ∙ (λ i. (grown i, halves (checksum1 (back i)))) in
      rw (window, found) (λ i. (ok tt, record s { k = (rolled i).0; sums = (rolled i).1 }))

  roll_window-end :
      (k : ℕ) (s : Search M)
      → s.k ≡ suc k
      → s.offset + suc k ≤ length content
      → s.sums ≡ halves (checksum1 (slice content s.offset (suc k)))
      → roll_window false (slice content s.offset (suc k)) s
        ≡ (ok tt, record s { k = k; sums = halves (checksum1 (slice content (s.offset + 1) k)) })
  unfolding roll_window roll_by newest_of
  roll_window-end k s e h sums =
      let (x, first) = slice-first content s.offset k h in
      let buf = slice content (s.offset + 1) k in
      let len : length buf ≡ k = length-slice content (s.offset + 1) k (omega arith) in
      let long : length (x ∷ buf) ≡ s.k = ap suc len ∙ sym e in
      let rolled : roll s.k x none s.sums ≡ (k, halves (checksum1 buf)) =
        ap (λ (n : ℕ). roll n x none s.sums) (sym long)
        ∙ ap (roll (length (x ∷ buf)) x none)
            (sums ∙ ap (λ (l : Bytes). halves (checksum1 l)) first)
        ∙ roll-checksum1_end x buf
        ∙ (λ i. (len i, halves (checksum1 buf))) in
      rw first (λ i. (ok tt, record s { k = (rolled i).0; sums = (rolled i).1 }))

module _ {M : Type 0} (ptr : ℕ → ℤ → M → Bytes × M) (content : Bytes) (Good : M → Type 0)
    (serves : Serves ptr content Good) (small : length content < 2 ^ 31) where
  -- The outcome of a step of the window: it stands one byte further on.
  pub record Stepped (block : ℕ) (s : Search M) (r : Outcome (Unit {0}) × Search M) : Type 0 where
    pub map : M
    pub k : ℕ
    pub sums : Sums
    pub result : r ≡ (ok tt, record s { map = map; k = k; sums = sums })
    pub good : Good map
    pub window : k ≡ min block (length content - (s.offset + 1))
    pub summed : sums ≡ halves (checksum1 (slice content (s.offset + 1) k))

  -- What `update[backup:]` holds.
  ask-behind :
      (n : ℕ) (s : Search M)
      → Good s.map
      → s.offset + n ≤ length content
      → let backup = s.offset - s.last_match in
        (m : M) × (ask ptr (s.offset - backup) (n + backup) s
          ≡ (ok (slice content (s.offset - backup) (n + backup)), record s { map = m }))
        × Good m
        × ((t : Search M)
            → behind backup (slice content (s.offset - backup) (n + backup)) t
              ≡ (ok (slice content s.offset n), t))
  unfolding behind
  ask-behind n s g h =
      let backup = s.offset - s.last_match in
      let from = s.offset - backup in
      let (m, e, good) =
        ask-slice ptr content Good serves small from (n + backup) s g (omega arith) in
      let len : length (slice content from (n + backup)) ≡ n + backup =
        length-slice content from (n + backup) (omega arith) in
      let enough : leb backup (length (slice content from (n + backup))) ≡ true =
        ground (arith, len) in
      let swap : n + backup ≡ backup + n = omega arith in
      let start : from + backup ≡ s.offset = omega arith in
      let cut : drop backup (slice content from (n + backup)) ≡ slice content s.offset n =
        ap (λ (i : ℕ). drop backup (slice content from i)) swap
        ∙ drop-slice content from backup n (omega arith)
        ∙ ap (λ (i : ℕ). slice content i n) start in
      (m, e, good, λ t. rw (enough, cut) refl)

  -- The update of the rolling checksum keeps its invariant, over a window that serves a file of less
  -- than 2 ^ 31 bytes: if the sums are those of the block at the offset, or of what is left there, then
  -- it does not panic, changes nothing but the map, `k` and the sums, and these are the length and the
  -- sums of the block one byte further on, shorter if the file ends there.
  pub update_sums-Rolled :
      (block : ℕ) (s : Search M)
      → 0 < block
      → Good s.map
      → Rolled content block s
      → Stepped block s (update_sums ptr (length content) s)
  unfolding update_sums
  update_sums-Rolled block s pos_block g rolled =
      let k = s.k - 1 in
      let e : s.k ≡ suc k = omega (arith, rolled.inside, rolled.window) in
      let sums = rolled.summed ∙ ap (λ (n : ℕ). halves (checksum1 (slice content s.offset n))) e in
      elim (Bool-cases (ltb (s.offset + s.k) (length content))) [
        | inl more ↦
            let (m, a, good, b) = ask-behind (s.k + 1) s g (ground arith) in
            let t : Search M = record s { map = m } in
            let w = roll_window-more content k t e (ground arith) sums in
            record {
              map = m;
              k = s.k;
              sums = halves (checksum1 (slice content (s.offset + 1) (suc k)));
              result =
                  rw (more, a)
                    (rw (b t)
                      (ap (λ (n : ℕ). roll_window true (slice content s.offset (n + 1)) t) e ∙ w));
              good = good;
              window = ground (arith, rolled.window, rolled.inside);
              summed = ap (λ (n : ℕ). halves (checksum1 (slice content (s.offset + 1) n))) (sym e);
            }
        | inr end ↦
            let (m, a, good, b) = ask-behind (s.k + 0) s g (ground (arith, rolled.window)) in
            let t : Search M = record s { map = m } in
            let none_more : s.k + 0 ≡ suc k = omega (arith, e) in
            let w = roll_window-end content k t e (ground (arith, rolled.window)) sums in
            record {
              map = m;
              k = k;
              sums = halves (checksum1 (slice content (s.offset + 1) k));
              result =
                  rw (end, a)
                    (rw (b t) (
                      ap (λ (n : ℕ). roll_window false (slice content s.offset n) t) none_more
                      ∙ w));
              good = good;
              window = ground (arith, rolled.window, rolled.inside);
              summed = refl;
            }
      ]
