-- ===== src/Sender/HashSearch/Taking.antt =====
-- The search takes a match: the block's bytes are the receiver's, and are covered then.
use go_rsync_receiver.Prelude.{
  ℕ, ◌+◌, ◌-◌, ◌^◌, ◌≤◌, ◌<◌, ◌≡◌, refl, sym, ap, ◌∙◌, min, false, List, [], Option, none, some,
  arith, Bytes, length, get_elem?, leb, ◌==◌, All, subst,
}
use go_rsync_receiver.Prelude.Int.{ℤ, pos, pos_part}
use go_rsync_receiver.Outcome.{◌>>◌}
use go_rsync_receiver.Wire.{Conn}
use go_rsync_receiver.Wire.Sent.{IsReliable}
use go_rsync_receiver.Rsync.{SumBuf, SumHead}
use go_rsync_receiver.Checksum.{checksum2}
use go_rsync_receiver.Files.{LocalFile}
use go_rsync_receiver.Sender.Search.{
  Target, Search, block, sum_at, token_length, read_chunk, skip_block,
}
use go_rsync_receiver.Sender.Search.Slices.{slice}
use go_rsync_receiver.Sender.Search.Tokens.{Serves}
use go_rsync_receiver.Sender.HashSearch.{TagTable, at_end, take_match}
use go_rsync_receiver.Sender.HashSearch.Found.{short, Hits, HasBlock, Hit}
use go_rsync_receiver.Sender.HashSearch.Progress.{Copies, copy-Means, Moved, matched-Covered}
use go_rsync_receiver.Sender.HashSearch.Ready.{
  Signed, Done, Done-window, Ready, read_chunk-Ready, Taken,
}

module _ {M : Type 0} (ptr : ℕ → ℤ → M → Bytes × M) (content : Bytes) (Good : M → Type 0)
    (serves : Serves ptr content Good) (small : length content < 2 ^ 31) (md4 : Bytes → Bytes)
    (seed : ℤ) (head : SumHead) (local : Option LocalFile) (start : Bytes) (c : Conn)
    (reliable : IsReliable c) (some_block : 0 < pos_part head.block_length)
    (signed : (i : ℕ) (sb : SumBuf)
      → get_elem? head.sums i ≡ some sb
      → Signed md4 seed head local content i sb)
    (targets : List Target) (all : All (HasBlock head) targets) (table : TagTable) where
  record Matching (s : Search M) (n i : ℕ) : Type 0 where
    pub sb : SumBuf
    pub some_bytes : 0 < n
    pub listed : get_elem? head.sums i ≡ some sb
    pub long : sb.len ≡ pos n
    pub copies : Copies (record head { sums = [] }) local (slice content s.offset n) n i

  -- A hit is a block whose bytes the receiver has.
  hit-Matching :
      (s : Search M) (n i : ℕ)
      → s.offset + n ≤ length content
      → Hits md4 seed head (slice content s.offset n) n i
      → Matching s n i
  hit-Matching s n i h hit =
      let g = signed i hit.sb hit.listed in
      let same : n ≡ g.len = ap pos_part (sym hit.long ∙ g.listed) in
      let fits : s.offset + g.len ≤ length content = omega arith in
      let p : g.p ≡ slice content s.offset n =
        sym (
          g.alone s.offset fits (
            ap (λ (x : ℕ). short head (checksum2 md4 seed (slice content s.offset x))) (sym same)
            ∙ hit.same
            ∙ g.signed))
        ∙ ap (slice content s.offset) (sym same) in
      record {
        sb = hit.sb;
        some_bytes = omega (arith, g.some_bytes);
        listed = hit.listed;
        long = hit.long;
        copies =
            subst
              (λ (x : ℕ). Copies (record head { sums = [] }) local (slice content s.offset n) x i)
              (sym same)
              (subst (λ (x : Bytes). Copies (record head { sums = [] }) local x g.len i) p
                g.copies);
      }

  -- Behind a match the window is read again, at the last byte of the block.
  skip_block-Ready :
      (end n : ℕ) (s : Search M)
      → Done ptr content Good serves small md4 seed head local start c reliable some_block signed
          targets all table s
      → 0 < n
      → s.offset + n ≤ length content
      → s.last_match ≡ s.offset + n
      → Taken ptr content Good serves small md4 seed head local start c reliable some_block signed
          targets all table s
          ((do skip_block n; read_chunk ptr head (length content); at_end end) s)
  unfolding skip_block at_end
  skip_block-Ready end n s v h fits last =
      let moves : (s.offset + n == 0) ≡ false = ground (arith, h) in
      let s' : Search M = record s { offset = s.offset + n - 1 } in
      let (t, e, same, _, ready) =
        read_chunk-Ready ptr content Good serves small md4 seed head local start c reliable
          some_block signed targets all table s'
          (Done-window ptr content Good serves small md4 seed head local start c reliable some_block
            signed targets all table s s.map (s.offset + n - 1) s.k s.sums v v.good)
          (omega arith) (omega arith) in
      record {
        left = leb end t.offset;
        state = t;
        result = rw moves (rw e refl);
        ready = ready;
        onward = omega (arith, same);
      }

  -- The operation behind `matched`, which is known to move on to the block's end.
  take_match-Moved :
      (end n i : ℕ) (s : Search M)
      → s.offset + n ≤ length content
      → Matching s n i
      → Moved ptr content Good serves small
          (record head { sums = [] })
          head
          local
          start
          c
          reliable
          s.offset
          n
          (block i)
          s
      → Taken ptr content Good serves small md4 seed head local start c reliable some_block signed
          targets all table s
          (take_match ptr md4 seed head (length content) end (some i) s)
  unfolding take_match sum_at
  take_match-Moved end n i s fits g m =
      let counted : pos_part g.sb.len ≡ n = ap pos_part g.long in
      let s1 : Search M = record s {
        conn = m.conn;
        hashed = m.hashed;
        map = m.map;
        last_match = s.offset + n;
      } in
      let taken = skip_block-Ready end n s1 m.covered g.some_bytes fits refl in
      record {
        left = taken.left;
        state = taken.state;
        result = rw (m.result, g.listed, counted) taken.result;
        ready = taken.ready;
        onward = taken.onward;
      }

  pub take_match-Taken :
      (end : ℕ) (hit : Option ℕ) (s : Search M)
      → Ready ptr content Good serves small md4 seed head local start c reliable some_block signed
          targets all table 0 s
      → (let n = min (pos_part head.block_length) (length content - s.offset) in
          Hit ptr content Good serves small md4 seed head s.offset n hit)
      → Taken ptr content Good serves small md4 seed head local start c reliable some_block signed
          targets all table s
          (take_match ptr md4 seed head (length content) end hit s)
  take_match-Taken end none s v h = record {
    left = false;
    state = s;
    result = unfold take_match in refl;
    ready = record { covered = v.covered; rolled = v.rolled; near = omega (arith, v.near) };
    onward = omega arith;
  }
  take_match-Taken end (some i) s v h =
      let n = min (pos_part head.block_length) (length content - s.offset) in
      let fits : s.offset + n ≤ length content = ground (arith, v.rolled.inside) in
      let g = hit-Matching s n i fits h in
      take_match-Moved end n i s fits g (
        matched-Covered ptr content Good serves small (record head { sums = [] }) head local start c
          reliable s.offset n (block i) s v.covered (omega (arith, v.near)) fits
          (λ t. unfold token_length sum_at in rw (g.listed, ap pos_part g.long) refl)
          (copy-Means (record head { sums = [] }) local _ n i g.copies))
