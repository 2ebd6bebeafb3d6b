-- ===== src/Sender/Window/Keeping.antt =====
-- The window grows, and keeps the bytes that the next window has too.
use go_rsync_receiver.Prelude.{
  ℕ, ◌+◌, ◌-◌, ◌≤◌, ◌<◌, ◌≡◌, refl, ap, ◌∙◌, subst, ◌&&◌, Option, arith, Bytes, length, take, drop,
  leb, ltb, Bool-cases, inl, inr,
}
use go_rsync_receiver.Outcome.{Error}
use go_rsync_receiver.Sender.Search.Slices.{slice, length-slice}
use go_rsync_receiver.Sender.Window.{FileRead, MapStruct, grow, overlaps, keep, written}
use go_rsync_receiver.Sender.Window.Contents.{
  slice-window, take-grown, length-grown, length-written, take-written,
}
use go_rsync_receiver.Sender.Window.Loading.{IsFile, Holds}

module _ {F : Type 0} (seek : ℕ → F → Option Error × F) (read : ℕ → F → FileRead × F)
    (content : Bytes) (At : ℕ → F → Type 0) (file : IsFile seek read content At) where
  pub record Grown (size : ℕ) (ms r : MapStruct F) : Type 0 where
    pub holds : Holds seek read content At file r
    pub room : size ≤ r.p_size
    pub offset : r.p_offset ≡ ms.p_offset
    pub len : r.p_len ≡ ms.p_len

  pub grow-Grown :
      (size : ℕ) (ms : MapStruct F)
      → Holds seek read content At file ms
      → Grown size ms (grow size ms)
  unfolding grow
  grow-Grown size ms v = elim (Bool-cases (ltb ms.p_size size)) [
    | inr enough ↦
        rw enough (record { holds = v; room = ground (arith, enough); offset = refl; len = refl })
    | inl more ↦ rw more (record {
      holds = record {
        sized = length-grown size ms.window (ground (arith, more, v.sized));
        filled = ground (arith, more, v.filled);
        inside = v.inside;
        bytes = take-grown ms.p_len size ms.window (omega (arith, v.sized, v.filled)) ∙ v.bytes;
        at = v.at;
        whole = v.whole;
        fits = v.fits;
      };
      room = omega arith;
      offset = refl;
      len = refl;
    })
  ]

  pub record Kept (start size : ℕ) (ms : MapStruct F) (r : ℕ × MapStruct F) : Type 0 where
    pub at : ℕ
    pub window : Bytes
    pub result : r ≡ (at, record ms { window = window })
    pub less : at < size
    pub sized : length window ≡ ms.p_size
    pub bytes : take at window ≡ slice content start at

  pub keep-Kept :
      (start size : ℕ) (ms : MapStruct F)
      → Holds seek read content At file ms
      → 0 < size
      → size ≤ ms.p_size
      → (ms.p_offset ≤ start → ms.p_offset + ms.p_len < start + size)
      → Kept start size ms (keep start size ms)
  unfolding keep overlaps
  keep-Kept start size ms v some_bytes room more =
      let inner =
        leb ms.p_offset start
        && ltb start (ms.p_offset + ms.p_len)
        && leb (ms.p_offset + ms.p_len) (start + size) in
      elim (Bool-cases inner) [
        | inr apart ↦ record {
          at = 0;
          window = ms.window;
          result = rw apart refl;
          less = some_bytes;
          sized = v.sized;
          bytes = refl;
        }
        | inl over ↦
            let kept = ms.p_offset + ms.p_len - start in
            let off = ms.p_len - kept in
            let chunk = take kept (drop off ms.window) in
            let behind : ms.p_offset ≤ start = ground (arith, over) in
            let before : start < ms.p_offset + ms.p_len = ground (arith, over) in
            let long : length chunk ≡ kept =
              length-slice ms.window off kept (omega (arith, v.sized, v.filled)) in
            let start' : ms.p_offset + off ≡ start + 0 = omega arith in
            let same : chunk ≡ slice content (start + 0) kept =
              slice-window content ms.window ms.p_offset ms.p_len off kept (omega arith) v.inside
                (omega (arith, v.sized, v.filled)) v.bytes
              ∙ ap (λ (x : ℕ). slice content x kept) start' in
            let front : 0 + kept ≡ kept = omega arith in
            record {
              at = kept;
              window = written 0 chunk ms.window;
              result = rw over refl;
              less = omega (arith, more behind);
              sized =
                  length-written 0 chunk ms.window (omega (arith, long, v.sized, v.filled))
                  ∙ v.sized;
              bytes =
                  subst (λ (x : ℕ). take x (written 0 chunk ms.window) ≡ slice content start x)
                    front
                    (take-written content start 0 kept chunk ms.window (omega arith) long refl
                      same);
            }
      ]
