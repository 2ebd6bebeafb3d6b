-- ===== src/Sender/Window/Serving.antt =====
-- The window serves the bytes of a file that is not longer than its default size.
use go_rsync_receiver.Prelude.{
  ℕ, zero, suc, ◌+◌, ◌-◌, ◌*◌, ◌%◌, ◌≤◌, ◌<◌, ◌≡◌, refl, ap, ◌∙◌, subst, Bool, true, false, ◌&&◌,
  Option, arith, Bytes, length, take, leb, ◌==◌, Bool-cases, inl, inr,
}
use go_rsync_receiver.Prelude.Bits.{bit_and_mask, bit_or_mask}
use go_rsync_receiver.Outcome.{Error}
use go_rsync_receiver.Sender.Search.Slices.{slice}
use go_rsync_receiver.Sender.Search.Tokens.{Serves}
use go_rsync_receiver.Sender.Window.{
  FileRead, MapStruct, aligned_overshoot, window_start, size_to_end, window_size, grow, seek_done,
  cut, seek_to, read_window, fill, slide, ptr, map_file, aligned_length, rounded,
}
use go_rsync_receiver.Sender.Window.Contents.{slice-window}
use go_rsync_receiver.Sender.Window.Loading.{IsFile, Holds, Loaded, read_loop-Read}
use go_rsync_receiver.Sender.Window.Keeping.{grow-Grown, keep-Kept}

-- The remainder modulo the boundary.
aligned_overshoot_lem : (off : ℕ) → aligned_overshoot off ≡ off % 1024
unfolding aligned_overshoot
aligned_overshoot_lem off = bit_and_mask 10 off

module _ {F : Type 0} (seek : ℕ → F → Option Error × F) (read : ℕ → F → FileRead × F)
    (content : Bytes) (At : ℕ → F → Type 0) (file : IsFile seek read content At) where
  record Filled (start size : ℕ) (r : Bool × MapStruct F) : Type 0 where
    state : MapStruct F
    result : r ≡ (true, state)
    holds : Holds seek read content At file state
    offset : state.p_offset ≡ start
    len : state.p_len ≡ size

  seek_to_lem :
      (start : ℕ) (ms : MapStruct F)
      → At ms.p_fd_offset ms.f
      → start ≤ length content
      → (f : F) × (seek_to seek read start ms ≡ (true, record ms { p_fd_offset = start; f = f }))
        × At start f
  unfolding seek_to seek_done
  seek_to_lem start ms a h = elim (Bool-cases (ms.p_fd_offset == start)) [
    | inl there ↦
        let e : ms.p_fd_offset ≡ start = ground (arith, there) in
        (
          ms.f,
          rw there (λ i. (true, record ms { p_fd_offset = e i })),
          subst (λ (x : ℕ). At x ms.f) e a,
        )
    | inr other ↦
        let (done, at) = file.seeks start ms.p_fd_offset ms.f a h in
        ((seek start ms.f).1, rw (other, done) refl, at)
  ]

  fill-Filled :
      (start size : ℕ) (ms : MapStruct F)
      → Holds seek read content At file ms
      → 0 < size
      → size ≤ ms.p_size
      → start + size ≤ length content
      → (ms.p_offset ≤ start → ms.p_offset + ms.p_len < start + size)
      → Filled start size (fill seek read start size ms)
  unfolding fill read_window
  fill-Filled start size ms v some_bytes room h more =
      let kept = keep-Kept seek read content At file start size ms v some_bytes room more in
      let short : leb size kept.at ≡ false = ground (arith, kept.less) in
      let moved : MapStruct F = record ms { window = kept.window } in
      let (f, sought, at) = seek_to_lem (start + kept.at) moved v.at (omega (arith, kept.less)) in
      let ready : MapStruct F = record moved {
        p_fd_offset = start + kept.at;
        f = f;
        p_offset = start;
        p_len = size;
      } in
      let n = size - kept.at in
      let end : kept.at + n ≡ size = omega (arith, kept.less) in
      let loaded : Loaded seek read content At file start kept.at ready = record {
        sized = kept.sized;
        room = omega (arith, kept.less);
        bytes = kept.bytes;
        cursor = refl;
        at_cursor = at;
      } in
      let r =
        read_loop-Read seek read content At file n start kept.at n ready (omega arith)
          (omega (arith, end)) (omega (arith, end)) loaded in
      record {
        state = record ready { p_fd_offset = r.fd; window = r.window; f = r.f };
        result = rw (kept.result, short, sought) r.result;
        holds = record {
          sized = r.loaded.sized;
          filled = room;
          inside = h;
          bytes = subst (λ (x : ℕ). take x r.window ≡ slice content start x) end r.loaded.bytes;
          at = r.loaded.at_cursor;
          whole = v.whole;
          fits = v.fits;
        };
        offset = refl;
        len = refl;
      }

  -- The window reaches to the file's end.
  window_size_lem :
      (ms : MapStruct F) (offset n : ℕ)
      → Holds seek read content At file ms
      → offset + n ≤ length content
      → window_size ms offset n ≡ length content - window_start offset
  unfolding window_size size_to_end window_start
  window_size_lem ms offset n v h = ground (arith, aligned_overshoot_lem offset, v.whole, v.fits)

  slide-Serves :
      (offset n : ℕ) (ms : MapStruct F)
      → Holds seek read content At file ms
      → 0 < n
      → offset + n ≤ length content
      → (ms.p_offset ≤ offset → ms.p_offset + ms.p_len < offset + n)
      → ((slide seek read offset n ms).0 ≡ slice content offset n)
        × Holds seek read content At file (slide seek read offset n ms).1
  unfolding slide cut window_start
  slide-Serves offset n ms v some_bytes h missed =
      let start = window_start offset in
      let fudge = aligned_overshoot offset in
      let size = window_size ms offset n in
      let low : fudge ≤ offset = omega (arith, aligned_overshoot_lem offset) in
      let to_end : size ≡ length content - start = window_size_lem ms offset n v h in
      let g = grow-Grown seek read content At file size ms v in
      let r =
        fill-Filled start size (grow size ms) g.holds (omega arith) g.room (omega arith)
          (λ later. omega (arith, g.offset, g.len, missed (omega (arith, g.offset)))) in
      let w = r.holds in
      let back : r.state.p_offset + fudge ≡ offset = omega (arith, r.offset) in
      let same : slice r.state.window fudge n ≡ slice content (r.state.p_offset + fudge) n =
        slice-window content r.state.window r.state.p_offset r.state.p_len fudge n
          (omega (arith, r.len)) w.inside (omega (arith, w.sized, w.filled)) w.bytes in
      rw r.result (same ∙ ap (λ (x : ℕ). slice content x n) back, w)

  -- ptr gives the bytes of any range inside a file that is not longer than the default window, and
  -- leaves a window that holds bytes of the file, if it held such bytes before; reads may be short.
  pub ptr-Serves : Serves (ptr seek read) content (Holds seek read content At file)
  unfolding ptr cut
  ptr-Serves offset zero ms v h = (refl, v)
  ptr-Serves offset (suc k) ms v h =
      elim (Bool-cases (leb ms.p_offset offset && leb (offset + suc k) (ms.p_offset + ms.p_len))) [
        | inl there ↦
            let behind : ms.p_offset ≤ offset = ground (arith, there) in
            let inside : offset + suc k ≤ ms.p_offset + ms.p_len = ground (arith, there) in
            let at = offset - ms.p_offset in
            let back : ms.p_offset + at ≡ offset = omega arith in
            rw there (
              slice-window content ms.window ms.p_offset ms.p_len at (suc k) (omega arith) v.inside
                    (omega (arith, v.sized, v.filled)) v.bytes
                  ∙ ap (λ (x : ℕ). slice content x (suc k)) back,
              v,
            )
        | inr missed ↦
            rw missed
              (slide-Serves offset (suc k) ms v (omega arith) h (λ low. ground (arith, missed)))
      ]

  -- mapFile on a file at its start, when the default window is at least as long.
  pub map_file-Holds :
      (f : F) (read_size blk_size : ℕ)
      → At 0 f
      → length content ≤ (map_file f (length content) read_size blk_size).def_window_size
      → Holds seek read content At file (map_file f (length content) read_size blk_size)
  unfolding map_file
  map_file-Holds f read_size blk_size at fits = record {
    sized = refl;
    filled = omega arith;
    inside = omega arith;
    bytes = refl;
    at = at;
    whole = refl;
    fits = fits;
  }

aligned_length_large : (l : ℕ) → l ≤ aligned_length l
unfolding aligned_length
aligned_length_large l = ground (arith, bit_or_mask 10 (l - 1))

rounded_large : (read_size blk_size : ℕ) → read_size ≤ rounded read_size blk_size
unfolding rounded
rounded_large read_size zero = omega arith
rounded_large read_size (suc b) = elim (Bool-cases (read_size % suc b == 0)) [
  | inl whole ↦ rw whole (omega arith)
  | inr part ↦ rw part (omega arith)
]

-- The default window has 256 KiB at least.
pub map_file-def_window_size :
    {F : Type 0} (f : F) (len read_size blk_size : ℕ)
    → 256 * 1024 ≤ read_size
    → 256 * 1024 ≤ (map_file f len read_size blk_size).def_window_size
unfolding map_file
map_file-def_window_size f len read_size blk_size h =
    omega
      (arith, aligned_length_large (rounded read_size blk_size), rounded_large read_size blk_size)
