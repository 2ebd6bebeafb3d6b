-- ===== src/Sender/Window.antt =====
-- rsyncsender/fileio.go: the window into a file. os.File is a parameter, by the results of its Seek and
-- Read, over a state of the file.
pub mod Contents
pub mod Loading
pub mod Keeping
pub mod Serving
pub mod Delivery
use go_rsync_receiver.Prelude.{
  ℕ, zero, suc, ◌+◌, ◌-◌, ◌%◌, Bool, true, false, ◌&&◌, List, [], ◌∷◌, ◌++◌, Option, none, some,
  Bytes, length, replicate, take, drop, leb, ltb, ◌==◌, if◌then◌else◌,
}
use go_rsync_receiver.Prelude.Int.{ℤ, pos, negsuc}
use go_rsync_receiver.Outcome.{Error}
use Prim.Native.Nat.{bit_and, bit_or}

-- A Read into a buffer that is not empty gives an error, or a byte at least.
pub data FileRead : Type 0 where
  read_error : Error → FileRead
  read_bytes : ℕ → Bytes → FileRead

pub record MapStruct (F : Type 0) : Type 0 where
  pub file_size : ℕ
  pub p_offset : ℕ
  pub p_fd_offset : ℕ
  pub window : Bytes
  pub p_size : ℕ
  pub p_len : ℕ
  pub def_window_size : ℕ
  pub f : F
  pub failed : Option Error

abbrev pub align_boundary : ℕ
align_boundary = 1024

-- The argument is positive at each call.
unfoldable pub aligned_length : ℕ → ℕ
aligned_length l = bit_or (l - 1) (align_boundary - 1) + 1

unfoldable pub aligned_overshoot : ℕ → ℕ
aligned_overshoot off = bit_and off (align_boundary - 1)

-- `readSize`, rounded up to blocks.
unfoldable pub rounded : ℕ → ℕ → ℕ
rounded read_size zero = read_size
rounded read_size (suc b) =
    if read_size % suc b == 0 then read_size else read_size + (suc b - read_size % suc b)

unfoldable pub map_file : {F : Type 0} → F → ℕ → ℕ → ℕ → MapStruct F
map_file f len read_size blk_size = record {
  file_size = len;
  p_offset = 0;
  p_fd_offset = 0;
  window = [];
  p_size = 0;
  p_len = 0;
  def_window_size = aligned_length (rounded read_size blk_size);
  f = f;
  failed = none;
}

-- `win := make([]byte, n); copy(win, window)`
unfoldable pub grown : ℕ → Bytes → Bytes
grown n window = window ++ replicate (n - length window) 0

-- `copy(window[at:], chunk)`
unfoldable pub written : ℕ → Bytes → Bytes → Bytes
written at chunk window = take at window ++ (chunk ++ drop (at + length chunk) window)

unfoldable pub window_start : ℕ → ℕ
window_start offset = offset - aligned_overshoot offset

module _ {F : Type 0} where
  -- `windowSize` is not negative where it is used: a negative one is replaced, as 0 is.
  unfoldable pub size_to_end : MapStruct F → ℕ → ℕ
  size_to_end ms start =
      if ltb ms.file_size (start + ms.def_window_size)
      then ms.file_size - start
      else ms.def_window_size

  unfoldable pub window_size : MapStruct F → ℕ → ℕ → ℕ
  window_size ms offset len =
      let size = size_to_end ms (window_start offset) in
      if ltb size (len + aligned_overshoot offset)
      then aligned_length (len + aligned_overshoot offset)
      else size

  unfoldable pub grow : ℕ → MapStruct F → MapStruct F
  grow size ms =
      if ltb ms.p_size size then record ms { window = grown size ms.window; p_size = size } else ms

  -- The new window begins in the old one, and does not end before it.
  unfoldable pub overlaps : ℕ → ℕ → MapStruct F → Bool
  overlaps start size ms =
      leb ms.p_offset start
      && ltb start (ms.p_offset + ms.p_len)
      && leb (ms.p_offset + ms.p_len) (start + size)

  -- `readOffset`, and the bytes that are kept moved to the window's front.
  unfoldable pub keep : ℕ → ℕ → MapStruct F → ℕ × MapStruct F
  keep start size ms =
      if overlaps start size ms
      then (let kept = ms.p_offset + ms.p_len - start in
          (
            kept,
            record ms {
              window = written 0 (take kept (drop (ms.p_len - kept) ms.window)) ms.window;
            },
          ))
      else (0, ms)

  unfoldable pub seek_done : ℕ → Option Error → MapStruct F → Bool × MapStruct F
  seek_done start (some e) ms = (false, ms)
  seek_done start none ms = (true, record ms { p_fd_offset = start })

  unfoldable pub read_done :
      (ℕ → ℕ → MapStruct F → Bool × MapStruct F)
      → ℕ
      → ℕ
      → FileRead
      → MapStruct F
      → Bool × MapStruct F
  read_done next at size (read_error e) ms = (false, record ms { failed = some e })
  read_done next at size (read_bytes b rest) ms =
      next (at + length (b ∷ rest)) (size - length (b ∷ rest)) (record ms {
        p_fd_offset = ms.p_fd_offset + length (b ∷ rest);
        window = written at (b ∷ rest) ms.window;
      })

  -- `window[off:off+len]`, or nothing. The window has `p_size` bytes, so the slices lie in it.
  unfoldable pub cut : ℕ → ℕ → Bool × MapStruct F → Bytes × MapStruct F
  cut off len (true, ms) = (take len (drop off ms.window), ms)
  cut off len (false, ms) = ([], ms)

module _ {F : Type 0} (seek : ℕ → F → Option Error × F) (read : ℕ → F → FileRead × F) where
  unfoldable pub seek_to : ℕ → MapStruct F → Bool × MapStruct F
  seek_to start ms =
      if ms.p_fd_offset == start
      then (true, ms)
      else (let r = seek start ms.f in seek_done start r.0 (record ms { f = r.1 }))

  -- Each round reads a byte at least, so that there are as many rounds as bytes at most.
  unfoldable pub read_loop : ℕ → ℕ → ℕ → MapStruct F → Bool × MapStruct F
  read_loop fuel at zero ms = (true, ms)
  read_loop zero at (suc size) ms = (false, ms)
  read_loop (suc fuel) at (suc size) ms =
      let r = read (suc size) ms.f in
      read_done (read_loop fuel) at (suc size) r.0 (record ms { f = r.1 })

  unfoldable pub read_window : ℕ → ℕ → ℕ → Bool × MapStruct F → Bool × MapStruct F
  read_window start size at (false, ms) = (false, ms)
  read_window start size at (true, ms) =
      read_loop (size - at) at (size - at) (record ms { p_offset = start; p_len = size })

  -- What is behind the test of `p_size`.
  unfoldable pub fill : ℕ → ℕ → MapStruct F → Bool × MapStruct F
  fill start size ms =
      let (at, moved) = keep start size ms in
      if leb size at then (false, moved) else read_window start size at (seek_to (start + at) moved)

  unfoldable pub slide : ℕ → ℕ → MapStruct F → Bytes × MapStruct F
  slide offset len ms =
      let size = window_size ms offset len in
      cut (aligned_overshoot offset) len (fill (window_start offset) size (grow size ms))

  unfoldable pub ptr : ℕ → ℤ → MapStruct F → Bytes × MapStruct F
  ptr offset (negsuc n) ms = ([], ms)
  ptr offset (pos zero) ms = ([], ms)
  ptr offset (pos (suc n)) ms =
      if leb ms.p_offset offset && leb (offset + suc n) (ms.p_offset + ms.p_len)
      then cut (offset - ms.p_offset) (suc n) (true, ms)
      else slide offset (suc n) ms
