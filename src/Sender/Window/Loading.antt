-- ===== src/Sender/Window/Loading.antt =====
-- The loop of ptr that loads the window.
use go_rsync_receiver.Prelude.{
  ℕ, zero, suc, ◌+◌, ◌-◌, ◌≤◌, ◌<◌, ◌≡◌, refl, sym, ap, ◌∙◌, subst, Bool, true, ◌∷◌, Option, none,
  arith, Bytes, length, take,
}
use go_rsync_receiver.Outcome.{Error}
use go_rsync_receiver.Sender.Search.Slices.{slice}
use go_rsync_receiver.Sender.Window.{FileRead, read_bytes, MapStruct, read_done, read_loop, written}
use go_rsync_receiver.Sender.Window.Contents.{length-written, take-written}

-- What a Read at `p` of a file gives, for a buffer of `n` bytes.
pub record ReadsSome {F : Type 0} (content : Bytes) (At : ℕ → F → Type 0) (p n : ℕ)
    (r : FileRead × F) : Type 0 where
  pub first : ℕ
  pub rest : Bytes
  pub result : r.0 ≡ read_bytes first rest
  pub fits : length (first ∷ rest) ≤ n
  pub inside : p + length (first ∷ rest) ≤ length content
  pub same : first ∷ rest ≡ slice content p (length (first ∷ rest))
  pub at : At (p + length (first ∷ rest)) r.1

-- An os.File that holds `content`: Seek moves the cursor, and Read before the end reads some bytes from
-- there.
pub record IsFile {F : Type 0} (seek : ℕ → F → Option Error × F) (read : ℕ → F → FileRead × F)
    (content : Bytes) (At : ℕ → F → Type 0) : Type 0 where
  pub seeks :
      (n p : ℕ) (f : F) → At p f → n ≤ length content → ((seek n f).0 ≡ none) × At n (seek n f).1
  pub reads :
      (n p : ℕ) (f : F) → At p f → 0 < n → p < length content → ReadsSome content At p n (read n f)

module _ {F : Type 0} (seek : ℕ → F → Option Error × F) (read : ℕ → F → FileRead × F)
    (content : Bytes) (At : ℕ → F → Type 0) (file : IsFile seek read content At) where
  -- The window holds bytes of the file, and its size serves the whole file.
  pub record Holds (ms : MapStruct F) : Type 0 where
    pub sized : length ms.window ≡ ms.p_size
    pub filled : ms.p_len ≤ ms.p_size
    pub inside : ms.p_offset + ms.p_len ≤ length content
    pub bytes : take ms.p_len ms.window ≡ slice content ms.p_offset ms.p_len
    pub at : At ms.p_fd_offset ms.f
    pub whole : ms.file_size ≡ length content
    pub fits : length content ≤ ms.def_window_size

  -- The window's front up to `at` is loaded, and the cursor is behind it.
  pub record Loaded (start at : ℕ) (ms : MapStruct F) : Type 0 where
    pub sized : length ms.window ≡ ms.p_size
    pub room : at ≤ ms.p_size
    pub bytes : take at ms.window ≡ slice content start at
    pub cursor : ms.p_fd_offset ≡ start + at
    pub at_cursor : At ms.p_fd_offset ms.f

  pub record Read (start end : ℕ) (ms : MapStruct F) (r : Bool × MapStruct F) : Type 0 where
    pub fd : ℕ
    pub window : Bytes
    pub f : F
    pub result : r ≡ (true, record ms { p_fd_offset = fd; window = window; f = f })
    pub loaded : Loaded start end (record ms { p_fd_offset = fd; window = window; f = f })

  pub read_loop-Read :
      (fuel start at size : ℕ) (ms : MapStruct F)
      → size ≤ fuel
      → at + size ≤ ms.p_size
      → start + (at + size) ≤ length content
      → Loaded start at ms
      → Read start (at + size) ms (read_loop seek read fuel at size ms)
  unfolding read_loop read_done
  read_loop-Read fuel start at zero ms h room k v =
      let same : at + 0 ≡ at = omega arith in
      record {
        fd = ms.p_fd_offset;
        window = ms.window;
        f = ms.f;
        result = refl;
        loaded = subst (λ (x : ℕ). Loaded start x ms) (sym same) v;
      }
  read_loop-Read zero start at (suc size) ms h room k v = absurd (omega arith)
  read_loop-Read (suc fuel) start at (suc size) ms h room k v =
      let g =
        file.reads (suc size) ms.p_fd_offset ms.f v.at_cursor (omega arith)
          (omega (arith, v.cursor)) in
      let n = length (g.first ∷ g.rest) in
      let after : ms.p_fd_offset + n ≡ start + (at + n) = omega (arith, v.cursor) in
      let next : MapStruct F = record ms {
        f = (read (suc size) ms.f).1;
        p_fd_offset = ms.p_fd_offset + n;
        window = written at (g.first ∷ g.rest) ms.window;
      } in
      let loaded : Loaded start (at + n) next = record {
        sized =
            length-written at (g.first ∷ g.rest) ms.window (omega (arith, v.sized, g.fits, room))
            ∙ v.sized;
        room = omega (arith, g.fits, room);
        bytes =
            take-written content start at n (g.first ∷ g.rest) ms.window
              (omega (arith, v.sized, v.room)) refl v.bytes
              (g.same ∙ ap (λ (x : ℕ). slice content x n) v.cursor);
        cursor = after;
        at_cursor = g.at;
      } in
      let r =
        read_loop-Read fuel start (at + n) (suc size - n) next (omega (arith, h))
          (omega (arith, room, g.fits)) (omega (arith, k, g.fits)) loaded in
      let end : at + n + (suc size - n) ≡ at + suc size = omega (arith, g.fits) in
      record {
        fd = r.fd;
        window = r.window;
        f = r.f;
        result = rw g.result r.result;
        loaded =
            subst
              (λ (x : ℕ).
                Loaded start x (record next { p_fd_offset = r.fd; window = r.window; f = r.f }))
              end r.loaded;
      }
