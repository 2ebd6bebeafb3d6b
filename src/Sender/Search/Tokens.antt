-- ===== src/Sender/Search/Tokens.antt =====
-- What matched sends and hashes, over a window that serves the file's bytes.
use go_rsync_receiver.Prelude.{
  ℕ, zero, suc, ◌+◌, ◌-◌, ◌*◌, ◌^◌, ◌≤◌, ◌<◌, ◌≡◌, refl, sym, ap, ◌∙◌, min, List, [], ◌∷◌, ◌++◌,
  append_assoc, append-nil, arith, Bytes, length, concat, All,
}
use go_rsync_receiver.Prelude.Int.{ℤ, pos, negsuc}
use go_rsync_receiver.Prelude.Words.{wrap_i32, to_i32-to_u32}
use go_rsync_receiver.Outcome.{ok, Prog}
use go_rsync_receiver.Wire.{Conn, int32_bytes, write, write_int32}
use go_rsync_receiver.Wire.Sent.{
  IsReliable, sent, sent-append, sent-nil, sent-IsReliable, Sends, Sends-return, write-Sends,
  write_int32-Sends,
}
use go_rsync_receiver.Rsync.{SumHead}
use go_rsync_receiver.Sender.Whole.Written.{chunk_writes}
use go_rsync_receiver.Sender.Whole.Delivery.{IsChunk}
use go_rsync_receiver.Sender.Search.Slices.{slice, slice-add, length-slice}
use go_rsync_receiver.Sender.Search.{
  Search, Token, block, last, flush, chunk_size, rounds_of, token_number, token_length, on_wire,
  add_hash, set_last, ask, send_chunks, hash_chunks, simple_send_token, matched,
}

-- The writes of a token's number.
abbrev pub token_writes : Token → List Bytes
token_writes (block i) = int32_bytes (negsuc i) ∷ []
token_writes last = int32_bytes (pos 0) ∷ []
token_writes flush = []

token_number-Sends : (token : Token) → Sends (token_number token) (token_writes token) tt
unfolding token_number
token_number-Sends (block i) = write_int32-Sends (negsuc i)
token_number-Sends last = write_int32-Sends (pos 0)
token_number-Sends flush = Sends-return tt

pub on_wire-Sends :
    {M : Type 0} (m : Prog Conn (Unit {0})) (ps : List Bytes) (s : Search M)
    → Sends m ps tt
    → IsReliable s.conn
    → on_wire m s ≡ (ok tt, record s { conn = sent ps s.conn })
unfolding on_wire
on_wire-Sends m ps s h r = rw (h s.conn r) refl

-- The window `ptr` serves the bytes of `content` while it is in a `Good` state.
abbrev pub Serves : {M : Type 0} → (ℕ → ℤ → M → Bytes × M) → Bytes → (M → Type 0) → Type 0
Serves {M} ptr content Good =
    (offset n : ℕ) (m : M)
    → Good m
    → offset + n ≤ length content
    → ((ptr offset (pos n) m).0 ≡ slice content offset n) × Good (ptr offset (pos n) m).1

module _ {M : Type 0} (ptr : ℕ → ℤ → M → Bytes × M) (content : Bytes) (Good : M → Type 0)
    (serves : Serves ptr content Good) (small : length content < 2 ^ 31) where
  pub ask-slice :
      (offset n : ℕ) (s : Search M)
      → Good s.map
      → offset + n ≤ length content
      → (m : M) × (ask ptr offset n s ≡ (ok (slice content offset n), record s { map = m }))
        × Good m
  unfolding ask
  ask-slice offset n s g h =
      let e : wrap_i32 (pos n) ≡ pos n = to_i32-to_u32 (pos n) (omega arith) in
      let (bytes, good) = serves offset n s.map g h in
      ((ptr offset (pos n) s.map).1, rw (e, bytes) refl, good)

  hash_chunks-slice :
      (rounds offset n : ℕ) (s : Search M)
      → Good s.map
      → offset + n ≤ length content
      → n ≤ rounds * chunk_size
      → (m : M) × (hash_chunks ptr rounds offset n s
          ≡ (ok tt, record s { hashed = s.hashed ++ slice content offset n; map = m }))
        × Good m
  unfolding hash_chunks add_hash
  hash_chunks-slice zero offset n s g h k =
      let e : n ≡ 0 = omega arith in (s.map, rw (e, append-nil) refl, g)
  hash_chunks-slice (suc rounds) offset n s g h k =
      let c = min chunk_size n in
      let (m, e, good) = ask-slice offset c s g (omega arith) in
      let s' : Search M = record s { hashed = s.hashed ++ slice content offset c; map = m } in
      let (m', e', good') =
        hash_chunks-slice rounds (offset + c) (n - c) s' good (omega arith) (omega arith) in
      let whole : c + (n - c) ≡ n = omega arith in
      let joined = sym (slice-add content offset c (n - c)) ∙ ap (slice content offset) whole in
      (m', rw e (e' ∙ rw (append_assoc, joined) refl), good')

  send_chunks-slice :
      (rounds offset n : ℕ) (s : Search M)
      → IsReliable s.conn
      → Good s.map
      → offset + n ≤ length content
      → n ≤ rounds * chunk_size
      → rounds * chunk_size < n + chunk_size
      → (ps : List Bytes) × (m : M) × (send_chunks ptr rounds offset n s
          ≡ (ok tt, record s { conn = sent (chunk_writes ps) s.conn; map = m }))
        × Good m
        × All IsChunk ps
        × (concat ps ≡ slice content offset n)
  unfolding send_chunks chunk_writes
  send_chunks-slice zero offset n s r g h k l =
      let e : n ≡ 0 = omega arith in ([], s.map, rw sent-nil refl, g, tt, rw e refl)
  send_chunks-slice (suc rounds) offset n s r g h k l =
      let c = min chunk_size n in
      let p = slice content offset c in
      let (m, e, good) = ask-slice offset c s g (omega arith) in
      let s1 : Search M = record s { map = m } in
      let s2 : Search M = record s1 { conn = sent (int32_bytes (pos c) ∷ []) s.conn } in
      let s3 : Search M = record s1 { conn = sent (p ∷ []) s2.conn } in
      let r2 = sent-IsReliable (int32_bytes (pos c) ∷ []) s.conn r in
      let (ps, m', e', good', chunks, all) =
        send_chunks-slice rounds (offset + c) (n - c) s3 (sent-IsReliable (p ∷ []) s2.conn r2) good
          (omega arith) (omega arith) (omega arith) in
      let w : wrap_i32 (pos c) ≡ pos c = to_i32-to_u32 (pos c) (omega arith) in
      let len : length p ≡ c = length-slice content offset c (omega arith) in
      let whole : c + (n - c) ≡ n = omega arith in
      let joined = sym (slice-add content offset c (n - c)) ∙ ap (slice content offset) whole in
      (
        p ∷ ps,
        m',
        rw (e, w)
            (rw
              (on_wire-Sends (write_int32 (pos c)) (int32_bytes (pos c) ∷ []) s1
                (write_int32-Sends (pos c)) r)
              (rw (on_wire-Sends (write p) (p ∷ []) s2 (write-Sends p) r2)
                (e' ∙ rw (sent-append, sent-append, len) refl))),
        good',
        ((omega arith, omega arith), chunks),
        rw all joined,
      )

  -- What matched does with `n` bytes that were not matched and `len` that were: the first are sent as
  -- literals, all are hashed.
  pub matched-slice :
      (head : SumHead) (offset : ℕ) (token : Token) (len : ℕ) (s : Search M)
      → IsReliable s.conn
      → Good s.map
      → s.last_match ≤ offset
      → offset + len ≤ length content
      → ((t : Search M) → token_length head.sums token t ≡ (ok len, t))
      → (ps : List Bytes) × (m : M) × (matched ptr head offset token s ≡ (
        ok tt,
        record s {
          conn = sent (chunk_writes ps ++ token_writes token) s.conn;
          hashed = s.hashed ++ slice content s.last_match (offset - s.last_match + len);
          map = m;
          last_match = offset + len;
        },
      ))
        × Good m
        × All IsChunk ps
        × (concat ps ≡ slice content s.last_match (offset - s.last_match))
  unfolding matched simple_send_token set_last
  matched-slice head offset token len s r g l h t =
      let n = offset - s.last_match in
      let (ps, m, e, good, chunks, all) =
        send_chunks-slice (rounds_of n) s.last_match n s r g (omega arith) (omega arith)
          (omega arith) in
      let s1 : Search M = record s { conn = sent (chunk_writes ps) s.conn; map = m } in
      let r1 = sent-IsReliable (chunk_writes ps) s.conn r in
      let s2 : Search M = record s1 { conn = sent (token_writes token) s1.conn } in
      let (m', e', good') =
        hash_chunks-slice (rounds_of (n + len)) s.last_match (n + len) s2 good (omega arith)
          (omega arith) in
      (
        ps,
        m',
        rw e (
            rw
              (on_wire-Sends (token_number token) (token_writes token) s1 (token_number-Sends token)
                r1)
              (rw (t s2) (rw e' (rw sent-append refl)))),
        good',
        chunks,
        all,
      )
