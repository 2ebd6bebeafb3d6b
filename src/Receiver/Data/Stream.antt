-- ===== src/Receiver/Data/Stream.antt =====
-- What the token loop makes of a well-formed stream of tokens: literal bytes, and blocks of the
-- local file.
use go_rsync_receiver.Prelude.{
  ℕ, zero, suc, ◌+◌, ◌*◌, ◌^◌, ◌<◌, ◌≡◌, refl, ◌∙◌, List, [], ◌∷◌, ◌++◌, append-nil, append_assoc,
  Option, some, arith, Bytes, length, length-append,
}
use go_rsync_receiver.Prelude.Int.{pos, negsuc}
use go_rsync_receiver.Outcome.{ok}
use go_rsync_receiver.Wire.{read_full, read_int32, int32_bytes}
use go_rsync_receiver.Wire.Received.{
  Reads, Reads-bind, Reads-map, received, received-input, received-received, read_int32-int32_bytes,
  read_full-Reads, length-int32_bytes,
}
use go_rsync_receiver.Rsync.{SumHead}
use go_rsync_receiver.Files.{LocalFile, got}
use go_rsync_receiver.Receiver.Data.Lengths.{HasLength, data_len-HasLength}
use go_rsync_receiver.Receiver.Data.{
  token_data, recv_token, Receiving, consume, make_length, data_len, copy_range, copy_block,
  token_step, token_loop, tokens,
}

pub data Op : Type 0 where
  literal : Bytes → Op
  copy : ℕ → Op

-- The bytes of one token, and of a stream with its end.
unfoldable pub op_bytes : Op → Bytes
op_bytes (literal p) = int32_bytes (pos (length p)) ++ p
op_bytes (copy n) = int32_bytes (negsuc n)

unfoldable pub stream : List Op → Bytes
stream [] = int32_bytes (pos 0)
stream (o ∷ os) = op_bytes o ++ stream os

-- The stream `ops` stands for `bytes`: a literal is not empty and an int32 counts it, a copied block
-- is there in the local file.
pub data Means (sh : SumHead) (local : Option LocalFile) : List Op → Bytes → Type 0 where
  nil : Means sh local [] []
  cons_literal :
      {p : Bytes} {ops : List Op} {q : Bytes}
      → 0 < length p
      → length p < 2 ^ 31
      → Means sh local ops q
      → Means sh local (literal p ∷ ops) (p ++ q)
  cons_copy :
      {n : ℕ} {ops : List Op} {q : Bytes} (file : LocalFile) (block len : ℕ) (p : Bytes)
      → n < 2 ^ 31
      → local ≡ some file
      → sh.block_length ≡ pos block
      → HasLength sh n len
      → file (n * block) len ≡ got p
      → Means sh local ops q
      → Means sh local (copy n ∷ ops) (p ++ q)

token_data-Reads :
    (p : Bytes) → 0 < length p → Reads (token_data (pos (length p))) p (pos (length p), p)
unfolding token_data
token_data-Reads [] h = elim h [ ]
token_data-Reads (x ∷ p) h =
    Reads-map (read_full _) _ (x ∷ p) (x ∷ p) _ (read_full-Reads _ (x ∷ p) refl) (λ c. refl)

recv_token-literal :
    (p : Bytes)
    → 0 < length p
    → length p < 2 ^ 31
    → Reads recv_token (op_bytes (literal p)) (pos (length p), p)
unfolding recv_token op_bytes
recv_token-literal p h k =
    Reads-bind read_int32 _ (int32_bytes (pos (length p))) p _ _ (read_int32-int32_bytes _ k)
      (token_data-Reads p h)

recv_token-copy : (n : ℕ) → n < 2 ^ 31 → Reads recv_token (op_bytes (copy n)) (negsuc n, [])
unfolding recv_token op_bytes
recv_token-copy n k =
    Reads-map read_int32 _ (int32_bytes (negsuc n)) (negsuc n) _ (read_int32-int32_bytes _ k)
      (λ c. refl)

recv_token-end : Reads recv_token (stream []) (pos 0, [])
unfolding recv_token stream
recv_token-end =
    Reads-map read_int32 _ (int32_bytes (pos 0)) (pos 0) _
      (read_int32-int32_bytes (pos 0) (omega arith)) (λ c. refl)

-- The state after `n` bytes of the connection gave `bytes`.
unfoldable pub took : ℕ → Bytes → Bytes → Receiving → Receiving
took n rest bytes s = record s {
  conn = received n rest s.conn;
  hashed = s.hashed ++ bytes;
  piped = s.piped ++ bytes;
}

pub took-conn :
    (n : ℕ) (rest bytes : Bytes) (s : Receiving) → (took n rest bytes s).conn.input ≡ rest
unfolding took
took-conn n rest bytes s = received-input n rest s.conn

took-took :
    (n m : ℕ) (rest more p q : Bytes) (s : Receiving)
    → took m rest q (took n more p s) ≡ took (n + m) rest (p ++ q) s
unfolding took
took-took n m rest more p q s = rw (received-received, append_assoc, append_assoc)

-- One round on a literal or a copied block.
round_literal :
    (fuel : ℕ) (sh : SumHead) (local : Option LocalFile) (p rest : Bytes) (s : Receiving)
    → 0 < length p
    → length p < 2 ^ 31
    → s.conn.input ≡ op_bytes (literal p) ++ rest
    → token_loop (suc fuel) sh local s
      ≡ token_loop fuel sh local (took (length (op_bytes (literal p))) rest p s)
unfolding token_loop
round_literal fuel sh local [] rest s h k e = elim h [ ]
round_literal fuel sh local (x ∷ p) rest s h k e =
    rw (recv_token-literal (x ∷ p) h k s.conn rest e) (unfold token_step consume took in refl)

copy_range_got :
    (t : Receiving) (file : LocalFile) (n block len : ℕ) (p : Bytes)
    → file (n * block) len ≡ got p
    → copy_range file n (pos block) (pos len) t ≡ consume p t
unfolding copy_range make_length
copy_range_got t file n block len p f = rw f

copy_block_got :
    (sh : SumHead) (n : ℕ) (t : Receiving) (file : LocalFile) (block len : ℕ) (p : Bytes)
    → sh.block_length ≡ pos block
    → data_len sh n ≡ pos len
    → file (n * block) len ≡ got p
    → copy_block sh (some file) n t ≡ consume p t
unfolding copy_block
copy_block_got sh n t file block len p b d f = rw (d, b) (copy_range_got t file n block len p f)

round_copy :
    (fuel : ℕ) (sh : SumHead) (local : Option LocalFile) (n : ℕ) (rest : Bytes) (s : Receiving)
    (file : LocalFile) (block len : ℕ) (p : Bytes)
    → n < 2 ^ 31
    → local ≡ some file
    → sh.block_length ≡ pos block
    → data_len sh n ≡ pos len
    → file (n * block) len ≡ got p
    → s.conn.input ≡ op_bytes (copy n) ++ rest
    → token_loop (suc fuel) sh local s
      ≡ token_loop fuel sh local (took (length (op_bytes (copy n))) rest p s)
unfolding token_loop
round_copy fuel sh local n rest s file block len p k l b d f e =
    rw (recv_token-copy n k s.conn rest e) (
      unfold token_step in
      rw (l, copy_block_got sh n _ file block len p b d f) (unfold consume took in refl))

-- With a round for each token the loop reads the stream and hands on the bytes that it stands for.
token_loop-stream :
    (fuel : ℕ) (sh : SumHead) (local : Option LocalFile) (ops : List Op) (bytes rest : Bytes)
    (s : Receiving)
    → Means sh local ops bytes
    → length ops < fuel
    → s.conn.input ≡ stream ops ++ rest
    → token_loop fuel sh local s ≡ (ok tt, took (length (stream ops)) rest bytes s)
token_loop-stream zero sh local ops bytes rest s m h e = elim h [ ]
token_loop-stream (suc fuel) sh local _ _ rest s nil h e =
    unfold token_loop in
    rw (recv_token-end s.conn rest e) (unfold token_step took in rw (append-nil, append-nil))
token_loop-stream (suc fuel) sh local _ _ rest s (cons_literal {p} {ops} {q} some' fits m) h e =
    let more = stream ops ++ rest in
    let n = length (op_bytes (literal p)) in
    round_literal fuel sh local p more s some' fits (e ∙ unfold stream in append_assoc _ _ rest)
    ∙ token_loop-stream fuel sh local ops q rest (took n more p s) m (omega arith)
        (took-conn n more p s)
    ∙ unfold stream in rw (took-took, length-append)
token_loop-stream (suc fuel) sh local _ _ rest s
      (cons_copy {n} {ops} {q} file block len p k l b d f m) h e =
    let more = stream ops ++ rest in
    let w = length (op_bytes (copy n)) in
    round_copy fuel sh local n more s file block len p k l b (data_len-HasLength sh n len d) f
      (e ∙ unfold stream in append_assoc _ _ rest)
    ∙ token_loop-stream fuel sh local ops q rest (took w more p s) m (omega arith)
        (took-conn w more p s)
    ∙ unfold stream in rw (took-took, length-append)

-- Every token takes four bytes at least.
pub length-stream : (ops : List Op) → length ops < length (stream ops)
unfolding stream op_bytes
length-stream [] = omega (arith, length-int32_bytes (pos 0))
length-stream (literal p ∷ ops) = omega (
  arith,
  length-stream ops,
  length-append (int32_bytes (pos (length p)) ++ p) (stream ops),
  length-append (int32_bytes (pos (length p))) p,
  length-int32_bytes (pos (length p)),
)
length-stream (copy n ∷ ops) = omega (
  arith,
  length-stream ops,
  length-append (int32_bytes (negsuc n)) (stream ops),
  length-int32_bytes (negsuc n),
)

pub tokens-stream :
    (sh : SumHead) (local : Option LocalFile) (ops : List Op) (bytes rest : Bytes) (s : Receiving)
    → Means sh local ops bytes
    → s.conn.input ≡ stream ops ++ rest
    → tokens sh local s ≡ (ok tt, took (length (stream ops)) rest bytes s)
unfolding tokens
tokens-stream sh local ops bytes rest s m e =
    token_loop-stream _ sh local ops bytes rest s m enough e
  where
    enough : length ops < suc (length s.conn.input)
    enough = rw e (omega (arith, length-stream ops, length-append (stream ops) rest))
