-- ===== src/Sender/HashSearch/Progress.antt =====
-- What the search has sent and hashed: a stream that stands for the file up to the last match.
use go_rsync_receiver.Prelude.{
  ℕ, ◌+◌, ◌-◌, ◌*◌, ◌^◌, ◌≤◌, ◌<◌, ◌≡◌, refl, sym, ap, ◌∙◌, List, [], ◌∷◌, ◌++◌, map, append-nil,
  append_assoc, Option, some, arith, Bytes, length, concat, subst,
}
use go_rsync_receiver.Prelude.Int.{ℤ, pos}
use go_rsync_receiver.Outcome.{ok}
use go_rsync_receiver.Wire.{Conn, int32_bytes}
use go_rsync_receiver.Wire.Sent.{IsReliable, sent, sent-append, sent-IsReliable, concat-append}
use go_rsync_receiver.Rsync.{SumHead}
use go_rsync_receiver.Files.{LocalFile, got}
use go_rsync_receiver.Receiver.Data.Lengths.{HasLength}
use go_rsync_receiver.Receiver.Data.Stream.{
  Op, literal, copy, op_bytes, stream, Means, nil, cons_literal, cons_copy,
}
use go_rsync_receiver.Sender.Whole.Written.{chunk_writes}
use go_rsync_receiver.Sender.Whole.Delivery.{literals, literals-Means}
use go_rsync_receiver.Sender.Search.{Search, Token, block, last, flush, token_length, matched}
use go_rsync_receiver.Sender.Search.Slices.{slice, slice-add}
use go_rsync_receiver.Sender.Search.Tokens.{Serves, token_writes, matched-slice}

abbrev pub ops_bytes : List Op → Bytes
ops_bytes ops = concat (map op_bytes ops)

ops_bytes-append : (xs ys : List Op) → ops_bytes (xs ++ ys) ≡ ops_bytes xs ++ ops_bytes ys
ops_bytes-append [] ys = refl
ops_bytes-append (o ∷ xs) ys = rw (ops_bytes-append xs ys, append_assoc)

pub stream_lem : (ops : List Op) → ops_bytes ops ++ int32_bytes (pos 0) ≡ stream ops
unfolding stream
stream_lem [] = refl
stream_lem (o ∷ ops) =
    append_assoc (op_bytes o) (ops_bytes ops) (int32_bytes (pos 0))
    ∙ ap (◌++◌ (op_bytes o)) (stream_lem ops)

concat-chunk_writes : (ps : List Bytes) → concat (chunk_writes ps) ≡ ops_bytes (literals ps)
unfolding chunk_writes op_bytes
concat-chunk_writes [] = refl
concat-chunk_writes (p ∷ ps) = rw (concat-chunk_writes ps, append_assoc)

Means-append :
    (sh : SumHead) (local : Option LocalFile) (xs ys : List Op) (p q : Bytes)
    → Means sh local xs p
    → Means sh local ys q
    → Means sh local (xs ++ ys) (p ++ q)
Means-append sh local _ ys _ q nil n = n
Means-append sh local _ ys _ q (cons_literal {p} {ops} {q = more} some' fits m) n =
    subst (Means sh local (literal p ∷ (ops ++ ys))) (sym (append_assoc p more q))
      (cons_literal some' fits (Means-append sh local ops ys more q m n))
Means-append sh local _ ys _ q (cons_copy {n = i} {ops} {q = more} file size len p k l b d f m) n =
    subst (Means sh local (copy i ∷ (ops ++ ys))) (sym (append_assoc p more q))
      (cons_copy file size len p k l b d f (Means-append sh local ops ys more q m n))

-- The operations of a token, and the bytes behind them.
abbrev pub token_ops : Token → List Op
token_ops (block i) = copy i ∷ []
token_ops last = []
token_ops flush = []

abbrev pub token_end : Token → Bytes
token_end (block i) = []
token_end last = int32_bytes (pos 0)
token_end flush = []

concat-token_writes :
    (token : Token) → concat (token_writes token) ≡ ops_bytes (token_ops token) ++ token_end token
unfolding op_bytes
concat-token_writes (block i) = sym (append-nil _)
concat-token_writes last = append-nil _
concat-token_writes flush = refl

-- The receiver has the `len` bytes `p` of block `i`.
pub record Copies (sh : SumHead) (local : Option LocalFile) (p : Bytes) (len i : ℕ) : Type 0 where
  pub file : LocalFile
  pub block_len : ℕ
  pub number : i < 2 ^ 31
  pub there : local ≡ some file
  pub blocks : sh.block_length ≡ pos block_len
  pub long : HasLength sh i len
  pub read : file (i * block_len) len ≡ got p

pub copy-Means :
    (sh : SumHead) (local : Option LocalFile) (p : Bytes) (len i : ℕ)
    → Copies sh local p len i
    → Means sh local (copy i ∷ []) p
copy-Means sh local p len i c =
    subst (Means sh local (copy i ∷ [])) (append-nil p)
      (cons_copy c.file c.block_len len p c.number c.there c.blocks c.long c.read nil)

module _ {M : Type 0} (ptr : ℕ → ℤ → M → Bytes × M) (content : Bytes) (Good : M → Type 0)
    (serves : Serves ptr content Good) (small : length content < 2 ^ 31) (sh head : SumHead)
    (local : Option LocalFile) (start : Bytes) (c : Conn) (reliable : IsReliable c) where
  -- Since `c` the search has written a stream that stands for the file up to the last match, and
  -- `tail`; it has hashed these bytes behind `start`.
  pub record Covered (tail : Bytes) (s : Search M) : Type 0 where
    pub good : Good s.map
    pub within : s.last_match ≤ length content
    pub ops : List Op
    pub writes : List Bytes
    pub conn : s.conn ≡ sent writes c
    pub wire : concat writes ≡ ops_bytes ops ++ tail
    pub means : Means sh local ops (slice content 0 s.last_match)
    pub hashed : s.hashed ≡ start ++ slice content 0 s.last_match

  pub record Moved (offset len : ℕ) (token : Token) (s : Search M) : Type 0 where
    pub conn : Conn
    pub hashed : Bytes
    pub map : M
    pub result :
        matched ptr head offset token s
        ≡ (ok tt, record s { conn = conn; hashed = hashed; map = map; last_match = offset + len })
    pub covered :
        Covered
          (token_end token)
          (record s { conn = conn; hashed = hashed; map = map; last_match = offset + len })

  pub matched-Covered :
      (offset len : ℕ) (token : Token) (s : Search M)
      → Covered [] s
      → s.last_match ≤ offset
      → offset + len ≤ length content
      → ((t : Search M) → token_length head.sums token t ≡ (ok len, t))
      → Means sh local (token_ops token) (slice content offset len)
      → Moved offset len token s
  matched-Covered offset len token s v l h t copies =
      let n = offset - s.last_match in
      let r : IsReliable s.conn =
        subst IsReliable (sym v.conn) (sent-IsReliable v.writes c reliable) in
      let (ps, m, e, good, chunks, all) =
        matched-slice ptr content Good serves small head offset token len s r v.good l h t in
      let writes = chunk_writes ps ++ token_writes token in
      let end : s.last_match + (n + len) ≡ offset + len = omega arith in
      let zero_add : s.last_match ≡ 0 + s.last_match = omega arith in
      let start' : s.last_match + n ≡ offset = omega arith in
      let run : slice content s.last_match (n + len) ≡ concat ps ++ slice content offset len =
        slice-add content s.last_match n len ∙ (λ i. sym all i ++ slice content (start' i) len) in
      let grown : slice content 0 s.last_match ++ slice content s.last_match (n + len)
          ≡ slice content 0 (offset + len) =
        ap (λ (x : ℕ). slice content 0 s.last_match ++ slice content x (n + len)) zero_add
        ∙ sym (slice-add content 0 s.last_match (n + len))
        ∙ ap (slice content 0) end in
      record {
        conn = sent writes s.conn;
        hashed = s.hashed ++ slice content s.last_match (n + len);
        map = m;
        result = e;
        covered = record {
          good = good;
          within = h;
          ops = v.ops ++ (literals ps ++ token_ops token);
          writes = v.writes ++ writes;
          conn = ap (sent writes) v.conn ∙ sent-append v.writes writes c;
          wire =
              concat-append v.writes writes
              ∙ rw (v.wire, concat-append, concat-chunk_writes, concat-token_writes)
                  (rw (ops_bytes-append, ops_bytes-append) (simp (append-nil, append_assoc)));
          means =
              subst (Means sh local (v.ops ++ (literals ps ++ token_ops token)))
                (ap (◌++◌ (slice content 0 s.last_match)) (sym run) ∙ grown)
                (Means-append sh local v.ops _ _ _ v.means (
                  Means-append sh local (literals ps) _ _ _ (literals-Means sh local ps chunks)
                    copies));
          hashed =
              ap (λ (x : Bytes). x ++ slice content s.last_match (n + len)) v.hashed
              ∙ append_assoc start (slice content 0 s.last_match)
                  (slice content s.last_match (n + len))
              ∙ ap (◌++◌ start) grown;
        };
      }
