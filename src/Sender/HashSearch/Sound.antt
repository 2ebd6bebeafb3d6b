-- ===== src/Sender/HashSearch/Sound.antt =====
-- hashSearch from its first write to its last, and the receiver's side of it.
use go_rsync_receiver.Prelude.{
  ℕ, suc, ◌+◌, ◌^◌, ◌≤◌, ◌<◌, ◌≡◌, refl, sym, ap, ◌∙◌, List, [], ◌∷◌, Option, some, arith, Bytes,
  length, take, get_elem?, All, subst,
}
use go_rsync_receiver.Prelude.Int.{ℤ, pos, pos_part}
use go_rsync_receiver.Outcome.{ok, Outcome, ◌>>◌}
use go_rsync_receiver.Wire.{Conn}
use go_rsync_receiver.Wire.Sent.{IsReliable}
use go_rsync_receiver.Rsync.{SumBuf, SumHead}
use go_rsync_receiver.Files.{LocalFile}
use go_rsync_receiver.Receiver.Data.Stream.{nil}
use go_rsync_receiver.Sender.Search.{Target, Search, sum_at, token_length, matched}
use go_rsync_receiver.Sender.Search.Slices.{slice}
use go_rsync_receiver.Sender.Search.Tokens.{Serves}
use go_rsync_receiver.Sender.HashSearch.{TagTable}
use go_rsync_receiver.Sender.HashSearch.Found.{HasBlock}
use go_rsync_receiver.Sender.HashSearch.Progress.{Covered, matched-Covered}
use go_rsync_receiver.Prelude.{◌++◌, append-nil, concat, take-length-append}
use go_rsync_receiver.Prelude.Words.{to_u32}
use go_rsync_receiver.Wire.{le_bytes, int32_bytes, write, write_int32, write_string}
use go_rsync_receiver.Wire.Sent.{
  sent, sent-nil, sent-append, sent-IsReliable, concat-append, write-Sends, write_int32-Sends,
  write_string-Sends,
}
use go_rsync_receiver.Rsync.{head_bytes, write_to}
use go_rsync_receiver.Receiver.Data.Stream.{Op, stream, Means}
use go_rsync_receiver.Sender.Search.{last}
use go_rsync_receiver.Sender.Search.Tokens.{on_wire-Sends}
use go_rsync_receiver.Sender.HashSearch.{
  last_of, search_end, search_from, search_file, searching, write_sum, hash_search, size_is,
  read_size,
}
use go_rsync_receiver.Sender.HashSearch.Progress.{stream_lem}
use go_rsync_receiver.Sender.HashSearch.Ready.{Signed, Done, read_chunk-Ready}
use go_rsync_receiver.Sender.HashSearch.Rounds.{IsReady, search_loop-Ended}

last_of-listed :
    (sums : List SumBuf) (sb : SumBuf)
    → last_of sums ≡ some sb
    → (i : ℕ) × (get_elem? sums i ≡ some sb)
unfolding last_of
last_of-listed [] sb e = absurd (ground (arith, e))
last_of-listed (x ∷ []) sb e = (0, e)
last_of-listed (x ∷ y ∷ rest) sb e = let (i, h) = last_of-listed (y ∷ rest) sb e in (suc i, h)

search_end_small : (size n : ℕ) (sb : SumBuf) → 0 < n → sb.len ≡ pos n → search_end size sb ≤ size
unfolding search_end
search_end_small size n sb h e = rw e (ground (arith, h))

module _ {M : Type 0} (ptr : ℕ → ℤ → M → Bytes × M) (content : Bytes) (Good : M → Type 0)
    (serves : Serves ptr content Good) (small : length content < 2 ^ 31) (md4 : Bytes → Bytes)
    (seed : ℤ) (head : SumHead) (local : Option LocalFile)
    (some_block : 0 < pos_part head.block_length)
    (signed : (i : ℕ) (sb : SumBuf)
      → get_elem? head.sums i ≡ some sb
      → Signed md4 seed head local content i sb)
    (targets : List Target) (all : All (HasBlock head) targets) (table : TagTable) where
  -- The search that began with `c`: all of `content` is on the wire as a stream, and its checksum.
  record Whole (c : Conn) (r : Outcome (Unit {0}) × Search M) : Type 0 where
    state : Search M
    ops : List Op
    writes : List Bytes
    result : r ≡ (ok tt, state)
    conn : state.conn ≡ sent (writes ++ (md4 (le_bytes 4 (to_u32 seed) ++ content) ∷ [])) c
    wire : concat writes ≡ stream ops
    means : Means (record head { sums = [] }) local ops content

  -- The last of the tokens, and the checksum.
  closing_lem :
      (c : Conn) (reliable : IsReliable c) (s : Search M)
      → Covered ptr content Good serves small
          (record head { sums = [] })
          head
          local
          (le_bytes 4 (to_u32 seed))
          c
          reliable
          []
          s
      → Whole c ((matched ptr head (length content) last >> write_sum md4) s)
  unfolding write_sum
  closing_lem c reliable s v =
      let start = le_bytes 4 (to_u32 seed) in
      let size = length content in
      let m =
        matched-Covered ptr content Good serves small (record head { sums = [] }) head local start c
          reliable size 0 last s v v.within (omega arith) (λ t. unfold token_length in refl) nil in
      let none_left : size + 0 ≡ size = omega arith in
      let whole : slice content 0 (size + 0) ≡ content =
        ap (slice content 0) none_left
        ∙ ap (take size) (sym (append-nil content))
        ∙ take-length-append size content [] refl in
      let w = m.covered in
      let sum = md4 (start ++ content) in
      let r : IsReliable m.conn =
        subst IsReliable (sym w.conn) (sent-IsReliable w.writes c reliable) in
      let s1 : Search M = record s {
        conn = m.conn;
        hashed = m.hashed;
        map = m.map;
        last_match = size + 0;
      } in
      let hashed : m.hashed ≡ start ++ content = w.hashed ∙ ap (◌++◌ start) whole in
      record {
        state = record s1 { conn = sent (md4 m.hashed ∷ []) m.conn };
        ops = w.ops;
        writes = w.writes;
        result =
            rw m.result
              (on_wire-Sends (write (md4 m.hashed)) (md4 m.hashed ∷ []) s1 (write-Sends _) r);
        conn = (λ i. sent (md4 (hashed i) ∷ []) (w.conn i)) ∙ sent-append w.writes (sum ∷ []) c;
        wire = w.wire ∙ stream_lem w.ops;
        means = subst (Means (record head { sums = [] }) local w.ops) whole w.means;
      }

  search_from-Whole :
      (map : M) (c : Conn) (final : SumBuf)
      → IsReliable c
      → Good map
      → 0 < length content
      → last_of head.sums ≡ some final
      → Whole c (
          search_from ptr md4 seed head (length content) targets table final (searching seed map c))
  unfolding search_from searching
  search_from-Whole map c final reliable g h e =
      let start = le_bytes 4 (to_u32 seed) in
      let s = searching seed map c in
      let (i, listed) = last_of-listed head.sums final e in
      let sig = signed i final listed in
      let end = search_end (length content) final in
      let before = search_end_small (length content) sig.len final sig.some_bytes sig.listed in
      let begun : Done ptr content Good serves small md4 seed head local (le_bytes 4 (to_u32 seed))
          c reliable some_block signed targets all table s =
        record {
          good = g;
          within = omega arith;
          ops = [];
          writes = [];
          conn = sym (sent-nil c);
          wire = refl;
          means = nil;
          hashed = sym (append-nil start);
        } in
      let (t, read, same, last_match, ready) =
        read_chunk-Ready ptr content Good serves small md4 seed head local
          (le_bytes 4 (to_u32 seed)) c reliable some_block signed targets all table s begun h
          (omega arith) in
      let at_start : IsReady ptr content Good serves small md4 seed head local
          (le_bytes 4 (to_u32 seed)) c reliable some_block signed targets all table end before 0 t =
        record {
          covered = ready.covered;
          rolled = ready.rolled;
          near = omega (arith, same, last_match);
        } in
      let l =
        search_loop-Ended ptr content Good serves small md4 seed head local
          (le_bytes 4 (to_u32 seed)) c reliable some_block signed targets all table end before
          (suc (length content + 1)) t at_start (omega arith) in
      let w = closing_lem c reliable l.state l.done in
      record {
        state = w.state;
        ops = w.ops;
        writes = w.writes;
        result = rw (read, l.result) w.result;
        conn = w.conn;
        wire = w.wire;
        means = w.means;
      }

  -- hashSearch over a connection that takes every write, on a file that is not empty and shorter than
  -- 2 ^ 31 bytes, with a window that serves the file's bytes, blocks as the receiver signed them, and no
  -- strong checksum shared by different bytes of the file and a block: it does not fail, and writes the
  -- file's index, the head, a stream of literals and block numbers that stands for exactly the
  -- file's bytes, and the checksum of the seed and these bytes.
  pub hash_search-stream :
      (map_file : ℕ → ℕ → ℕ → M) (index : ℤ) (final : SumBuf) (c : Conn)
      → Good (map_file (length content) (read_size head) (pos_part head.block_length))
      → 0 < length content
      → last_of head.sums ≡ some final
      → IsReliable c
      → (ops : List Op) × (ws : List Bytes) × (hash_search ptr md4 seed map_file index head targets
            table
            (size_is (length content))
            c
          ≡ (ok tt, sent ws c))
        × (concat ws
            ≡ int32_bytes index
              ++ (head_bytes head ++ (stream ops ++ md4 (le_bytes 4 (to_u32 seed) ++ content))))
        × Means (record head { sums = [] }) local ops content
  unfolding hash_search search_file write_to searching sum_at
  hash_search-stream map_file index final c g h e r =
      let map = map_file (length content) (read_size head) (pos_part head.block_length) in
      let sum = md4 (le_bytes 4 (to_u32 seed) ++ content) in
      let first = int32_bytes index ∷ [] in
      let second = head_bytes head ∷ [] in
      let c1 = sent first c in
      let c2 = sent second c1 in
      let r1 = sent-IsReliable first c r in
      let w = search_from-Whole map c2 final (sent-IsReliable second c1 r1) g h e in
      let ws = w.writes ++ (sum ∷ []) in
      let joined : sent ws c2 ≡ sent (first ++ (second ++ ws)) c =
        sent-append second ws c1 ∙ sent-append first (second ++ ws) c in
      let bytes : concat ws ≡ stream w.ops ++ sum =
        concat-append w.writes (sum ∷ []) ∙ rw (w.wire, append-nil) refl in
      (
        w.ops,
        first ++ (second ++ ws),
        rw
            (on_wire-Sends (write_int32 index) first (searching seed map c)
              (write_int32-Sends index) r)
            (rw
              (
                on_wire-Sends (write_string (head_bytes head)) second (searching seed map c1)
                    (write_string-Sends _) r1,
                e,
                w.result,
              )
              (λ i. (ok tt, (w.conn ∙ joined) i))),
        ap (λ (x : Bytes). int32_bytes index ++ (head_bytes head ++ x)) bytes,
        w.means,
      )
