-- ===== src/Sender/HashSearch/Ready.antt =====
-- The search between two rounds: the window, and a look at it.
use go_rsync_receiver.Prelude.{
  ℕ, ◌+◌, ◌-◌, ◌%◌, ◌^◌, ◌≤◌, ◌<◌, ◌≡◌, refl, min, Bool, List, [], Option, none, some, arith, Bytes,
  length, get_elem?, All, All-take, All-drop,
}
use go_rsync_receiver.Prelude.Int.{ℤ, pos, pos_part}
use go_rsync_receiver.Outcome.{ok, Outcome}
use go_rsync_receiver.Wire.{Conn}
use go_rsync_receiver.Wire.Sent.{IsReliable}
use go_rsync_receiver.Rsync.{SumBuf, SumHead}
use go_rsync_receiver.Checksum.{Sums, tag2, checksum1, checksum2}
use go_rsync_receiver.Files.{LocalFile}
use go_rsync_receiver.Sender.Roll.{halves}
use go_rsync_receiver.Sender.Search.{Target, Search, read_chunk, set_window}
use go_rsync_receiver.Sender.Search.Slices.{slice}
use go_rsync_receiver.Sender.Search.Tokens.{Serves, ask-slice}
use go_rsync_receiver.Sender.Search.Rolling.{Rolled}
use go_rsync_receiver.Sender.HashSearch.{TagTable, lookup_tag, look_from, look}
use go_rsync_receiver.Sender.HashSearch.Found.{short, HasBlock, Looked, try_targets-Looked}
use go_rsync_receiver.Sender.HashSearch.Progress.{Covered, Copies}

-- Block `i` of the receiver, with the checksums `sb`: its bytes `p` are there in the receiver's file, `sb`
-- holds their length and strong checksum, and no other range of `content` of that length has that
-- checksum.
pub record Signed (md4 : Bytes → Bytes) (seed : ℤ) (head : SumHead) (local : Option LocalFile)
    (content : Bytes) (i : ℕ) (sb : SumBuf) : Type 0 where
  pub len : ℕ
  pub p : Bytes
  pub some_bytes : 0 < len
  pub listed : sb.len ≡ pos len
  pub copies : Copies (record head { sums = [] }) local p len i
  pub signed : short head sb.sum2 ≡ short head (checksum2 md4 seed p)
  pub alone :
      (offset : ℕ)
      → offset + len ≤ length content
      → short head (checksum2 md4 seed (slice content offset len))
        ≡ short head (checksum2 md4 seed p)
      → slice content offset len ≡ p

module _ {M : Type 0} (ptr : ℕ → ℤ → M → Bytes × M) (content : Bytes) (Good : M → Type 0)
    (serves : Serves ptr content Good) (small : length content < 2 ^ 31) (md4 : Bytes → Bytes)
    (seed : ℤ) (head : SumHead) (local : Option LocalFile) (start : Bytes) (c : Conn)
    (reliable : IsReliable c) (some_block : 0 < pos_part head.block_length)
    (signed : (i : ℕ) (sb : SumBuf)
      → get_elem? head.sums i ≡ some sb
      → Signed md4 seed head local content i sb)
    (targets : List Target) (all : All (HasBlock head) targets) (table : TagTable) where
  abbrev pub Done : Search M → Type 0
  Done s =
      Covered ptr content Good serves small (record head { sums = [] }) head local start c reliable
        [] s

  -- The window is that of the offset, and the last match ends at most `slack` behind it.
  pub record Ready (slack : ℕ) (s : Search M) : Type 0 where
    pub covered : Done s
    pub rolled : Rolled content (pos_part head.block_length) s
    pub near : s.last_match ≤ s.offset + slack

  -- A step that leaves what is covered as it was.
  pub Done-window :
      (s : Search M) (map : M) (offset k : ℕ) (sums : Sums)
      → Done s
      → Good map
      → Done (record s { map = map; offset = offset; k = k; sums = sums })
  Done-window s map offset k sums v g = record {
    good = g;
    within = v.within;
    ops = v.ops;
    writes = v.writes;
    conn = v.conn;
    wire = v.wire;
    means = v.means;
    hashed = v.hashed;
  }

  pub read_chunk-Ready :
      (s : Search M)
      → Done s
      → s.offset < length content
      → s.last_match ≤ s.offset + 1
      → (t : Search M) × (read_chunk ptr head (length content) s ≡ (ok tt, t))
        × (t.offset ≡ s.offset)
        × (t.last_match ≡ s.last_match)
        × Ready 1 t
  unfolding read_chunk set_window
  read_chunk-Ready s v h near =
      let k = min (pos_part head.block_length) (length content - s.offset) in
      let (m, e, good) =
        ask-slice ptr content Good serves small s.offset k s v.good (omega arith) in
      let sums = halves (checksum1 (slice content s.offset k)) in
      (
        record s { map = m; k = k; sums = sums },
        rw e refl,
        refl,
        refl,
        record {
          covered = Done-window s m s.offset k sums v good;
          rolled = record { inside = h; window = refl; summed = refl };
          near = near;
        },
      )

  pub look-Looked :
      (s : Search M)
      → Ready 0 s
      → Looked ptr content Good serves small md4 seed head s.offset
          (min (pos_part head.block_length) (length content - s.offset))
          s
          (look ptr md4 seed head (length content) targets table s)
  unfolding look look_from
  look-Looked s v = go (lookup_tag (tag2 (s.sums.s1 % 2 ^ 16) (s.sums.s2 % 2 ^ 16)) table)
    where
      go :
          (found : Option ℕ)
          → Looked ptr content Good serves small md4 seed head s.offset
              (min (pos_part head.block_length) (length content - s.offset))
              s
              (look_from ptr md4 seed head
                (length content)
                targets
                (tag2 (s.sums.s1 % 2 ^ 16) (s.sums.s2 % 2 ^ 16))
                found
                s)
      go none = record { hit = none; map = s.map; result = refl; good = v.covered.good; found = tt }
      go (some j) =
          try_targets-Looked ptr content Good serves small md4 seed head s.offset _ _ _ _ none s
            (All-take (HasBlock head) _ _ (All-drop (HasBlock head) j targets all)) tt
            v.covered.good (ground (arith, v.rolled.inside))

  -- What is left of a match: it is sent, and the window stands on its last byte.
  pub record Taken (s : Search M) (r : Outcome Bool × Search M) : Type 0 where
    pub left : Bool
    pub state : Search M
    pub result : r ≡ (ok left, state)
    pub ready : Ready 1 state
    pub onward : s.offset ≤ state.offset
