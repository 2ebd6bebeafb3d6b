-- ===== src/Sender/HashSearch/Rounds.antt =====
-- A round of the search, and the rounds until the end.
use go_rsync_receiver.Prelude.{
  ℕ, zero, suc, ◌+◌, ◌-◌, ◌^◌, ◌≤◌, ◌<◌, ◌≡◌, refl, sym, ap, ◌∙◌, min, Bool, true, false, ◌&&◌,
  List, [], Option, some, arith, Bytes, length, get_elem?, leb, ltb, Bool-cases, inl, inr, All,
}
use go_rsync_receiver.Prelude.Int.{ℤ, pos_part}
use go_rsync_receiver.Outcome.{ok, Outcome}
use go_rsync_receiver.Wire.{Conn}
use go_rsync_receiver.Wire.Sent.{IsReliable}
use go_rsync_receiver.Rsync.{SumBuf, SumHead}
use go_rsync_receiver.Checksum.{checksum1}
use go_rsync_receiver.Files.{LocalFile}
use go_rsync_receiver.Receiver.Data.Stream.{nil}
use go_rsync_receiver.Sender.Roll.{halves}
use go_rsync_receiver.Sender.Search.{
  Target, Search, flush, token_length, flush_run, next_offset, advance, chunk_size,
}
use go_rsync_receiver.Sender.Search.Slices.{slice}
use go_rsync_receiver.Sender.Search.Tokens.{Serves}
use go_rsync_receiver.Sender.Search.Rolling.{update_sums-Rolled}
use go_rsync_receiver.Sender.HashSearch.{TagTable, round}
use go_rsync_receiver.Sender.HashSearch.Found.{HasBlock}
use go_rsync_receiver.Sender.HashSearch.Progress.{matched-Covered}
use go_rsync_receiver.Sender.HashSearch.{search_loop}
use go_rsync_receiver.Sender.HashSearch.Ready.{Signed, Done, Done-window, Ready, look-Looked}
use go_rsync_receiver.Sender.HashSearch.Taking.{take_match-Taken}

module _ {M : Type 0} (ptr : ℕ → ℤ → M → Bytes × M) (content : Bytes) (Good : M → Type 0)
    (serves : Serves ptr content Good) (small : length content < 2 ^ 31) (md4 : Bytes → Bytes)
    (seed : ℤ) (head : SumHead) (local : Option LocalFile) (start : Bytes) (c : Conn)
    (reliable : IsReliable c) (some_block : 0 < pos_part head.block_length)
    (signed : (i : ℕ) (sb : SumBuf)
      → get_elem? head.sums i ≡ some sb
      → Signed md4 seed head local content i sb)
    (targets : List Target) (all : All (HasBlock head) targets) (table : TagTable) (end : ℕ)
    (before : end ≤ length content) where
  abbrev pub IsDone : Search M → Type 0
  IsDone s =
      Done ptr content Good serves small md4 seed head local start c reliable some_block signed
        targets all table s

  abbrev pub IsReady : ℕ → Search M → Type 0
  IsReady slack s =
      Ready ptr content Good serves small md4 seed head local start c reliable some_block signed
        targets all table slack s

  -- A long run is flushed or not; the window stays.
  record Flushed (s : Search M) (r : Outcome (Unit {0}) × Search M) : Type 0 where
    state : Search M
    result : r ≡ (ok tt, state)
    done : IsDone state
    near : state.last_match ≤ s.offset + 1
    offset : state.offset ≡ s.offset
    k : state.k ≡ s.k
    sums : state.sums ≡ s.sums

  flush_run-Flushed :
      (s : Search M)
      → IsDone s
      → s.last_match ≤ s.offset + 1
      → s.offset < length content
      → Flushed s (flush_run ptr head end (s.offset - s.last_match) s)
  unfolding flush_run
  flush_run-Flushed s v near h =
      let b = pos_part head.block_length in
      let backup = s.offset - s.last_match in
      elim (Bool-cases (leb (b + chunk_size) backup && ltb (s.offset + chunk_size) end)) [
        | inr stays ↦ record {
          state = s;
          result = rw stays refl;
          done = v;
          near = near;
          offset = refl;
          k = refl;
          sums = refl;
        }
        | inl flushes ↦
            let far : b + chunk_size ≤ backup = ground (arith, flushes) in
            let m =
              matched-Covered ptr content Good serves small (record head { sums = [] }) head local
                start c reliable (s.offset - b) 0 flush s v (omega (arith, far))
                (omega (arith, far)) (λ t. unfold token_length in refl) nil in
            record {
              state = record s {
                conn = m.conn;
                hashed = m.hashed;
                map = m.map;
                last_match = s.offset - b + 0;
              };
              result = rw flushes m.result;
              done = m.covered;
              near = omega arith;
              offset = refl;
              k = refl;
              sums = refl;
            }
      ]

  -- A round's outcome: what is covered stays so, and if there is a next round, it starts further on.
  pub record Went (offset : ℕ) (r : Outcome Bool × Search M) : Type 0 where
    pub more : Bool
    pub state : Search M
    pub result : r ≡ (ok more, state)
    pub done : IsDone state
    pub ready : more ≡ true → IsReady 0 state
    pub onward : more ≡ true → offset < state.offset

  advance-Went :
      (s : Search M) → IsReady 1 s → Went s.offset (advance ptr head (length content) end s)
  unfolding advance next_offset
  advance-Went s v =
      let b = pos_part head.block_length in
      let u =
        update_sums-Rolled ptr content Good serves small b s some_block v.covered.good v.rolled in
      let s1 : Search M = record s { map = u.map; k = u.k; sums = u.sums } in
      let f =
        flush_run-Flushed s1
          (Done-window ptr content Good serves small md4 seed head local start c reliable some_block
            signed targets all table s u.map s.offset u.k u.sums v.covered u.good)
          v.near v.rolled.inside in
      let s2 : Search M = record f.state { offset = f.state.offset + 1 } in
      let next = ltb (f.state.offset + 1) end in
      let moved : f.state.offset + 1 ≡ s.offset + 1 = ap (λ (x : ℕ). x + 1) f.offset in
      let done =
        Done-window ptr content Good serves small md4 seed head local start c reliable some_block
          signed targets all table f.state f.state.map (f.state.offset + 1) f.state.k f.state.sums
          f.done f.done.good in
      record {
        more = next;
        state = s2;
        result = rw (u.result, f.result) refl;
        done = done;
        ready = λ more. record {
          covered = done;
          rolled = record {
            inside = ground (arith, more, before);
            window = f.k ∙ u.window ∙ ap (λ (x : ℕ). min b (length content - x)) (sym moved);
            summed =
                f.sums
                ∙ u.summed
                ∙ (λ i. halves (checksum1 (slice content (sym moved i) (sym f.k i))));
          };
          near = omega (arith, f.near, moved);
        };
        onward = λ more. omega (arith, moved);
      }

  pub round-Went :
      (s : Search M)
      → IsReady 0 s
      → Went s.offset (round ptr md4 seed head (length content) end targets table s)
  unfolding round
  round-Went s v =
      let l =
        look-Looked ptr content Good serves small md4 seed head local start c reliable some_block
          signed targets all table s v in
      let s1 : Search M = record s { map = l.map } in
      let ready : IsReady 0 s1 = record {
        covered =
            Done-window ptr content Good serves small md4 seed head local start c reliable
              some_block signed targets all table s l.map s.offset s.k s.sums v.covered l.good;
        rolled = record {
          inside = v.rolled.inside;
          window = v.rolled.window;
          summed = v.rolled.summed;
        };
        near = v.near;
      } in
      let t =
        take_match-Taken ptr content Good serves small md4 seed head local start c reliable
          some_block signed targets all table end l.hit s1 ready l.found in
      elim (Bool-cases t.left) [
        | inl left ↦ record {
          more = false;
          state = t.state;
          result = rw (l.result, t.result, left) refl;
          done = t.ready.covered;
          ready = λ more. absurd (ground (arith, more));
          onward = λ more. absurd (ground (arith, more));
        }
        | inr stays ↦
            let a = advance-Went t.state t.ready in
            record {
              more = a.more;
              state = a.state;
              result = rw (l.result, t.result, stays) a.result;
              done = a.done;
              ready = a.ready;
              onward = λ more. omega (arith, t.onward, a.onward more);
            }
      ]

  pub record Ended (r : Outcome (Unit {0}) × Search M) : Type 0 where
    pub state : Search M
    pub result : r ≡ (ok tt, state)
    pub done : IsDone state

  -- With a round for each offset the loop ends, whatever it finds.
  pub search_loop-Ended :
      (fuel : ℕ) (s : Search M)
      → IsReady 0 s
      → length content < s.offset + fuel
      → Ended (search_loop ptr md4 seed fuel head (length content) end targets table s)
  unfolding search_loop
  search_loop-Ended zero s v h = absurd (omega (arith, v.rolled.inside))
  search_loop-Ended (suc fuel) s v h =
      let w = round-Went s v in
      elim (Bool-cases w.more) [
        | inr stops ↦ record { state = w.state; result = rw (w.result, stops) refl; done = w.done }
        | inl more ↦
            let e =
              search_loop-Ended fuel w.state (w.ready more) (omega (arith, h, w.onward more)) in
            record { state = e.state; result = rw (w.result, more) e.result; done = e.done }
      ]
