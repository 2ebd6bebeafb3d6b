-- ===== src/Sender/Requests/DryRun.antt =====
-- SendFiles in a dry run: each request is answered by its index.
use go_rsync_receiver.Prelude.{
  ℕ, zero, suc, ◌+◌, ◌-◌, ◌≤◌, ◌<◌, ◌≡◌, ◌≢◌, refl, sym, ap, ◌∙◌, true, false, List, [], ◌∷◌, ◌++◌,
  map, append-nil, append_assoc, arith, Bytes, length, length-append, concat, All,
}
use go_rsync_receiver.Prelude.Int.{ℤ, negsuc, ◌==ℤ◌, ==ℤ_iff}
use go_rsync_receiver.Prelude.Words.{IsI32}
use go_rsync_receiver.Outcome.{ok}
use go_rsync_receiver.Wire.{Conn, plain, int32_bytes, write_int32}
use go_rsync_receiver.Wire.Sent.{IsReliable, sent, framed, write_int32-Sends}
use go_rsync_receiver.Wire.Received.{received, read_int32-int32_bytes, length-int32_bytes}
use go_rsync_receiver.Wire.RoundTrip.{IsFresh}
use go_rsync_receiver.Sender.Search.{Target}
use go_rsync_receiver.Sender.Requests.{Source, send_round, send_loop, send_files}

-- The connection `t`, behind the reads up to `rest` and the writes `out` on `c`; it is plain.
record Answered (c : Conn) (rest out : Bytes) (t : Conn) : Type 0 where
  is_plain : t.writer ≡ plain
  reliable : IsReliable t
  input : t.input ≡ rest
  output : t.output ≡ c.output ++ out

-- The connection behind the read of a number and its echo.
abbrev echoed : ℤ → Bytes → Conn → Conn
echoed z rest c = sent (int32_bytes z ∷ []) (received (length (int32_bytes z)) rest c)

echoed-Answered :
    (z : ℤ) (rest : Bytes) (c : Conn)
    → c.writer ≡ plain
    → IsReliable c
    → Answered c rest (int32_bytes z) (echoed z rest c)
unfolding sent received framed
echoed-Answered z rest c p r = record {
  is_plain = p;
  reliable = r;
  input = refl;
  output = rw p (rw append-nil refl);
}

Answered-then :
    (c d e : Conn) (rest more p q : Bytes)
    → Answered c rest p d
    → Answered d more q e
    → Answered c more (p ++ q) e
Answered-then c d e rest more p q a b = record {
  is_plain = b.is_plain;
  reliable = b.reliable;
  input = b.input;
  output = b.output ∙ ap (λ (x : Bytes). x ++ q) a.output ∙ append_assoc c.output p q;
}

-- An index that is asked for.
abbrev pub IsRequest : ℤ → Type 0
IsRequest z = IsI32 z × (z ≢ negsuc 0)

abbrev pub requests : List ℤ → Bytes
requests indices = concat (map int32_bytes indices)

length-requests : (indices : List ℤ) → length indices ≤ length (requests indices)
length-requests [] = omega arith
length-requests (z ∷ indices) = omega (
  arith,
  length-append (int32_bytes z) (requests indices),
  length-int32_bytes z,
  length-requests indices,
)

module _ {M : Type 0} (ptr : ℕ → ℤ → M → Bytes × M) (md4 : Bytes → Bytes) (root : ℕ → ℕ) (seed : ℤ)
    (sort : List Target → List Target) (files : List (Source M)) where
  record Went (fuel phase used : ℕ) (c : Conn) (rest out : Bytes) : Type 0 where
    left : ℕ
    state : Conn
    result :
        send_loop ptr md4 root seed sort fuel true files phase c
        ≡ send_loop ptr md4 root seed sort left true files phase state
    count : left + used ≡ fuel
    answered : Answered c rest out state

  send_loop-Went :
      (fuel phase : ℕ) (indices : List ℤ) (rest : Bytes) (c : Conn)
      → All IsRequest indices
      → length indices < fuel
      → c.writer ≡ plain
      → IsReliable c
      → c.input ≡ requests indices ++ rest
      → Went fuel phase (length indices) c rest (requests indices)
  unfolding send_loop send_round
  send_loop-Went fuel phase [] rest c all h p r e = record {
    left = fuel;
    state = c;
    result = refl;
    count = omega arith;
    answered = record { is_plain = p; reliable = r; input = e; output = sym (append-nil c.output) };
  }
  send_loop-Went zero phase (z ∷ indices) rest c all h p r e = absurd (omega arith)
  send_loop-Went (suc fuel) phase (z ∷ indices) rest c ((fits, asked), all) h p r e =
      let more = requests indices ++ rest in
      let input : c.input ≡ int32_bytes z ++ more =
        e ∙ append_assoc (int32_bytes z) (requests indices) rest in
      let a = echoed-Answered z more c p r in
      let w =
        send_loop-Went fuel phase indices rest (echoed z more c) all (omega arith) a.is_plain
          a.reliable a.input in
      let other : (z ==ℤ negsuc 0) ≡ false = ground (arith, asked, ==ℤ_iff z (negsuc 0)) in
      record {
        left = w.left;
        state = w.state;
        result =
            rw (read_int32-int32_bytes z fits c more input, other)
              (rw
                (write_int32-Sends z (received (length (int32_bytes z)) more c)
                  (unfold received in r))
                w.result);
        count = omega (arith, w.count);
        answered =
            Answered-then c (echoed z more c) w.state more rest (int32_bytes z) (requests indices) a
              w.answered;
      }

  first_end :
      (fuel : ℕ) (rest : Bytes) (c : Conn)
      → IsReliable c
      → c.input ≡ int32_bytes (negsuc 0) ++ rest
      → send_loop ptr md4 root seed sort (suc fuel) true files 0 c
        ≡ send_loop ptr md4 root seed sort fuel true files 1 (echoed (negsuc 0) rest c)
  unfolding send_loop send_round
  first_end fuel rest c r e = rw (read_int32-int32_bytes (negsuc 0) (omega arith) c rest e) (
      rw
        (write_int32-Sends (negsuc 0) (received (length (int32_bytes (negsuc 0))) rest c)
          (unfold received in r))
        refl)

  second_end :
      (fuel : ℕ) (rest : Bytes) (c : Conn)
      → c.input ≡ int32_bytes (negsuc 0) ++ rest
      → send_loop ptr md4 root seed sort (suc fuel) true files 1 c
        ≡ (ok tt, received (length (int32_bytes (negsuc 0))) rest c)
  unfolding send_loop send_round
  second_end fuel rest c e = rw (read_int32-int32_bytes (negsuc 0) (omega arith) c rest e) refl

  -- The second phase, with the number that SendFiles writes behind the loop.
  second_phase :
      (fuel : ℕ) (indices : List ℤ) (rest : Bytes) (c : Conn)
      → All IsRequest indices
      → length indices + 1 < fuel
      → c.writer ≡ plain
      → IsReliable c
      → c.input ≡ requests indices ++ (int32_bytes (negsuc 0) ++ rest)
      → (d : Conn) × (send_loop ptr md4 root seed sort fuel true files 1 c ≡ (ok tt, d))
        × (t : Conn) × (write_int32 (negsuc 0) d ≡ (ok tt, t))
        × Answered c rest (requests indices ++ int32_bytes (negsuc 0)) t
  second_phase fuel indices rest c all h p r e =
      let minus = int32_bytes (negsuc 0) in
      let v = send_loop-Went fuel 1 indices (minus ++ rest) c all (omega arith) p r e in
      let left : v.left ≡ suc (v.left - 1) = omega (arith, v.count) in
      let d = received (length minus) rest v.state in
      (
        d,
        v.result
            ∙ ap (λ (n : ℕ). send_loop ptr md4 root seed sort n true files 1 v.state) left
            ∙ second_end (v.left - 1) rest v.state v.answered.input,
        echoed (negsuc 0) rest v.state,
        write_int32-Sends (negsuc 0) d (unfold received in v.answered.reliable),
        Answered-then c v.state (echoed (negsuc 0) rest v.state) (minus ++ rest) rest
            (requests indices) minus v.answered
            (echoed-Answered (negsuc 0) rest v.state v.answered.is_plain v.answered.reliable),
      )

  -- In a dry run SendFiles, over a plain, unused connection that takes every write, answers each index
  -- of the two phases by the index alone, and the end of each phase by -1; it ends behind the
  -- second, whatever the list of files, and reads nothing more. An index is an int32 that is not -1.
  pub send_files-requests :
      (first second : List ℤ) (rest : Bytes) (c : Conn)
      → All IsRequest first
      → All IsRequest second
      → IsFresh c
      → c.input
        ≡ requests first
          ++ (int32_bytes (negsuc 0) ++ (requests second ++ (int32_bytes (negsuc 0) ++ rest)))
      → ((send_files ptr md4 root seed sort true files c).0 ≡ ok tt)
        × ((send_files ptr md4 root seed sort true files c).1.output
            ≡ requests first
              ++ (int32_bytes (negsuc 0) ++ (requests second ++ int32_bytes (negsuc 0))))
        × ((send_files ptr md4 root seed sort true files c).1.input ≡ rest)
  unfolding send_files
  send_files-requests first second rest c all_first all_second f e =
      let minus = int32_bytes (negsuc 0) in
      let after = requests second ++ (minus ++ rest) in
      let long : length first + length second + 2 ≤ length c.input = omega (
        arith,
        ap (λ (x : Bytes). length x) e,
        length-append (requests first) (minus ++ after),
        length-append minus after,
        length-append (requests second) (minus ++ rest),
        length-append minus rest,
        length-requests first,
        length-requests second,
        length-int32_bytes (negsuc 0),
      ) in
      let w =
        send_loop-Went (suc (length c.input)) 0 first (minus ++ after) c all_first
          (omega (arith, long)) f.is_plain f.reliable e in
      let fuel = w.left - 1 in
      let left : w.left ≡ suc fuel = omega (arith, w.count, long) in
      let d = echoed (negsuc 0) after w.state in
      let a = echoed-Answered (negsuc 0) after w.state w.answered.is_plain w.answered.reliable in
      let (e2, ended, t, wrote, v) =
        second_phase fuel second rest d all_second (omega (arith, w.count, long)) a.is_plain
          a.reliable a.input in
      let looped : send_loop ptr md4 root seed sort (suc (length c.input)) true files 0 c
          ≡ (ok tt, e2) =
        w.result
        ∙ ap (λ (n : ℕ). send_loop ptr md4 root seed sort n true files 0 w.state) left
        ∙ first_end fuel after w.state w.answered.reliable w.answered.input
        ∙ ended in
      let whole =
        Answered-then c w.state t (minus ++ after) rest (requests first)
          (minus ++ (requests second ++ minus)) w.answered
          (Answered-then w.state d t after rest minus (requests second ++ minus) a v) in
      rw (looped, wrote)
        (
          refl,
          whole.output
              ∙ ap (λ (x : Bytes). x ++ (requests first ++ (minus ++ (requests second ++ minus))))
                  f.nothing,
          whole.input,
        )
