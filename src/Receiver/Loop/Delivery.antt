-- ===== src/Receiver/Loop/Delivery.antt =====
-- RecvFiles on the stream of a sender that follows the protocol.
use go_rsync_receiver.Prelude.{
  ℕ, zero, suc, ◌^◌, ◌<◌, ◌≡◌, refl, sym, ap, ◌∙◌, true, false, List, [], ◌∷◌, ◌++◌, append-nil,
  append_assoc, Option, some, arith, Bytes, length, get_elem?, length-append, equal_iff,
}
use go_rsync_receiver.Prelude.Int.{ℤ, pos, negsuc, ◌==ℤ◌}
use go_rsync_receiver.Prelude.Words.{IsI32}
use go_rsync_receiver.Outcome.{Outcome, ok, err, panic, out_of_fuel, Prog, continue}
use go_rsync_receiver.Wire.{int32_bytes}
use go_rsync_receiver.Wire.Received.{
  received, received-input, read_int32-int32_bytes, length-int32_bytes,
}
use go_rsync_receiver.Rsync.{SumHead, head_bytes}
use go_rsync_receiver.Rsync.Heads.{IsValid}
use go_rsync_receiver.Files.{ReceiverFile, LocalFile}
use go_rsync_receiver.Receiver.Opts.{TransferOpts}
use go_rsync_receiver.Receiver.Data.Stream.{Op, stream, Means}
use go_rsync_receiver.Receiver.Data.Transfer.{seeded, receive_data-stream}
use go_rsync_receiver.Receiver.Loop.{
  Put, Session, file_at, read_index, opening, put_of, recv_file1, recv_round, recv_loop, recv_files,
}

module _ (md4 : Bytes → Bytes) (seed : ℤ) (opts : TransferOpts) (local : Bytes → Option LocalFile)
    (file_list : List ReceiverFile) where
  -- From phase `phase` on the sender sends `input`, which brings `puts`, and then `rest`: for each
  -- file its index, a head, tokens that stand for its bytes, and their checksum.
  pub data Brings : ℕ → Bytes → List Put → Bytes → Type 0 where
    done : {rest : Bytes} → Brings 1 (int32_bytes (negsuc 0) ++ rest) [] rest
    next_phase :
        {input rest : Bytes} {puts : List Put}
        → Brings 1 input puts rest
        → Brings 0 (int32_bytes (negsuc 0) ++ input) puts rest
    file :
        {phase : ℕ} {input rest : Bytes} {puts : List Put} (idx : ℕ) (f : ReceiverFile)
        (sh : SumHead) (ops : List Op) (bytes : Bytes)
        → idx < 2 ^ 31
        → get_elem? file_list idx ≡ some f
        → IsValid sh
        → IsI32 sh.checksum_count
        → Means (record sh { sums = [] }) (local f.name) ops bytes
        → Brings phase input puts rest
        → Brings phase
            (int32_bytes (pos idx)
              ++ (head_bytes sh ++ (stream ops ++ (md4 (seeded seed ++ bytes) ++ input))))
            (record { file = f; content = bytes; closed = true } ∷ puts)
            rest

  read_index-next :
      (z : ℤ) (rest : Bytes) (s : Session)
      → IsI32 z
      → s.conn.input ≡ int32_bytes z ++ rest
      → read_index s ≡ (ok z, record s { conn = received (length (int32_bytes z)) rest s.conn })
  unfolding read_index
  read_index-next z rest s h e = rw (read_int32-int32_bytes z h s.conn rest e) refl

  -- A step ends well, adds `puts`, and leaves `rest`.
  abbrev Ended : List Put → Bytes → Session → Outcome (Unit {0}) × Session → Type 0
  Ended puts rest s r = (r.0 ≡ ok tt) × (r.1.puts ≡ s.puts ++ puts) × (r.1.conn.input ≡ rest)

  recv_file1-Ended :
      (f : ReceiverFile) (sh : SumHead) (ops : List Op) (bytes rest : Bytes) (s : Session)
      → opts.dry_run ≡ false
      → IsValid sh
      → IsI32 sh.checksum_count
      → Means (record sh { sums = [] }) (local f.name) ops bytes
      → s.conn.input ≡ head_bytes sh ++ (stream ops ++ (md4 (seeded seed ++ bytes) ++ rest))
      → Ended
          (record { file = f; content = bytes; closed = true } ∷ [])
          rest
          s
          (recv_file1 md4 seed opts local f s)
  unfolding recv_file1 put_of
  recv_file1-Ended f sh ops bytes rest s wet v r m e =
      let sum = md4 (seeded seed ++ bytes) in
      let (result, piped, closed, left) =
        receive_data-stream md4 seed f.name (local f.name) sh ops bytes sum rest (opening s) v r m
          refl e in
      rw wet (result ∙ rw ((equal_iff sum sum).1 refl), rw (piped, closed) refl, left)

  Ended-then :
      (puts more : List Put) (middle rest : Bytes) (s : Session) (r : Outcome (Unit {0}) × Session)
      (next : Prog Session (Unit {0}))
      → Ended puts middle s r
      → ((t : Session) → t.conn.input ≡ middle → Ended more rest t (next t))
      → Ended (puts ++ more) rest s (continue r (λ _. next))
  Ended-then puts more middle rest s (ok a, t) next (e, p, l) h =
      let (e', p', l') = h t l in
      (e', p' ∙ ap (λ (x : List Put). x ++ more) p ∙ append_assoc s.puts puts more, l')
  Ended-then puts more middle rest s (err x, t) next (e, p, l) h = cc
  Ended-then puts more middle rest s (panic, t) next (e, p, l) h = cc
  Ended-then puts more middle rest s (out_of_fuel, t) next (e, p, l) h = cc

  -- The round of an index in the list.
  recv_round-file :
      (next : ℕ → Prog Session (Unit {0})) (phase idx : ℕ) (f : ReceiverFile) (sh : SumHead)
      (ops : List Op) (bytes input rest : Bytes) (puts : List Put) (s : Session)
      → opts.dry_run ≡ false
      → get_elem? file_list idx ≡ some f
      → IsValid sh
      → IsI32 sh.checksum_count
      → Means (record sh { sums = [] }) (local f.name) ops bytes
      → s.conn.input ≡ head_bytes sh ++ (stream ops ++ (md4 (seeded seed ++ bytes) ++ input))
      → ((t : Session) → t.conn.input ≡ input → Ended puts rest t (next phase t))
      → Ended
          (record { file = f; content = bytes; closed = true } ∷ puts)
          rest
          s
          (recv_round md4 seed opts local file_list next phase (pos idx) s)
  unfolding recv_round file_at
  recv_round-file next phase idx f sh ops bytes input rest puts s wet is v r m e h =
      let other : (pos idx ==ℤ negsuc 0) ≡ false = ground arith in
      rw (other, is)
        (Ended-then (record { file = f; content = bytes; closed = true } ∷ []) puts input rest s
          (recv_file1 md4 seed opts local f s) (next phase)
          (recv_file1-Ended f sh ops bytes input s wet v r m e) h)

  behind :
      (z : ℤ) (front input : Bytes) (fuel : ℕ)
      → length (int32_bytes z ++ (front ++ input)) < suc fuel
      → length input < fuel
  behind z front input fuel h = omega (
    arith,
    length-append (int32_bytes z) (front ++ input),
    length-append front input,
    length-int32_bytes z,
  )

  recv_loop-Ended :
      (fuel phase : ℕ) (input rest : Bytes) (puts : List Put) (s : Session)
      → opts.dry_run ≡ false
      → s.conn.input ≡ input
      → length input < fuel
      → Brings phase input puts rest
      → Ended puts rest s (recv_loop md4 seed opts local fuel file_list phase s)
  unfolding recv_loop recv_round
  recv_loop-Ended zero phase input rest puts s wet e h b = elim h [ ]
  recv_loop-Ended (suc fuel) _ _ rest _ s wet e h done =
      rw (read_index-next (negsuc 0) rest s (omega arith) e)
        (refl, sym (append-nil s.puts), received-input _ rest s.conn)
  recv_loop-Ended (suc fuel) _ _ rest puts s wet e h (next_phase {input = input} b) =
      let n = length (int32_bytes (negsuc 0)) in
      rw (read_index-next (negsuc 0) input s (omega arith) e) (
        recv_loop-Ended fuel 1 input rest puts (record s { conn = received n input s.conn }) wet
          (received-input n input s.conn) (behind (negsuc 0) [] input fuel h) b)
  recv_loop-Ended (suc fuel) phase _ rest _ s wet e h
        (file {input = input} {puts = puts} idx f sh ops bytes small is v r m b) =
      let sum = md4 (seeded seed ++ bytes) in
      let after = head_bytes sh ++ (stream ops ++ (sum ++ input)) in
      let n = length (int32_bytes (pos idx)) in
      rw (read_index-next (pos idx) after s small e) (
        recv_round-file (recv_loop md4 seed opts local fuel file_list) phase idx f sh ops bytes
          input rest puts (record s { conn = received n after s.conn }) wet is v r m
          (received-input n after s.conn)
          (λ t l.
            recv_loop-Ended fuel phase input rest puts t wet l
              (behind (pos idx) (head_bytes sh ++ (stream ops ++ sum)) input fuel
                (rw (append_assoc, append_assoc) h))
              b))

  -- RecvFiles, not in a dry run, on the stream of a sender that follows the protocol: it succeeds,
  -- has given every file of the stream to the file system, in order, with exactly the bytes that its
  -- tokens stand for and with an end, and leaves what follows. It reads the two ends of phases.
  pub recv_files-Brings :
      (input rest : Bytes) (puts : List Put) (s : Session)
      → opts.dry_run ≡ false
      → s.conn.input ≡ input
      → Brings 0 input puts rest
      → ((recv_files md4 seed opts local file_list s).0 ≡ ok tt)
        × ((recv_files md4 seed opts local file_list s).1.puts ≡ s.puts ++ puts)
        × ((recv_files md4 seed opts local file_list s).1.conn.input ≡ rest)
  unfolding recv_files
  recv_files-Brings input rest puts s wet e b =
      recv_loop-Ended (suc (length s.conn.input)) 0 input rest puts s wet e (rw e omega arith) b
