-- ===== src/Receiver/Loop/Integrity.antt =====
-- RecvFiles on any input, well formed or not.
use go_rsync_receiver.Prelude.{
  ℕ, zero, suc, ◌+◌, ◌≤◌, ◌<◌, ◌≡◌, ◌≢◌, refl, sym, ap, ◌∙◌, true, List, [], ◌∷◌, ◌++◌, append-nil,
  append_assoc, Option, none, some, arith, Bytes, length, get_elem?, length-append, All, ◌==◌,
  Bool-cases, inl, inr,
}
use go_rsync_receiver.Prelude.Int.{ℤ, pos, negsuc, ◌==ℤ◌}
use go_rsync_receiver.Outcome.{Outcome, ok, err, panic, out_of_fuel, Prog, continue}
use go_rsync_receiver.Wire.{Conn, read_int32}
use go_rsync_receiver.Wire.Takes.{Takes, read_int32-Takes}
use go_rsync_receiver.Files.{ReceiverFile, LocalFile}
use go_rsync_receiver.Receiver.Opts.{TransferOpts}
use go_rsync_receiver.Receiver.Data.{Receiving, receive_data}
use go_rsync_receiver.Receiver.Data.Transfer.{seeded}
use go_rsync_receiver.Receiver.Data.Safety.{receive_data_settles, receive_data_integrity}
use go_rsync_receiver.Receiver.Loop.{
  Put, Session, found, file_at, read_index, opening, put_of, recv_file1, recv_round, recv_loop,
  recv_files,
}

module _ (md4 : Bytes → Bytes) (seed : ℤ) where
  -- The put had an end, and the checksum of its bytes stood in the input.
  abbrev pub Verified : Bytes → Put → Type 0
  Verified input p =
      (p.closed ≡ true)
      × (front : Bytes) × (rest : Bytes) × (input
          ≡ front ++ (md4 (seeded seed ++ p.content) ++ rest))

  Verified-behind :
      (front input : Bytes) (ps : List Put)
      → All (Verified input) ps
      → All (Verified (front ++ input)) ps
  Verified-behind front input [] h = tt
  Verified-behind front input (p ∷ ps) ((closed, f, rest, e), h) = (
    (closed, front ++ f, rest, ap (◌++◌ front) e ∙ sym (append_assoc front f _)),
    Verified-behind front input ps h,
  )

  All-append :
      (input : Bytes) (ps qs : List Put)
      → All (Verified input) ps
      → All (Verified input) qs
      → All (Verified input) (ps ++ qs)
  All-append input [] qs h k = k
  All-append input (p ∷ ps) qs (v, h) k = (v, All-append input ps qs h k)

  -- From `s` to `t` a front of the input was read, of `k` bytes at least, and what was put is verified.
  record Advanced (k : ℕ) (s t : Session) : Type 0 where
    front : Bytes
    added : List Put
    reads : s.conn.input ≡ front ++ t.conn.input
    least : k ≤ length front
    adds : t.puts ≡ s.puts ++ added
    verified : All (Verified s.conn.input) added

  Advanced-trans :
      (k j : ℕ) (s t u : Session) → Advanced k s t → Advanced j t u → Advanced (k + j) s u
  Advanced-trans k j s t u p q = record {
    front = p.front ++ q.front;
    added = p.added ++ q.added;
    reads = p.reads ∙ ap (◌++◌ p.front) q.reads ∙ sym (append_assoc p.front q.front u.conn.input);
    least = omega (arith, length-append p.front q.front, p.least, q.least);
    adds =
        q.adds ∙ ap (λ (x : List Put). x ++ q.added) p.adds ∙ append_assoc s.puts p.added q.added;
    verified =
        All-append s.conn.input p.added q.added p.verified
          (rw p.reads (Verified-behind p.front t.conn.input q.added q.verified));
  }

  Steps : {A : Type 0} → ℕ → Session → Outcome A × Session → Type 0
  Steps k s (ok a, t) = Advanced k s t
  Steps k s (err e, t) = Unit
  Steps k s (panic, t) = Unit
  Steps k s (out_of_fuel, t) = ⊥

  Steps-bind :
      {A B : Type 0} (k j : ℕ) (s : Session) (r : Outcome A × Session) (f : A → Prog Session B)
      → Steps k s r
      → ((a : A) (t : Session) → Advanced k s t → Steps j t (f a t))
      → Steps (k + j) s (continue r f)
  unfolding Steps
  Steps-bind {B = B} k j s (ok a, t) f p h = go (f a t) (h a t p)
    where
      go : (r : Outcome B × Session) → Steps j t r → Steps (k + j) s r
      go (ok b, u) q = Advanced-trans k j s t u p q
      go (err e, u) q = tt
      go (panic, u) q = tt
      go (out_of_fuel, u) q = q
  Steps-bind k j s (err e, t) f p h = tt
  Steps-bind k j s (panic, t) f p h = tt
  Steps-bind k j s (out_of_fuel, t) f p h = p

  still : (s : Session) → Advanced 0 s s
  still s = record {
    front = [];
    added = [];
    reads = refl;
    least = omega arith;
    adds = sym (append-nil s.puts);
    verified = tt;
  }

  read_index-Steps : (s : Session) → Steps 4 s (read_index s)
  unfolding Steps read_index
  read_index-Steps s = go (read_int32 s.conn) (read_int32-Takes s.conn)
    where
      go : (r : Outcome ℤ × Conn) → Takes 4 s.conn r → Steps 4 s (r.0, record s { conn = r.1 })
      go (ok z, d) (front, e, l) = record {
        front = front;
        added = [];
        reads = e;
        least = l;
        adds = sym (append-nil s.puts);
        verified = tt;
      }
      go (err e, d) h = tt
      go (panic, d) h = tt
      go (out_of_fuel, d) h = h

  put_of-Steps :
      (local : Bytes → Option LocalFile) (f : ReceiverFile) (s : Session)
      (r : Outcome (Unit {0}) × Receiving)
      → receive_data md4 seed f.name (local f.name) (opening s) ≡ r
      → Steps 0 s (put_of f s r)
  unfolding Steps put_of
  put_of-Steps local f s (ok a, t) h =
      let (closed, front, e) =
        receive_data_integrity md4 seed f.name (local f.name) (opening s) {t = t} refl h in
      record {
        front = front ++ md4 (seeded seed ++ t.piped);
        added = record { file = f; content = t.piped; closed = t.closed } ∷ [];
        reads = e ∙ sym (append_assoc front _ t.conn.input);
        least = omega arith;
        adds = refl;
        verified = ((closed, front, t.conn.input, e), tt);
      }
  put_of-Steps local f s (err e, t) h = tt
  put_of-Steps local f s (panic, t) h = tt
  put_of-Steps local f s (out_of_fuel, t) h =
      (receive_data_settles md4 seed f.name (local f.name) (opening s)).1
        (ap (λ (x : Outcome (Unit {0}) × Receiving). x.0) h)

  Steps-weaken :
      {A : Type 0} (k : ℕ) (s : Session) (r : Outcome A × Session) → Steps k s r → Steps 0 s r
  unfolding Steps
  Steps-weaken k s (ok a, t) p = record {
    front = p.front;
    added = p.added;
    reads = p.reads;
    least = omega arith;
    adds = p.adds;
    verified = p.verified;
  }
  Steps-weaken k s (err e, t) p = tt
  Steps-weaken k s (panic, t) p = tt
  Steps-weaken k s (out_of_fuel, t) p = p

  takes : {k : ℕ} {s t : Session} → Advanced k s t → k + length t.conn.input ≤ length s.conn.input
  takes {t = t} p = omega (arith, ap length p.reads, length-append p.front t.conn.input, p.least)

  shrinks : {s t : Session} → Advanced 0 s t → length t.conn.input ≤ length s.conn.input
  shrinks p = omega (arith, takes p)

  settled :
      (s : Session) (r : Outcome (Unit {0}) × Session)
      → Steps 0 s r
      → (r.0 ≢ out_of_fuel)
        × (r.0 ≡ ok tt
            → (added : List Put) × (r.1.puts ≡ s.puts ++ added) × All (Verified s.conn.input) added)
  unfolding Steps
  settled s (ok a, t) p = (λ e. cc, λ e. (p.added, p.adds, p.verified))
  settled s (err e, t) p = (λ e. cc, λ e. absurd cc)
  settled s (panic, t) p = (λ e. cc, λ e. absurd cc)
  settled s (out_of_fuel, t) p = absurd p

module _ (md4 : Bytes → Bytes) (seed : ℤ) (opts : TransferOpts) (local : Bytes → Option LocalFile)
    (file_list : List ReceiverFile) where
  recv_file1-Steps :
      (f : ReceiverFile) (s : Session) → Steps md4 seed 0 s (recv_file1 md4 seed opts local f s)
  unfolding recv_file1 Steps
  recv_file1-Steps f s = elim (Bool-cases opts.dry_run) [
    | inl dry ↦ rw dry (still md4 seed s)
    | inr wet ↦ rw wet (put_of-Steps md4 seed local f s _ refl)
  ]

  found-Steps : (o : Option ReceiverFile) (s : Session) → Steps md4 seed 0 s (found o s)
  unfolding found Steps
  found-Steps none s = tt
  found-Steps (some f) s = still md4 seed s

  file_at-Steps : (idx : ℤ) (s : Session) → Steps md4 seed 0 s (file_at file_list idx s)
  unfolding file_at
  file_at-Steps (pos n) s = found-Steps (get_elem? file_list n) s
  file_at-Steps (negsuc n) s = found-Steps none s

  -- `rest` may go on from any state with no more input.
  recv_round-Steps :
      (rest : ℕ → Prog Session (Unit {0})) (phase : ℕ) (idx : ℤ) (s : Session)
      → ((p : ℕ) (t : Session)
          → length t.conn.input ≤ length s.conn.input
          → Steps md4 seed 0 t (rest p t))
      → Steps md4 seed 0 s (recv_round md4 seed opts local file_list rest phase idx s)
  unfolding recv_round
  recv_round-Steps rest phase idx s h = elim (Bool-cases (idx ==ℤ negsuc 0)) [
    | inr file ↦ rw file (
        Steps-bind md4 seed 0 0 s (file_at file_list idx s) _ (file_at-Steps idx s) (λ f t p.
          Steps-bind md4 seed 0 0 t (recv_file1 md4 seed opts local f t) _ (recv_file1-Steps f t)
            (λ a u q. h phase u (omega (arith, shrinks md4 seed p, shrinks md4 seed q)))))
    | inl end ↦ rw end (elim (Bool-cases (phase == 0)) [
      | inl first ↦ rw first (h (phase + 1) s (omega arith))
      | inr last ↦ rw last (unfold Steps in still md4 seed s)
    ])
  ]

  recv_loop-Steps :
      (fuel phase : ℕ) (s : Session)
      → length s.conn.input < fuel
      → Steps md4 seed 0 s (recv_loop md4 seed opts local fuel file_list phase s)
  unfolding recv_loop
  recv_loop-Steps zero phase s h = elim h [ ]
  recv_loop-Steps (suc fuel) phase s h = Steps-weaken md4 seed 4 s _ (
      Steps-bind md4 seed 4 0 s (read_index s) _ (read_index-Steps md4 seed s) (λ idx t p.
        recv_round-Steps (recv_loop md4 seed opts local fuel file_list) phase idx t
          (λ q u l. recv_loop-Steps fuel q u (omega (arith, takes md4 seed p)))))

  -- RecvFiles never runs out of rounds, whatever the peer sends. It may fail, and an index out of
  -- range makes it panic.
  pub recv_files_ends : (s : Session) → (recv_files md4 seed opts local file_list s).0 ≢ out_of_fuel
  unfolding recv_files
  recv_files_ends s =
      (settled md4 seed s (recv_files md4 seed opts local file_list s)
        (recv_loop-Steps _ 0 s (omega arith))).0

  -- Whatever the peer sends, if RecvFiles succeeds, then every file that it gave to the file system
  -- since the state `s` had an end, and the checksum of the seed and of exactly its bytes stood in
  -- the input.
  pub recv_files_integrity :
      (s : Session)
      → (recv_files md4 seed opts local file_list s).0 ≡ ok tt
      → (added : List Put) × ((recv_files md4 seed opts local file_list s).1.puts ≡ s.puts ++ added)
        × All (Verified md4 seed s.conn.input) added
  unfolding recv_files
  recv_files_integrity s h =
      (settled md4 seed s (recv_files md4 seed opts local file_list s)
          (recv_loop-Steps _ 0 s (omega arith))).1
        h
