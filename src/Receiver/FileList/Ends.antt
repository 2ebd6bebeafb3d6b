-- ===== src/Receiver/FileList/Ends.antt =====
-- rsyncreceiver/flist.go and rsyncreceiver/uidlist.go: the loops over what the peer sends stop.
use go_rsync_receiver.Prelude.{
  ℕ, zero, suc, ◌+◌, ◌≤◌, ◌<◌, ◌==◌, ap, Bool, true, false, not, ◌||◌, List, [], arith, Bytes,
  length, length-append, if◌then◌else◌, inl, inr, Bool-cases,
}
use go_rsync_receiver.Prelude.Int.{ℤ, pos, negsuc, ◌==ℤ◌, ltb_ℤ, ◌+ℤ◌}
use go_rsync_receiver.Outcome.{
  Outcome, ok, err, panic, out_of_fuel, Error, Prog, continue, reject_if, name_overflow,
}
use go_rsync_receiver.Wire.{Conn, read_full, read_byte, read_int32, read_int64}
use go_rsync_receiver.Wire.Takes.{
  Takes, read_full-Takes, read_byte-Takes, read_int32-Takes, read_int64-Takes,
}
use go_rsync_receiver.Rsync.{xmit_same_name, xmit_long_name}
use go_rsync_receiver.Files.{ReceiverFile}
use go_rsync_receiver.Receiver.Opts.{TransferOpts}
use go_rsync_receiver.Receiver.Data.{make_length}
use go_rsync_receiver.Receiver.FileList.{
  has_flag, read_if, path_max, read_name, read_short, receive_name, read_time, read_link,
  receive_file_entry, no_file, entry_step, entries_loop, receive_entries, IdMap, mapping_step,
  mapping_loop, recv_id_mapping, recv_id_list, receive_file_list,
}

-- A step that returns has read `k` bytes at least, and no step is cut off by its fuel.
abbrev pub Ends : {A : Type 0} → ℕ → Conn → Outcome A × Conn → Type 0
Ends k c (ok a, d) = k + length d.input ≤ length c.input
Ends k c (err e, d) = Unit
Ends k c (panic, d) = Unit
Ends k c (out_of_fuel, d) = ⊥

Ends-less :
    {A : Type 0} (k j : ℕ) (c d : Conn) (r : Outcome A × Conn)
    → k + length d.input ≤ length c.input
    → Ends j d r
    → Ends (k + j) c r
Ends-less k j c d (ok a, t) h e = omega arith
Ends-less k j c d (err x, t) h e = tt
Ends-less k j c d (panic, t) h e = tt
Ends-less k j c d (out_of_fuel, t) h e = e

pub Ends-bind :
    {A B : Type 0} (k j : ℕ) (c : Conn) (r : Outcome A × Conn) (f : A → Prog Conn B)
    → Ends k c r
    → ((a : A) (d : Conn) → k + length d.input ≤ length c.input → Ends j d (f a d))
    → Ends (k + j) c (continue r f)
Ends-bind k j c (ok a, d) f e h = Ends-less k j c d (f a d) e (h a d e)
Ends-bind k j c (err x, d) f e h = tt
Ends-bind k j c (panic, d) f e h = tt
Ends-bind k j c (out_of_fuel, d) f e h = e

-- The same where only the end of the whole matters.
Ends-then :
    {A B : Type 0} (c : Conn) (r : Outcome A × Conn) (f : A → Prog Conn B)
    → Ends 0 c r
    → ((a : A) (d : Conn) → Ends 0 d (f a d))
    → Ends 0 c (continue r f)
Ends-then c r f e h = Ends-bind 0 0 c r f e (λ a d l. h a d)

pub Ends-weaken : {A : Type 0} (k : ℕ) (c : Conn) (r : Outcome A × Conn) → Ends k c r → Ends 0 c r
Ends-weaken k c (ok a, t) e = omega arith
Ends-weaken k c (err x, t) e = tt
Ends-weaken k c (panic, t) e = tt
Ends-weaken k c (out_of_fuel, t) e = e

pub Takes-Ends : {A : Type 0} (k : ℕ) (c : Conn) (r : Outcome A × Conn) → Takes k c r → Ends k c r
Takes-Ends k c (ok a, d) (front, e, l) = omega (arith, ap length e, length-append front d.input, l)
Takes-Ends k c (err x, d) t = tt
Takes-Ends k c (panic, d) t = absurd t
Takes-Ends k c (out_of_fuel, d) t = t

pub read_full-Ends : (n : ℕ) (c : Conn) → Ends n c (read_full n c)
read_full-Ends n c = Takes-Ends n c (read_full n c) (read_full-Takes n c)

pub read_int32-Ends : (c : Conn) → Ends 0 c (read_int32 c)
read_int32-Ends c = Ends-weaken 4 c _ (Takes-Ends 4 c (read_int32 c) (read_int32-Takes c))

read_byte-Ends : (c : Conn) → Ends 1 c (read_byte c)
read_byte-Ends c = Takes-Ends 1 c (read_byte c) (read_byte-Takes c)

pub make_length-Ends : (z : ℤ) (c : Conn) → Ends 0 c (make_length z c)
unfolding make_length
make_length-Ends (pos n) c = omega arith
make_length-Ends (negsuc n) c = tt

reject_if-Ends : (b : Bool) (e : Error) (c : Conn) → Ends 0 c (reject_if b e c)
reject_if-Ends true e c = tt
reject_if-Ends false e c = omega arith

read_if-Ends :
    {A : Type 0} (b : Bool) (old : A) (m : Prog Conn A) (c : Conn)
    → ((d : Conn) → Ends 0 d (m d))
    → Ends 0 c (read_if b old m c)
unfolding read_if
read_if-Ends true old m c h = h c
read_if-Ends false old m c h = omega arith

read_int64-Ends : (c : Conn) → Ends 0 c (read_int64 c)
read_int64-Ends c = Ends-weaken 4 c _ (Takes-Ends 4 c (read_int64 c) (read_int64-Takes c))

read_short-Ends : (c : Conn) → Ends 0 c (read_short c)
unfolding read_short
read_short-Ends c =
    Ends-then c (read_byte c) _ (Ends-weaken 1 c _ (read_byte-Ends c)) (λ a d. omega arith)

read_name-Ends : (n : ℕ) (l : ℤ) (last : Bytes) (c : Conn) → Ends 0 c (read_name n l last c)
unfolding read_name
read_name-Ends n l last c =
    Ends-then c (make_length (pos n +ℤ l) c) _ (make_length-Ends (pos n +ℤ l) c) (λ a d.
      Ends-then d (make_length l d) _ (make_length-Ends l d) (λ k e.
        Ends-then e (read_full k e) _ (Ends-weaken k e _ (read_full-Ends k e))
          (λ b t. omega arith)))

read_link-Ends : (c : Conn) → Ends 0 c (read_link c)
unfolding read_link
read_link-Ends c = Ends-then c (read_int32 c) _ (read_int32-Ends c) (λ l d.
    Ends-then d (make_length l d) _ (make_length-Ends l d)
      (λ k e. Ends-weaken k e _ (read_full-Ends k e)))

read_time-Ends : (c : Conn) → Ends 0 c (read_time c)
unfolding read_time
read_time-Ends c = Ends-then c (read_int32 c) _ (read_int32-Ends c) (λ l d. omega arith)

name_length-Ends : (b : Bool) (c : Conn) → Ends 0 c ((if b then read_int32 else read_short) c)
name_length-Ends true c = read_int32-Ends c
name_length-Ends false c = read_short-Ends c

receive_name-Ends :
    (clean : Bytes → Bytes) (flags : ℕ) (last : ReceiverFile) (c : Conn)
    → Ends 0 c (receive_name clean flags last c)
unfolding receive_name
receive_name-Ends clean flags last c =
    Ends-then c (read_if (has_flag flags xmit_same_name) 0 read_byte c) _
      (read_if-Ends _ 0 read_byte c (λ d. Ends-weaken 1 d _ (read_byte-Ends d)))
      (λ l1 d.
        Ends-then d ((if has_flag flags xmit_long_name then read_int32 else read_short) d) _
          (name_length-Ends _ d)
          (λ l2 e.
            Ends-then e
              (reject_if (not (ltb_ℤ (pos l1 +ℤ l2) (pos path_max))) (name_overflow (pos l1) l2) e)
              _ (reject_if-Ends _ (name_overflow (pos l1) l2) e)
              (λ u t.
                Ends-then t (read_name l1 l2 last.name t) _ (read_name-Ends l1 l2 last.name t)
                  (λ b v. omega arith))))

pub receive_file_entry-Ends :
    (clean : Bytes → Bytes) (opts : TransferOpts) (flags : ℕ) (last : ReceiverFile) (c : Conn)
    → Ends 0 c (receive_file_entry clean opts flags last c)
unfolding receive_file_entry
receive_file_entry-Ends clean opts flags last c =
    Ends-then c (receive_name clean flags last c) _ (receive_name-Ends clean flags last c) (λ a1 c1.
      Ends-then c1 (read_int64 c1) _ (read_int64-Ends c1) (λ a2 c2.
        Ends-then c2 _ _ (read_if-Ends _ _ _ c2 read_time-Ends) (λ a3 c3.
          Ends-then c3 _ _ (read_if-Ends _ _ _ c3 read_int32-Ends) (λ a4 c4.
            Ends-then c4 _ _
              (read_if-Ends _ _ _ c4 (λ d. read_if-Ends _ _ read_int32 d read_int32-Ends))
              (λ a5 c5.
                Ends-then c5 _ _
                  (read_if-Ends _ _ _ c5 (λ d. read_if-Ends _ _ read_int32 d read_int32-Ends))
                  (λ a6 c6.
                    Ends-then c6 _ _
                      (read_if-Ends _ _ _ c6 (λ d. read_if-Ends _ _ read_int32 d read_int32-Ends))
                      (λ a7 c7.
                        Ends-then c7 _ _ (read_if-Ends _ _ _ c7 read_link-Ends)
                          (λ a8 c8. omega arith))))))))

entry_step-Ends :
    (clean : Bytes → Bytes) (opts : TransferOpts) (last : ReceiverFile)
    (next : ReceiverFile → Prog Conn (List ReceiverFile)) (b : ℕ) (c : Conn)
    → ((f : ReceiverFile) (d : Conn) → length d.input ≤ length c.input → Ends 0 d (next f d))
    → Ends 0 c (entry_step clean opts last next b c)
unfolding entry_step
entry_step-Ends clean opts last next b c h = elim (Bool-cases (b == 0)) [
  | inl is ↦ rw is omega arith
  | inr not_is ↦ rw not_is (
      Ends-bind 0 0 c (receive_file_entry clean opts b last c) _
        (receive_file_entry-Ends clean opts b last c)
        (λ f d l. Ends-then d (next f d) _ (h f d (omega arith)) (λ rest t. omega arith)))
]

entries_loop-Ends :
    (fuel : ℕ) (clean : Bytes → Bytes) (opts : TransferOpts) (last : ReceiverFile) (c : Conn)
    → length c.input < fuel
    → Ends 0 c (entries_loop fuel clean opts last c)
unfolding entries_loop
entries_loop-Ends zero clean opts last c h = elim h [ ]
entries_loop-Ends (suc fuel) clean opts last c h = Ends-weaken 1 c _ (
    Ends-bind 1 0 c (read_byte c) _ (read_byte-Ends c) (λ b d l.
      entry_step-Ends clean opts last (entries_loop fuel clean opts) b d
        (λ f e m. entries_loop-Ends fuel clean opts f e (omega arith))))

receive_entries-Ends :
    (clean : Bytes → Bytes) (opts : TransferOpts) (c : Conn)
    → Ends 0 c (receive_entries clean opts c)
unfolding receive_entries
receive_entries-Ends clean opts c = entries_loop-Ends _ clean opts no_file c (omega arith)

mapping_step-Ends :
    (known : IdMap) (next : IdMap → Prog Conn IdMap) (id : ℤ) (c : Conn)
    → ((m : IdMap) (d : Conn) → length d.input ≤ length c.input → Ends 0 d (next m d))
    → Ends 0 c (mapping_step known next id c)
unfolding mapping_step
mapping_step-Ends known next id c h = elim (Bool-cases (id ==ℤ pos 0)) [
  | inl is ↦ rw is omega arith
  | inr not_is ↦ rw not_is (
      Ends-bind 0 0 c (read_byte c) _ (Ends-weaken 1 c _ (read_byte-Ends c)) (λ l d k.
        Ends-bind 0 0 d (read_full l d) _ (Ends-weaken l d _ (read_full-Ends l d))
          (λ name e j. h _ e (omega arith))))
]

mapping_loop-Ends :
    (fuel : ℕ) (known : IdMap) (c : Conn)
    → length c.input < fuel
    → Ends 0 c (mapping_loop fuel known c)
unfolding mapping_loop
mapping_loop-Ends zero known c h = elim h [ ]
mapping_loop-Ends (suc fuel) known c h = Ends-weaken 4 c _ (
    Ends-bind 4 0 c (read_int32 c) _ (Takes-Ends 4 c (read_int32 c) (read_int32-Takes c)) (λ id d l.
      mapping_step-Ends known (mapping_loop fuel) id d
        (λ m e j. mapping_loop-Ends fuel m e (omega arith))))

recv_id_mapping-Ends : (c : Conn) → Ends 0 c (recv_id_mapping c)
unfolding recv_id_mapping
recv_id_mapping-Ends c = mapping_loop-Ends _ [] c (omega arith)

recv_id_list-Ends : (opts : TransferOpts) (c : Conn) → Ends 0 c (recv_id_list opts c)
unfolding recv_id_list
recv_id_list-Ends opts c =
    Ends-then c (read_if opts.preserve_uid [] recv_id_mapping c) _
      (read_if-Ends opts.preserve_uid [] recv_id_mapping c recv_id_mapping-Ends)
      (λ users d.
        Ends-then d (read_if opts.preserve_gid [] recv_id_mapping d) _
          (read_if-Ends opts.preserve_gid [] recv_id_mapping d recv_id_mapping-Ends)
          (λ groups e. omega arith))

-- ReceiveFileList stops on whatever the peer sends: its loops over the entries and over the id
-- lists end before their fuel does, and if it returns a list, what is left of the input is no longer
-- than the input was. It may fail, and a negative length from the peer makes it panic.
pub receive_file_list-Ends :
    (clean : Bytes → Bytes) (sort : List ReceiverFile → List ReceiverFile) (opts : TransferOpts)
    (c : Conn)
    → Ends 0 c (receive_file_list clean sort opts c)
unfolding receive_file_list
receive_file_list-Ends clean sort opts c =
    Ends-then c (receive_entries clean opts c) _ (receive_entries-Ends clean opts c) (λ files d.
      Ends-then d _ _
        (read_if-Ends (opts.preserve_uid || opts.preserve_gid) ([], []) (recv_id_list opts) d
          (recv_id_list-Ends opts))
        (λ ids e. Ends-then e (read_int32 e) _ (read_int32-Ends e) (λ io t. omega arith)))
