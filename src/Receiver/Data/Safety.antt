-- ===== src/Receiver/Data/Safety.antt =====
-- receiveData on any input, well formed or not.
use go_rsync_receiver.Prelude.{
  ℕ, ◌≡◌, ◌≢◌, refl, sym, ap, ◌∙◌, Bool, true, false, not, [], ◌++◌, append_assoc, Option, arith,
  Bytes, length, equal, equal_iff,
}
use go_rsync_receiver.Prelude.Int.{ℤ}
use go_rsync_receiver.Outcome.{
  Outcome, ok, err, panic, out_of_fuel, Error, Prog, file_corruption, continue, continue-eq-ok,
  reject_if,
}
use go_rsync_receiver.Wire.{Conn, read_full}
use go_rsync_receiver.Wire.Takes.{
  Takes, Takes-bind, Takes-less, read_int32-Takes, reject_if-Takes, read_full-Takes,
  read_full-eq-ok,
}
use go_rsync_receiver.Rsync.{SumHead, zero_head, checked_int32, read_from}
use go_rsync_receiver.Rsync.Heads.{read_from-IsValid}
use go_rsync_receiver.Files.{LocalFile}
use go_rsync_receiver.Receiver.Data.{
  Receiving, with_conn, on_conn, tokens, close_pipe, check_sum, start_hash, receive_data,
}
use go_rsync_receiver.Receiver.Data.Transfer.{seeded}
use go_rsync_receiver.Receiver.Data.Progress.{Goes, Progressed, tokens-Goes}

checked_int32-Takes :
    (bad : ℤ → Bool) (e : ℤ → Error) (c : Conn) → Takes 0 c (checked_int32 bad e c)
unfolding checked_int32
checked_int32-Takes bad e c = Takes-less 4 0 c _ (omega arith) (
    Takes-bind 4 0 c _ _ (read_int32-Takes c) (λ x d.
      Takes-bind 0 0 d _ _ (reject_if-Takes (bad x) (e x) d) (λ u t. ([], refl, omega arith))))

read_from-Takes : (old : SumHead) (c : Conn) → Takes 0 c (read_from old c)
unfolding read_from
read_from-Takes old c = Takes-bind 0 0 c _ _ (checked_int32-Takes _ _ c) (λ count c1.
    Takes-bind 0 0 c1 _ _ (checked_int32-Takes _ _ c1) (λ block c2.
      Takes-bind 0 0 c2 _ _ (checked_int32-Takes _ _ c2) (λ size c3.
        Takes-bind 0 0 c3 _ _ (checked_int32-Takes _ _ c3)
          (λ remainder c4. ([], refl, omega arith)))))

-- A result that Go reaches: a value or an error.
abbrev Settles : {A : Type 0} → Outcome A × Receiving → Type 0
Settles (ok a, t) = Unit
Settles (err e, t) = Unit
Settles (panic, t) = ⊥
Settles (out_of_fuel, t) = ⊥

Settles-bind :
    {A B : Type 0} (r : Outcome A × Receiving) (f : A → Prog Receiving B)
    → Settles r
    → ((a : A) (t : Receiving) → r ≡ (ok a, t) → Settles (f a t))
    → Settles (continue r f)
Settles-bind (ok a, t) f h k = k a t refl
Settles-bind (err e, t) f h k = tt
Settles-bind (panic, t) f h k = h
Settles-bind (out_of_fuel, t) f h k = h

with_conn-Settles :
    {A : Type 0} (k : ℕ) (s : Receiving) (r : Outcome A × Conn)
    → Takes k s.conn r
    → Settles (with_conn r s)
with_conn-Settles k s (ok a, d) h = tt
with_conn-Settles k s (err e, d) h = tt
with_conn-Settles k s (panic, d) h = h
with_conn-Settles k s (out_of_fuel, d) h = h

Goes-Settles :
    {A : Type 0} (k : ℕ) (s : Receiving) (r : Outcome A × Receiving) → Goes k s r → Settles r
Goes-Settles k s (ok a, t) h = tt
Goes-Settles k s (err e, t) h = tt
Goes-Settles k s (panic, t) h = h
Goes-Settles k s (out_of_fuel, t) h = h

-- A value that `on_conn` returned was returned by the connection's step.
with_conn-eq-ok :
    {A : Type 0} (r : Outcome A × Conn) (s : Receiving) {a : A} {t : Receiving}
    → with_conn r s ≡ (ok a, t)
    → (d : Conn) × (r ≡ (ok a, d)) × (t ≡ record s { conn = d })
with_conn-eq-ok (ok b, d) s h = (d, cc, cc)
with_conn-eq-ok (err e, d) s h = cc
with_conn-eq-ok (panic, d) s h = cc
with_conn-eq-ok (out_of_fuel, d) s h = cc

check_sum-Settles :
    (md4 : Bytes → Bytes) (name : Bytes) (s : Receiving) → Settles (check_sum md4 name s)
unfolding check_sum
check_sum-Settles md4 name s =
    Settles-bind (on_conn (read_full (length (md4 s.hashed))) s) _
      (with_conn-Settles _ s _ (read_full-Takes _ s.conn))
      (λ remote t e. split (not (equal (md4 s.hashed) remote)) t)
  where
    split : (b : Bool) (t : Receiving) → Settles (reject_if b (file_corruption name) t)
    split true t = tt
    split false t = tt

module _ (md4 : Bytes → Bytes) (seed : ℤ) (name : Bytes) (local : Option LocalFile)
    (s : Receiving) where
  receive_data-Settles : Settles (receive_data md4 seed name local s)
  unfolding receive_data start_hash close_pipe
  receive_data-Settles =
      Settles-bind (on_conn (read_from zero_head) s) _
        (with_conn-Settles 0 s _ (read_from-Takes zero_head s.conn))
        (λ sh t e.
          let (d, e', _) = with_conn-eq-ok (read_from zero_head s.conn) s e in
          let v = read_from-IsValid zero_head s.conn e' in
          let started : Receiving = record t { hashed = seeded seed } in
          Settles-bind (tokens sh local started) _
            (Goes-Settles 0 started _ (tokens-Goes sh local started v))
            (λ u t' e''. check_sum-Settles md4 name (record t' { closed = true })))

  -- receiveData comes back on every input, well formed or not: it never panics, and its loop ends
  -- without using up its rounds.
  pub receive_data_settles :
      ((receive_data md4 seed name local s).0 ≢ panic)
      × ((receive_data md4 seed name local s).0 ≢ out_of_fuel)
  receive_data_settles = go (receive_data md4 seed name local s) receive_data-Settles
    where
      go : (r : Outcome (Unit {0}) × Receiving) → Settles r → (r.0 ≢ panic) × (r.0 ≢ out_of_fuel)
      go (ok a, t) h = (λ e. cc, λ e. cc)
      go (err x, t) h = (λ e. cc, λ e. cc)
      go (panic, t) h = absurd h
      go (out_of_fuel, t) h = absurd h

-- A checksum that was accepted stood next on the connection.
check_sum-eq-ok :
    (md4 : Bytes → Bytes) (name : Bytes) (s : Receiving) {t : Receiving}
    → check_sum md4 name s ≡ (ok tt, t)
    → (s.conn.input ≡ md4 s.hashed ++ t.conn.input) × (t.piped ≡ s.piped) × (t.closed ≡ s.closed)
unfolding check_sum
check_sum-eq-ok md4 name s h =
    let (remote, u, e, h') = continue-eq-ok (on_conn (read_full (length (md4 s.hashed))) s) _ h in
    let (d, e', u') = with_conn-eq-ok (read_full (length (md4 s.hashed)) s.conn) s e in
    accepted remote d (read_full-eq-ok _ s.conn e') u u' h'
  where
    accepted :
        (remote : Bytes) (d : Conn)
        → s.conn.input ≡ remote ++ d.input
        → (u : Receiving) → u ≡ record s { conn = d }
        → {t : Receiving}
        → reject_if (not (equal (md4 s.hashed) remote)) (file_corruption name) u ≡ (ok tt, t)
        → (s.conn.input ≡ md4 s.hashed ++ t.conn.input)
          × (t.piped ≡ s.piped)
          × (t.closed ≡ s.closed)
    accepted remote d e u u' h = ground (arith, equal_iff (md4 s.hashed) remote)

-- The parts read one after the other.
assemble :
    (md4 : Bytes → Bytes) (start : Bytes) (s s1 s2 t : Receiving) (d : Conn) (head : Bytes)
    → s.piped ≡ []
    → s.conn.input ≡ head ++ d.input
    → s1 ≡ record s { conn = d }
    → Progressed 0 (record s1 { hashed = start }) s2
    → s2.conn.input ≡ md4 s2.hashed ++ t.conn.input
    → t.piped ≡ s2.piped
    → (front : Bytes) × (s.conn.input ≡ front ++ (md4 (start ++ t.piped) ++ t.conn.input))
assemble md4 start s s1 s2 t d head empty e q p r r' = (
  head ++ p.front,
  e
      ∙ ap (◌++◌ head)
          (sym (ap (λ (x : Receiving). x.conn.input) q) ∙ p.reads ∙ ap (◌++◌ p.front) sum)
      ∙ sym (append_assoc head p.front _),
)
  where
    added : t.piped ≡ p.added
    added =
        r' ∙ p.pipes ∙ ap (λ (x : Bytes). x ++ p.added) (ap (λ (x : Receiving). x.piped) q ∙ empty)

    sum : s2.conn.input ≡ md4 (start ++ t.piped) ++ t.conn.input
    sum = r ∙ ap (λ (x : Bytes). md4 x ++ t.conn.input) (p.hashes ∙ ap (◌++◌ start) (sym added))

module _ (md4 : Bytes → Bytes) (seed : ℤ) (name : Bytes) (local : Option LocalFile)
    (s : Receiving) where
  -- Whatever the peer sends: if receiveData, which starts with nothing in the pipe, succeeds, then
  -- it closed the pipe, and the checksum of the seed and of exactly the bytes piped to the file
  -- system stood on the connection, right before what is left there.
  pub receive_data_integrity :
      {t : Receiving}
      → s.piped ≡ []
      → receive_data md4 seed name local s ≡ (ok tt, t)
      → (t.closed ≡ true)
        × (front : Bytes) × (s.conn.input ≡ front ++ (md4 (seeded seed ++ t.piped) ++ t.conn.input))
  unfolding receive_data start_hash close_pipe
  receive_data_integrity {t} empty h =
      let (sh, s1, e1, h1) = continue-eq-ok (on_conn (read_from zero_head) s) _ h in
      let (d, e1', s1') = with_conn-eq-ok (read_from zero_head s.conn) s e1 in
      let v = read_from-IsValid zero_head s.conn e1' in
      let started : Receiving = record s1 { hashed = seeded seed } in
      let (u, s2, e2, h2) = continue-eq-ok (tokens sh local started) _ h1 in
      let p = rw e2 at (tokens-Goes sh local started v) in
      let (head, e3, _) = rw e1' at (read_from-Takes zero_head s.conn) in
      let (r1, r2, r3) = check_sum-eq-ok md4 name (record s2 { closed = true }) h2 in
      let (front, found) = assemble md4 (seeded seed) s s1 s2 t d head empty e3 s1' p r1 r2 in
      (r3, front, found)
