-- ===== src/Receiver/Data/Progress.antt =====
-- The receiver's steps on any input: what a step that returns has read, hashed and piped.
use go_rsync_receiver.Prelude.{
  ℕ, zero, suc, ◌+◌, ◌*◌, ◌≤◌, ◌<◌, ◌≡◌, refl, sym, ap, ◌∙◌, [], ◌++◌, append-nil, append_assoc,
  Option, none, some, arith, Bytes, length, length-append,
}
use go_rsync_receiver.Prelude.Int.{ℤ, pos, negsuc, ◌≤ℤ◌}
use go_rsync_receiver.Outcome.{Outcome, ok, err, panic, out_of_fuel, Prog, continue}
use go_rsync_receiver.Wire.{Conn, read_int32, read_full}
use go_rsync_receiver.Wire.Takes.{Takes, Takes-bind, Takes-less, read_int32-Takes, read_full-Takes}
use go_rsync_receiver.Rsync.{SumHead}
use go_rsync_receiver.Rsync.Heads.{IsValid}
use go_rsync_receiver.Files.{LocalFile, Fetched, got, lost}
use go_rsync_receiver.Receiver.Data.{
  token_data, recv_token, Receiving, with_conn, on_conn, consume, make_length, fetch, data_len,
  copy_range, copy_block, token_step, token_loop, tokens,
}

-- From `s` to `t`: a front of the input was read, of `k` bytes at least, and the same bytes went to
-- the hash and to the pipe.
pub record Progressed (k : ℕ) (s t : Receiving) : Type 0 where
  pub front : Bytes
  pub added : Bytes
  pub reads : s.conn.input ≡ front ++ t.conn.input
  pub least : k ≤ length front
  pub hashes : t.hashed ≡ s.hashed ++ added
  pub pipes : t.piped ≡ s.piped ++ added

-- A step that returns has progressed; it may fail, and neither panics nor runs out of fuel.
abbrev pub Goes : {A : Type 0} → ℕ → Receiving → Outcome A × Receiving → Type 0
Goes k s (ok a, t) = Progressed k s t
Goes k s (err e, t) = Unit
Goes k s (panic, t) = ⊥
Goes k s (out_of_fuel, t) = ⊥

Progressed-trans :
    (k j : ℕ) (s t u : Receiving) → Progressed k s t → Progressed j t u → Progressed (k + j) s u
Progressed-trans k j s t u p q = record {
  front = p.front ++ q.front;
  added = p.added ++ q.added;
  reads = p.reads ∙ ap (◌++◌ p.front) q.reads ∙ sym (append_assoc p.front q.front u.conn.input);
  least = omega (arith, length-append p.front q.front, p.least, q.least);
  hashes =
      q.hashes ∙ ap (λ (h : Bytes). h ++ q.added) p.hashes ∙ append_assoc s.hashed p.added q.added;
  pipes = q.pipes ∙ ap (λ (h : Bytes). h ++ q.added) p.pipes ∙ append_assoc s.piped p.added q.added;
}

pub Goes-after :
    {A : Type 0} (k j : ℕ) (s t : Receiving) (r : Outcome A × Receiving)
    → Progressed k s t
    → Goes j t r
    → Goes (k + j) s r
Goes-after k j s t (ok a, u) p q = Progressed-trans k j s t u p q
Goes-after k j s t (err e, u) p q = tt
Goes-after k j s t (panic, u) p q = q
Goes-after k j s t (out_of_fuel, u) p q = q

pub Goes-bind :
    {A B : Type 0} (k j : ℕ) (s : Receiving) (r : Outcome A × Receiving) (f : A → Prog Receiving B)
    → Goes k s r
    → ((a : A) (t : Receiving) → Progressed k s t → Goes j t (f a t))
    → Goes (k + j) s (continue r f)
Goes-bind k j s (ok a, t) f p h = Goes-after k j s t (f a t) p (h a t p)
Goes-bind k j s (err e, t) f p h = tt
Goes-bind k j s (panic, t) f p h = p
Goes-bind k j s (out_of_fuel, t) f p h = p

pub Goes-weaken :
    {A : Type 0} (k : ℕ) (s : Receiving) (r : Outcome A × Receiving) → Goes k s r → Goes 0 s r
Goes-weaken k s (ok a, t) p = record {
  front = p.front;
  added = p.added;
  reads = p.reads;
  least = omega arith;
  hashes = p.hashes;
  pipes = p.pipes;
}
Goes-weaken k s (err e, t) p = tt
Goes-weaken k s (panic, t) p = p
Goes-weaken k s (out_of_fuel, t) p = p

-- A step of the connection hashes and pipes nothing.
pub on_conn-Goes :
    {A : Type 0} (k : ℕ) (s : Receiving) (r : Outcome A × Conn)
    → Takes k s.conn r
    → Goes k s (with_conn r s)
on_conn-Goes k s (ok a, d) (front, e, l) = record {
  front = front;
  added = [];
  reads = e;
  least = l;
  hashes = sym (append-nil s.hashed);
  pipes = sym (append-nil s.piped);
}
on_conn-Goes k s (err e, d) t = tt
on_conn-Goes k s (panic, d) t = t
on_conn-Goes k s (out_of_fuel, d) t = t

token_data-Takes : (z : ℤ) (c : Conn) → Takes 0 c (token_data z c)
unfolding token_data
token_data-Takes (pos zero) c = ([], refl, omega arith)
token_data-Takes (pos (suc n)) c =
    Takes-bind 0 0 c (read_full (suc n) c) _
      (Takes-less (suc n) 0 c _ (omega arith) (read_full-Takes (suc n) c))
      (λ a d. ([], refl, omega arith))
token_data-Takes (negsuc n) c = ([], refl, omega arith)

pub recv_token-Goes : (s : Receiving) → Goes 4 s (on_conn recv_token s)
unfolding recv_token
recv_token-Goes s = on_conn-Goes 4 s (recv_token s.conn) (
    Takes-bind 4 0 s.conn (read_int32 s.conn) _ (read_int32-Takes s.conn)
      (λ z d. token_data-Takes z d))

pub consume-Goes : (bytes : Bytes) (s : Receiving) → Goes 0 s (consume bytes s)
unfolding consume
consume-Goes bytes s = record {
  front = [];
  added = bytes;
  reads = refl;
  least = omega arith;
  hashes = refl;
  pipes = refl;
}

fetch-Goes : (f : Fetched) (s : Receiving) → Goes 0 s (fetch f s)
unfolding fetch
fetch-Goes (got bytes) s = record {
  front = [];
  added = [];
  reads = refl;
  least = omega arith;
  hashes = sym (append-nil s.hashed);
  pipes = sym (append-nil s.piped);
}
fetch-Goes (lost e) s = tt

copy_range-Goes :
    (file : LocalFile) (n : ℕ) (block len : ℤ) (s : Receiving)
    → pos 0 ≤ℤ block
    → pos 0 ≤ℤ len
    → Goes 0 s (copy_range file n block len s)
unfolding copy_range make_length
copy_range-Goes file n (pos b) (pos l) s h k =
    Goes-bind 0 0 s (fetch (file (n * b) l) s) _ (fetch-Goes (file (n * b) l) s)
      (λ bytes t p. consume-Goes bytes t)
copy_range-Goes file n (pos b) (negsuc l) s h k = absurd (omega arith)
copy_range-Goes file n (negsuc b) l s h k = absurd (omega arith)

data_len_nonneg : (sh : SumHead) (n : ℕ) → IsValid sh → pos 0 ≤ℤ data_len sh n
unfolding data_len
data_len_nonneg sh n v = ground arith

copy_block-Goes :
    (sh : SumHead) (local : Option LocalFile) (n : ℕ) (s : Receiving)
    → IsValid sh
    → Goes 0 s (copy_block sh local n s)
unfolding copy_block
copy_block-Goes sh none n s v = tt
copy_block-Goes sh (some file) n s v =
    copy_range-Goes file n sh.block_length (data_len sh n) s v.block_lo (data_len_nonneg sh n v)

-- A token leaves less to read, so the loop ends before its fuel does.
token_step-Goes :
    (sh : SumHead) (local : Option LocalFile) (next : Prog Receiving (Unit {0})) (tok : ℤ × Bytes)
    (s : Receiving)
    → IsValid sh
    → ((t : Receiving) → length t.conn.input ≤ length s.conn.input → Goes 0 t (next t))
    → Goes 0 s (token_step sh local next tok s)
unfolding token_step fetch
token_step-Goes sh local next (pos zero, bytes) s v h = fetch-Goes (got []) s
token_step-Goes sh local next (pos (suc n), bytes) s v h =
    Goes-bind 0 0 s (consume bytes s) (λ _. next) (consume-Goes bytes s)
      (λ a t p. h t (omega (arith, ap length p.reads, length-append p.front t.conn.input)))
token_step-Goes sh local next (negsuc n, bytes) s v h =
    Goes-bind 0 0 s (copy_block sh local n s) (λ _. next) (copy_block-Goes sh local n s v)
      (λ a t p. h t (omega (arith, ap length p.reads, length-append p.front t.conn.input)))

token_loop-Goes :
    (fuel : ℕ) (sh : SumHead) (local : Option LocalFile) (s : Receiving)
    → IsValid sh
    → length s.conn.input < fuel
    → Goes 0 s (token_loop fuel sh local s)
unfolding token_loop
token_loop-Goes zero sh local s v h = elim h [ ]
token_loop-Goes (suc fuel) sh local s v h = Goes-weaken (4 + 0) s _ (
    Goes-bind 4 0 s (on_conn recv_token s) _ (recv_token-Goes s) (λ tok t p.
      token_step-Goes sh local (token_loop fuel sh local) tok t v (λ u l.
        token_loop-Goes fuel sh local u v
          (omega (arith, ap length p.reads, length-append p.front t.conn.input, p.least)))))

pub tokens-Goes :
    (sh : SumHead) (local : Option LocalFile) (s : Receiving)
    → IsValid sh
    → Goes 0 s (tokens sh local s)
unfolding tokens
tokens-Goes sh local s v = token_loop-Goes _ sh local s v (omega arith)
