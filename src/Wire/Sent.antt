-- ===== src/Wire/Sent.antt =====
-- Programs that only write: what reaches the network when no write fails. A write is one call of
-- the writer, so a multiplexed connection makes one message of it.
use go_rsync_receiver.Prelude.{
  ℕ, ◌≡◌, refl, sym, ap, ◌∙◌, List, [], ◌∷◌, ◌++◌, map, append-nil, append_assoc, none, Bytes,
  length, concat, if◌then◌else◌, Bool-cases, inl, inr,
}
use go_rsync_receiver.Prelude.Int.{ℤ, negsuc}
use go_rsync_receiver.Prelude.Words.{to_u64}
use go_rsync_receiver.Outcome.{ok, Prog, ◌>>=◌, ◌>>◌}
use go_rsync_receiver.Wire.Encoding.{le_bytes}
use go_rsync_receiver.Wire.Stream.{
  Writer, plain, multiplexed, Conn, raw_write, msg_header, msg_data, write_msg, write_by, write,
}
use go_rsync_receiver.Wire.Numbers.{
  fits_i32, int32_bytes, int64_bytes, write_byte, write_int32, write_int64, write_string,
}
use mathlib.Core.List.{map-append}

-- A data message of the multiplexed protocol.
unfoldable pub frame : Bytes → Bytes
frame p = le_bytes 4 (msg_header msg_data (length p)) ++ p

-- The bytes on the network for the writes `ps`.
unfoldable pub framed : Writer → List Bytes → Bytes
framed plain ps = concat ps
framed multiplexed ps = concat (map frame ps)

-- The connection after the writes `ps`, none of which failed.
unfoldable pub sent : List Bytes → Conn → Conn
sent ps c = record c { output = c.output ++ framed c.writer ps }

-- The network takes every write.
abbrev pub IsReliable : Conn → Type 0
IsReliable c = (out p : Bytes) → c.faults out p ≡ none

pub concat-append : (ps qs : List Bytes) → concat (ps ++ qs) ≡ concat ps ++ concat qs
concat-append [] qs = refl
concat-append (p ∷ ps) qs = ap (◌++◌ p) (concat-append ps qs) ∙ sym (append_assoc p _ _)

pub framed-append :
    (w : Writer) (ps qs : List Bytes) → framed w (ps ++ qs) ≡ framed w ps ++ framed w qs
unfolding framed
framed-append plain ps qs = concat-append ps qs
framed-append multiplexed ps qs = rw map-append (concat-append (map frame ps) (map frame qs))

pub sent-append : (ps qs : List Bytes) (c : Conn) → sent qs (sent ps c) ≡ sent (ps ++ qs) c
unfolding sent
sent-append ps qs c = rw (framed-append, append_assoc)

pub sent-nil : (c : Conn) → sent [] c ≡ c
unfolding sent framed
sent-nil c = go c.writer c
  where
    go : (w : Writer) (d : Conn) → record d { output = d.output ++ framed w [] } ≡ d
    go plain d = rw append-nil
    go multiplexed d = rw append-nil

pub sent-IsReliable : (ps : List Bytes) (c : Conn) → IsReliable c → IsReliable (sent ps c)
unfolding sent
sent-IsReliable ps c h = h

pub sent-input : (ps : List Bytes) (c : Conn) → (sent ps c).input ≡ c.input
unfolding sent
sent-input ps c = refl

-- The program writes `ps`, does nothing else, and returns `a`.
abbrev pub Sends : {A : Type 0} → Prog Conn A → List Bytes → A → Type 0
Sends m ps a = (c : Conn) → IsReliable c → m c ≡ (ok a, sent ps c)

pub Sends-bind :
    {A B : Type 0} (m : Prog Conn A) (f : A → Prog Conn B) (ps qs : List Bytes) (a : A) (b : B)
    → Sends m ps a
    → Sends (f a) qs b
    → Sends (m >>= f) (ps ++ qs) b
Sends-bind m f ps qs a b h k c r =
    rw (h c r) (k (sent ps c) (sent-IsReliable ps c r) ∙ rw sent-append)

pub Sends-then :
    {A B : Type 0} (m : Prog Conn A) (n : Prog Conn B) (ps qs : List Bytes) (a : A) (b : B)
    → Sends m ps a
    → Sends n qs b
    → Sends (m >> n) (ps ++ qs) b
Sends-then m n ps qs a b h k = Sends-bind m (λ _. n) ps qs a b h k

pub Sends-return : {A : Type 0} (a : A) → Sends (λ s. (ok a, s)) [] a
Sends-return a c r = rw sent-nil

pub raw_write-reliable :
    (p : Bytes) (c : Conn)
    → IsReliable c
    → raw_write p c ≡ (ok tt, record c { output = c.output ++ p })
unfolding raw_write
raw_write-reliable p c r = rw (r c.output p)

pub write_msg-reliable :
    (tag : ℕ) (p : Bytes) (c : Conn)
    → IsReliable c
    → write_msg tag p c
      ≡ (ok tt, record c { output = c.output ++ (le_bytes 4 (msg_header tag (length p)) ++ p) })
unfolding write_msg
write_msg-reliable tag p c r =
    let header = le_bytes 4 (msg_header tag (length p)) in
    rw (raw_write-reliable header c r)
      (raw_write-reliable p (record c { output = c.output ++ header }) r ∙ rw append_assoc)

pub write-Sends : (p : Bytes) → Sends (write p) (p ∷ []) tt
unfolding write write_by sent framed frame
write-Sends p c r = go c.writer c r
  where
    go :
        (w : Writer) (d : Conn)
        → IsReliable d
        → write_by w p d ≡ (ok tt, record d { output = d.output ++ framed w (p ∷ []) })
    go plain d r = rw append-nil (raw_write-reliable p d r)
    go multiplexed d r = rw append-nil (write_msg-reliable msg_data p d r)

pub write_int32-Sends : (z : ℤ) → Sends (write_int32 z) (int32_bytes z ∷ []) tt
unfolding write_int32
write_int32-Sends z = write-Sends _

pub write_string-Sends : (s : Bytes) → Sends (write_string s) (s ∷ []) tt
unfolding write_string
write_string-Sends s = write-Sends s

pub write_byte-Sends : (b : ℕ) → Sends (write_byte b) ((b ∷ []) ∷ []) tt
unfolding write_byte
write_byte-Sends b = write-Sends (b ∷ [])

-- The writes of Conn.WriteInt64: one, or two.
unfoldable pub int64_writes : ℤ → List Bytes
int64_writes z =
    if fits_i32 z then int32_bytes z ∷ [] else int32_bytes (negsuc 0) ∷ le_bytes 8 (to_u64 z) ∷ []

pub concat-int64_writes : (z : ℤ) → concat (int64_writes z) ≡ int64_bytes z
unfolding int64_writes int64_bytes
concat-int64_writes z = elim (Bool-cases (fits_i32 z)) [
  | inl short ↦ rw short (rw append-nil)
  | inr long ↦ rw long (rw append-nil)
]

pub write_int64-Sends : (z : ℤ) → Sends (write_int64 z) (int64_writes z) tt
unfolding write_int64 int64_writes
write_int64-Sends z c r = elim (Bool-cases (fits_i32 z)) [
  | inl short ↦ rw short (write_int32-Sends z c r)
  | inr long ↦ rw long (
      Sends-then (write_int32 (negsuc 0)) _ _ _ tt tt (write_int32-Sends (negsuc 0)) (write-Sends _)
        c r)
]
