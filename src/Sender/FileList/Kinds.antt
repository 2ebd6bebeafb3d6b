-- ===== src/Sender/FileList/Kinds.antt =====
-- The modes that an entry carries: the receiver takes the same kind and permissions from them.
use go_rsync_receiver.Prelude.{
  ℕ, zero, suc, ◌+◌, ◌^◌, ◌<◌, ◌≡◌, refl, inl, inr, Bool-cases, ==_iff, subst, sym, Bool, true,
  false, not, ◌&&◌, arith, ltb, ◌==◌,
}
use go_rsync_receiver.Prelude.Int.{pos}
use go_rsync_receiver.Rsync.{s_iflnk}
use go_rsync_receiver.Files.{
  mode_dir, mode_symlink, mode_device, mode_named_pipe, mode_socket, mode_char_device, is_regular,
}
use go_rsync_receiver.Receiver.FileList.{kind_of, is_dev, is_special}
use go_rsync_receiver.Sender.FileList.Modes.{
  is_dir, is_plain_file, is_symlink, is_device, is_special_file, sent_mode,
}

-- The kinds of files that the protocol knows.
pub data FileKind : Type 0 where
  plain_file directory symlink named_pipe socket block_device char_device : FileKind

abbrev pub kind_bits : FileKind → ℕ
kind_bits plain_file = 0
kind_bits directory = mode_dir
kind_bits symlink = mode_symlink
kind_bits named_pipe = mode_named_pipe
kind_bits socket = mode_socket
kind_bits block_device = mode_device
kind_bits char_device = mode_device + mode_char_device

-- A mode that is a kind and permissions, and nothing else.
pub record IsKnown (mode : ℕ) : Type 0 where
  pub kind : FileKind
  pub perm : ℕ
  pub small : perm < 512
  pub split : mode ≡ kind_bits kind + perm

same_truth : Bool → Bool → Bool
same_truth true b = b
same_truth false b = not b

agrees : ℕ → Bool
agrees mode =
    let kind = kind_of (pos (sent_mode mode)) in
    same_truth (is_dev kind) (is_device mode)
    && (same_truth (is_special kind) (is_special_file mode)
        && (same_truth (kind == s_iflnk) (is_symlink mode) && ltb (sent_mode mode) (2 ^ 31)))

all_below : ℕ → (ℕ → Bool) → Bool
all_below zero f = true
all_below (suc n) f = f n && all_below n f

all_below_lem : (n k : ℕ) (f : ℕ → Bool) → all_below n f ≡ true → k < n → f k ≡ true
unfolding all_below
all_below_lem zero k f h l = elim l [ ]
all_below_lem (suc n) k f h l = elim (Bool-cases (k == n)) [
  | inl e ↦ subst (λ j. f j ≡ true) (sym ((==_iff k n).0 e)) (ground (arith, h))
  | inr e ↦ all_below_lem n k f (ground (arith, h)) (ground (arith, e, l))
]

by_kind : (kind : FileKind) → all_below 512 (λ perm. agrees (kind_bits kind + perm)) ≡ true
unfolding all_below agrees same_truth is_dir is_plain_file is_symlink is_device is_special_file
    sent_mode is_regular
by_kind plain_file = refl
by_kind directory = refl
by_kind symlink = refl
by_kind named_pipe = refl
by_kind socket = refl
by_kind block_device = refl
by_kind char_device = refl

-- What the receiver makes of the mode of a known kind.
pub record IsCarried (mode : ℕ) : Type 0 where
  pub device : is_dev (kind_of (pos (sent_mode mode))) ≡ is_device mode
  pub special : is_special (kind_of (pos (sent_mode mode))) ≡ is_special_file mode
  pub link : (kind_of (pos (sent_mode mode)) == s_iflnk) ≡ is_symlink mode
  pub fits : sent_mode mode < 2 ^ 31

same_truth_lem : (a b : Bool) → same_truth a b ≡ true → a ≡ b
unfolding same_truth
same_truth_lem true b h = sym h
same_truth_lem false true h = absurd (ground (arith, h))
same_truth_lem false false h = refl

agrees-IsCarried : (mode : ℕ) → agrees mode ≡ true → IsCarried mode
unfolding agrees
agrees-IsCarried mode h = record {
  device = same_truth_lem _ _ (ground (arith, h));
  special = same_truth_lem _ _ (ground (arith, h));
  link = same_truth_lem _ _ (ground (arith, h));
  fits = ground (arith, h);
}

pub IsKnown-IsCarried : (mode : ℕ) → IsKnown mode → IsCarried mode
IsKnown-IsCarried mode k = agrees-IsCarried mode (
    subst (λ m. agrees m ≡ true) (sym k.split)
      (all_below_lem 512 k.perm (λ perm. agrees (kind_bits k.kind + perm)) (by_kind k.kind)
        k.small))
