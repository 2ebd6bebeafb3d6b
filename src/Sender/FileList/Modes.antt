-- ===== src/Sender/FileList/Modes.antt =====
-- rsyncsender/flist.go: the kinds of files, and the mode of an entry.
use go_rsync_receiver.Prelude.{ℕ, Bool, not, ◌||◌, ◌==◌, if◌then◌else◌}
use go_rsync_receiver.Rsync.{s_ifdir, s_ifreg, s_iflnk, s_ifchr, s_ifblk, s_ififo, s_ifsock}
use go_rsync_receiver.Files.{
  mode_dir, mode_symlink, mode_device, mode_named_pipe, mode_socket, mode_char_device, mode_perm,
  is_regular,
}
use Prim.Native.Nat.{bit_and, bit_or}

-- `mode&bit != 0`
abbrev has_bit : ℕ → ℕ → Bool
has_bit mode bit = not (bit_and mode bit == 0)

unfoldable pub is_dir : ℕ → Bool
is_dir mode = has_bit mode mode_dir

unfoldable pub is_plain_file : ℕ → Bool
is_plain_file mode = is_regular mode

unfoldable pub is_symlink : ℕ → Bool
is_symlink mode = has_bit mode mode_symlink

-- isDev
unfoldable pub is_device : ℕ → Bool
is_device mode = has_bit mode mode_char_device || has_bit mode mode_device

-- isSpecial
unfoldable pub is_special_file : ℕ → Bool
is_special_file mode = has_bit mode mode_named_pipe || has_bit mode mode_socket

-- `mode |= bits` on a condition
abbrev add_bits : Bool → ℕ → ℕ → ℕ
add_bits test bits mode = if test then bit_or mode bits else mode

unfoldable pub sent_mode : ℕ → ℕ
sent_mode mode =
    let perm = bit_and mode mode_perm in
    let kind =
      if is_dir mode
      then bit_or perm s_ifdir
      else if is_plain_file mode
      then bit_or perm s_ifreg
      else if is_symlink mode
      then bit_or perm s_iflnk
      else perm in
    let device =
      if has_bit mode mode_char_device
      then bit_or kind s_ifchr
      else if has_bit mode mode_device
      then bit_or kind s_ifblk
      else kind in
    add_bits (has_bit mode mode_socket) s_ifsock
      (add_bits (has_bit mode mode_named_pipe) s_ififo device)
