-- ===== src/Sender/FileList/Entry.antt =====
-- One entry of the list, as the receiver reads it.
use go_rsync_receiver.Prelude.{
  ℕ, ◌^◌, ◌<◌, ◌≡◌, refl, Bool, true, false, not, ◌&&◌, ◌||◌, [], ◌++◌, Bytes, length, arith, ◌==◌,
  if◌then◌else◌,
}
use go_rsync_receiver.Prelude.Int.{ℤ, pos, ltb_ℤ, ◌+ℤ◌}
use go_rsync_receiver.Prelude.Words.{IsI32, IsI64}
use go_rsync_receiver.Outcome.{Prog, return, reject_if, name_overflow, ◌>>=◌, ◌>>◌}
use go_rsync_receiver.Wire.{Conn, read_full, read_int32, read_int64, int32_bytes, int64_bytes}
use go_rsync_receiver.Wire.Received.{
  Reads, Reads-bind, Reads-map, Reads-return, read_full-Reads, read_int32-int32_bytes,
  read_int64-int64_bytes,
}
use go_rsync_receiver.Rsync.{s_iflnk}
use go_rsync_receiver.Files.{ReceiverFile}
use go_rsync_receiver.Receiver.Opts.{TransferOpts}
use go_rsync_receiver.Receiver.Data.{make_length}
use go_rsync_receiver.Receiver.FileList.{
  read_if, path_max, read_name, receive_name, read_time, read_link, kind_of, is_dev, is_special,
  receive_file_entry,
}
use go_rsync_receiver.Sender.FileList.{bytes_if}

-- `readb` of a length that fits, with no part of the last name.
unfoldable pub whole_name : (Bytes → Bytes) → Bytes → Prog Conn Bytes
whole_name clean last_name = do
  l ← read_int32
  reject_if (not (ltb_ℤ (pos 0 +ℤ l) (pos path_max))) (name_overflow (pos 0) l)
  b ← read_name 0 l last_name
  return (clean b)

-- receiveFileEntry on the flags that the sender sets: every field is there.
unfoldable pub whole_entry : (Bytes → Bytes) → TransferOpts → Bytes → Prog Conn ReceiverFile
whole_entry clean opts last_name = do
  name ← whole_name clean last_name
  size ← read_int64
  mod_time ← read_time
  mode ← read_int32
  uid ← read_if opts.preserve_uid (pos 0) read_int32
  gid ← read_if opts.preserve_gid (pos 0) read_int32
  rdev ←
      read_if (opts.preserve_devices && (is_dev (kind_of mode) || is_special (kind_of mode)))
        (pos 0) read_int32
  link_target ← read_if (opts.preserve_links && (kind_of mode == s_iflnk)) [] read_link
  return (record {
    name = name;
    size = size;
    mod_time = mod_time;
    mode = mode;
    uid = uid;
    gid = gid;
    link_target = link_target;
    rdev = rdev;
  })

pub receive_file_entry-long :
    (clean : Bytes → Bytes) (opts : TransferOpts) (last : ReceiverFile) (root : Bool)
    → receive_file_entry clean opts (if root then 65 else 64) last
      ≡ whole_entry clean opts last.name
unfolding receive_file_entry receive_name read_if whole_entry whole_name
receive_file_entry-long clean opts last true = refl
receive_file_entry-long clean opts last false = refl

plus_zero : (n : ℕ) → pos 0 +ℤ pos n ≡ pos n
plus_zero n = ground arith

read_name-Reads :
    (name last_name : Bytes) → Reads (read_name 0 (pos (length name)) last_name) name name
unfolding read_name make_length
read_name-Reads name last_name = rw (plus_zero (length name)) (
    Reads-map (read_full (length name)) _ name name name (read_full-Reads (length name) name refl)
      (λ c. refl))

whole_name-Reads :
    (clean : Bytes → Bytes) (name last_name : Bytes)
    → length name < path_max
    → Reads (whole_name clean last_name) (int32_bytes (pos (length name)) ++ name) (clean name)
unfolding whole_name
whole_name-Reads clean name last_name h =
    let fits : ltb_ℤ (pos 0 +ℤ pos (length name)) (pos path_max) ≡ true = ground arith in
    Reads-bind read_int32 _ (int32_bytes (pos (length name))) name (pos (length name)) (clean name)
      (read_int32-int32_bytes (pos (length name)) (omega arith))
      (rw fits (
        Reads-map (read_name 0 (pos (length name)) last_name) _ name name (clean name)
          (read_name-Reads name last_name) (λ c. refl)))

pub read_if-Reads :
    {A : Type 0} (b : Bool) (old : A) (m : Prog Conn A) (p : Bytes) (a : A)
    → (b ≡ true → Reads m p a)
    → Reads (read_if b old m) (bytes_if b p) (if b then a else old)
unfolding read_if
read_if-Reads true old m p a h = h refl
read_if-Reads false old m p a h = Reads-return old

read_link-Reads :
    (target : Bytes)
    → length target < 2 ^ 31
    → Reads read_link (int32_bytes (pos (length target)) ++ target) target
unfolding read_link make_length
read_link-Reads target h =
    Reads-bind read_int32 _ (int32_bytes (pos (length target))) target (pos (length target)) target
      (read_int32-int32_bytes (pos (length target)) h) (read_full-Reads (length target) target refl)

-- What an entry says, field by field.
pub record Said : Type 0 where
  pub name : Bytes
  pub size : ℤ
  pub seconds : ℤ
  pub mode : ℤ
  pub id : ℤ
  pub target : Bytes

pub record IsSayable (s : Said) : Type 0 where
  pub name_fits : length s.name < path_max
  pub size_fits : IsI64 s.size
  pub seconds_fit : IsI32 s.seconds
  pub mode_fits : IsI32 s.mode
  pub id_fits : IsI32 s.id
  pub target_fits : length s.target < 2 ^ 31

module _ (opts : TransferOpts) (s : Said) where
  abbrev has_rdev : Bool
  has_rdev = opts.preserve_devices && (is_dev (kind_of s.mode) || is_special (kind_of s.mode))

  abbrev has_link : Bool
  has_link = opts.preserve_links && (kind_of s.mode == s_iflnk)

  abbrev pub link_bytes : Bytes
  link_bytes = bytes_if has_link (int32_bytes (pos (length s.target)) ++ s.target)

  abbrev pub said_ids : Bytes
  said_ids =
      bytes_if opts.preserve_uid (int32_bytes s.id)
      ++ (bytes_if opts.preserve_gid (int32_bytes s.id)
          ++ (bytes_if has_rdev (int32_bytes s.id) ++ link_bytes))

  abbrev pub said_bytes : Bytes
  said_bytes =
      (int32_bytes (pos (length s.name)) ++ s.name)
      ++ (int64_bytes s.size ++ (int32_bytes s.seconds ++ (int32_bytes s.mode ++ said_ids)))

  module _ (clean : Bytes → Bytes) where
    abbrev pub heard : ReceiverFile
    heard = record {
      name = clean s.name;
      size = s.size;
      mod_time = record { seconds = s.seconds; nanos = 0 };
      mode = s.mode;
      uid = if opts.preserve_uid then s.id else pos 0;
      gid = if opts.preserve_gid then s.id else pos 0;
      link_target = if has_link then s.target else [];
      rdev = if has_rdev then s.id else pos 0;
    }

    pub whole_entry-Reads :
        (last_name : Bytes)
        → IsSayable s
        → Reads (whole_entry clean opts last_name) said_bytes heard
    unfolding whole_entry read_time
    whole_entry-Reads last_name h =
        let id = read_int32-int32_bytes s.id h.id_fits in
        let number = int32_bytes s.id in
        Reads-bind (whole_name clean last_name) _ _ _ (clean s.name) heard
          (whole_name-Reads clean s.name last_name h.name_fits)
          (Reads-bind read_int64 _ _ _ s.size heard (read_int64-int64_bytes s.size h.size_fits) (
            Reads-bind read_time _ _ _ _ heard
              (Reads-map read_int32 _ _ s.seconds _ (read_int32-int32_bytes s.seconds h.seconds_fit)
                (λ c. refl))
              (Reads-bind read_int32 _ _ _ s.mode heard (read_int32-int32_bytes s.mode h.mode_fits)
                (Reads-bind (read_if opts.preserve_uid (pos 0) read_int32) _ _ _ _ heard
                  (read_if-Reads opts.preserve_uid (pos 0) read_int32 number s.id (λ _. id))
                  (Reads-bind (read_if opts.preserve_gid (pos 0) read_int32) _ _ _ _ heard
                    (read_if-Reads opts.preserve_gid (pos 0) read_int32 number s.id (λ _. id))
                    (Reads-bind (read_if has_rdev (pos 0) read_int32) _ _ _ _ heard
                      (read_if-Reads has_rdev (pos 0) read_int32 number s.id (λ _. id))
                      (Reads-map (read_if has_link [] read_link) _ _ _ heard
                        (read_if-Reads has_link [] read_link _ s.target
                          (λ _. read_link-Reads s.target h.target_fits))
                        (λ c. refl))))))))
