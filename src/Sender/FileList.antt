-- ===== src/Sender/FileList.antt =====
-- rsyncsender/flist.go and rsyncsender/stat.go: the list of files, as it goes out.
pub mod Modes
pub mod Kinds
pub mod Entry
pub mod Fields
pub mod Delivery
pub mod RoundTrip
use go_rsync_receiver.Prelude.{
  ℕ, ◌%◌, Bool, true, false, not, ◌&&◌, ◌||◌, ◌⊎◌, inl, inr, Option, none, some, List, [], ◌∷◌,
  ◌++◌, Bytes, equal, length, replicate, ◌==◌, if◌then◌else◌, codes,
}
use go_rsync_receiver.Prelude.Int.{ℤ, pos, ◌+ℤ◌, ◌==ℤ◌}
use go_rsync_receiver.Outcome.{
  Outcome, ok, err, panic, out_of_fuel, Error, Prog, return, ◌>>=◌, ◌>>◌,
}
use go_rsync_receiver.Wire.{Conn, int32_bytes, int64_bytes, write_string}
use go_rsync_receiver.Rsync.{xmit_long_name, xmit_top_dir}
use go_rsync_receiver.Files.{FileInfo, Fetched, got, lost}
use go_rsync_receiver.Options.Fields.{Options}
use go_rsync_receiver.Options.Access.{
  has_preserve_uid, has_preserve_gid, has_preserve_devices, has_preserve_specials,
  has_preserve_links, has_always_checksum,
}
use go_rsync_receiver.Sender.Filters.{FilterRule, matches}
use go_rsync_receiver.Sender.FileList.Modes.{
  is_dir, is_plain_file, is_symlink, is_device, is_special_file, sent_mode,
}
use Prim.Native.Nat.{bit_or}

-- utils.SenderFile
pub record SenderFile : Type 0 where
  pub path : Bytes
  pub w_path : Bytes
  pub regular : Bool

-- uidFromFileInfo, gidFromFileInfo and rdevFromFileInfo of stat.go: a number, and whether it is known.
unfoldable pub uid_from_file_info : FileInfo → ℤ × Bool
uid_from_file_info info = (pos 1000, false)

unfoldable pub gid_from_file_info : FileInfo → ℤ × Bool
gid_from_file_info info = (pos 1000, false)

unfoldable pub rdev_from_file_info : FileInfo → ℤ × Bool
rdev_from_file_info info = (pos 1000, false)

-- A Go map from ids to names, by its entries in some order.
abbrev pub IdNames : Type 0
IdNames = List (ℤ × Bytes)

unfoldable pub has_id : ℤ → IdNames → Bool
has_id id [] = false
has_id id ((other, name) ∷ ids) = id ==ℤ other || has_id id ids

-- An id that is known, new and not 0 is looked up; a failure is only logged.
unfoldable pub note_id : (ℤ → Option Bytes) → IdNames → (ℤ × Bool) → IdNames
note_id lookup ids (id, known) =
    if known && (not (has_id id ids) && not (id ==ℤ pos 0))
    then elim (lookup id) [ none ↦ ids | some name ↦ (id, name) ∷ ids ]
    else ids

unfoldable pub id_bytes : IdNames → Bytes
id_bytes [] = int32_bytes (pos 0)
id_bytes ((id, name) ∷ ids) = int32_bytes id ++ ((length name % 256) ∷ name) ++ id_bytes ids

-- What the loops build up: the list, the buffer `fec`, the two maps, and the outer `err`.
pub record Listing : Type 0 where
  pub files : List SenderFile
  pub total_size : ℤ
  pub buffer : Bytes
  pub users : IdNames
  pub groups : IdNames
  pub failure : Option Error

abbrev pub no_listing : Listing
no_listing = record {
  files = [];
  total_size = pos 0;
  buffer = [];
  users = [];
  groups = [];
  failure = none;
}

-- The root is listed as `.`, with a flag.
unfoldable pub sent_name : FileInfo → Bytes
sent_name info = if equal info.name (codes "/") then codes "." else info.name

unfoldable pub sent_flags : FileInfo → ℕ
sent_flags info =
    if equal info.name (codes "/") then bit_or xmit_long_name xmit_top_dir else xmit_long_name

unfoldable pub sent_size : FileInfo → ℤ
sent_size info = if is_dir info.mode then pos 4096 else pos info.size

-- A field that is written on a condition.
abbrev pub bytes_if : Bool → Bytes → Bytes
bytes_if true bytes = bytes
bytes_if false bytes = []

-- The fields from the flags to the mode.
unfoldable pub fixed_fields : FileInfo → Bytes
fixed_fields info =
    int32_bytes (pos (length (sent_name info)))
    ++ (sent_name info
        ++ (int64_bytes (sent_size info)
            ++ (int32_bytes info.mod_time.seconds ++ int32_bytes (pos (sent_mode info.mode)))))

module _ (o : Options) where
  unfoldable pub id_fields : FileInfo → Bytes
  id_fields info =
      bytes_if (has_preserve_uid o) (int32_bytes ((uid_from_file_info info).0))
      ++ (bytes_if (has_preserve_gid o) (int32_bytes ((gid_from_file_info info).0))
          ++ bytes_if
              ((has_preserve_devices o && is_device info.mode)
                || (has_preserve_specials o && is_special_file info.mode))
              (int32_bytes ((rdev_from_file_info info).0)))

-- A Go function that calls another, and returns its error.
abbrev pub and_then : {A B : Type 0} → Outcome A → (A → Outcome B) → Outcome B
and_then (ok a) f = f a
and_then (err e) f = err e
and_then panic f = panic
and_then out_of_fuel f = out_of_fuel

-- The listing before or behind a file, by whether the filters match it.
abbrev pub add_unless : Outcome Bool → Listing → Listing → Outcome Listing
add_unless (ok true) l added = ok l
add_unless (ok false) l added = ok added
add_unless (err e) l added = err e
add_unless panic l added = panic
add_unless out_of_fuel l added = out_of_fuel

abbrev pub listed : Error ⊎ List FileInfo → Outcome (List FileInfo)
listed (inl e) = err e
listed (inr infos) = ok infos

abbrev pub check_failure : Option Error → Listing → Outcome Listing
check_failure none l = ok l
check_failure (some e) l = err e

-- Behind a path's files, the `err` of the last checksum counts. The next path's List sets it anew.
unfoldable pub end_path : Listing → Outcome Listing
end_path l = check_failure l.failure l

-- What stands behind the entries: the byte 0, the maps, and the i/o errors, of which there are none.
unfoldable pub list_end : Options → Listing → Bytes
list_end o l =
    0
    ∷ (bytes_if (has_preserve_uid o) (id_bytes l.users)
        ++ (bytes_if (has_preserve_gid o) (id_bytes l.groups) ++ int32_bytes (pos 0)))

-- The library calls: filepath.Base for the filters, os.Readlink, FileChecksum, and the lookups of
-- names; `list` is utils.FS's List.
pub record Env : Type 0 where
  pub base : Bytes → Bytes
  pub read_link : Bytes → Option Bytes
  pub file_checksum : Bytes → Fetched
  pub user_name : ℤ → Option Bytes
  pub group_name : ℤ → Option Bytes
  pub list : Bytes → Error ⊎ List FileInfo

module _ (env : Env) (o : Options) where
  -- The checksum field, and the outer `err` behind it.
  unfoldable pub checksum_field : FileInfo → Option Error → Bytes × Option Error
  checksum_field info failure =
      if has_always_checksum o
      then (if is_plain_file info.mode
          then elim (env.file_checksum info.name) [ got sum ↦ (sum, none) | lost e ↦ ([], some e) ]
          else (replicate 16 0, failure))
      else ([], failure)

  -- The link, unless it cannot be read, which ends the entry there; and the checksum.
  unfoldable pub last_fields : FileInfo → Option Error → Bytes × Option Error
  last_fields info failure =
      if has_preserve_links o && is_symlink info.mode
      then elim (env.read_link info.name) [
        | none ↦ ([], failure)
        | some target ↦
            let (sum, after) = checksum_field info failure in
            (int32_bytes (pos (length target)) ++ (target ++ sum), after)
      ]
      else checksum_field info failure

  unfoldable pub entry_bytes : FileInfo → Option Error → Bytes
  entry_bytes info failure =
      sent_flags info ∷ (fixed_fields info ++ (id_fields o info ++ (last_fields info failure).0))

  unfoldable pub add_file : FileInfo → Listing → Listing
  add_file info l = record {
    files =
        l.files
        ++ (record { path = codes "/"; w_path = sent_name info; regular = is_plain_file info.mode }
            ∷ []);
    total_size = l.total_size +ℤ sent_size info;
    buffer = l.buffer ++ entry_bytes info l.failure;
    users =
        if has_preserve_uid o
        then note_id env.user_name l.users (uid_from_file_info info)
        else l.users;
    groups =
        if has_preserve_gid o
        then note_id env.group_name l.groups (gid_from_file_info info)
        else l.groups;
    failure = (last_fields info l.failure).1;
  }

  -- The loop over the files of one path; a file that the filters match is left out.
  unfoldable pub add_files : List FilterRule → List FileInfo → Listing → Outcome Listing
  add_files excl [] l = ok l
  add_files excl (info ∷ infos) l =
      and_then (add_unless (matches env.base excl (sent_name info)) l (add_file info l))
        (add_files excl infos)

  unfoldable pub add_paths : List FilterRule → List Bytes → Listing → Outcome Listing
  add_paths excl [] l = ok l
  add_paths excl (requested ∷ paths) l =
      and_then (listed (env.list requested))
        (λ infos. and_then (and_then (add_files excl infos l) end_path) (add_paths excl paths))

  -- SendFileList: one write.
  unfoldable pub send_file_list : List FilterRule → List Bytes → Prog Conn Listing
  send_file_list excl paths = do
    l ← λ c. (add_paths excl paths no_listing, c)
    write_string (l.buffer ++ list_end o l)
    return l
