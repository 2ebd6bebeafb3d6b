-- ===== src/Sender/FileList/Fields.antt =====
-- The bytes of the list: entry by entry, they are what the receiver hears.
use go_rsync_receiver.Prelude.{
  ◌^◌, ◌<◌, ◌≡◌, refl, ap, Bool, true, false, ◌&&◌, ◌||◌, inl, inr, Option, none, some, [], ◌∷◌,
  ◌++◌, append-nil, append_assoc, Bytes, length, arith, Bool-cases, ◌==◌,
}
use go_rsync_receiver.Prelude.Int.{pos}
use go_rsync_receiver.Prelude.Words.{IsI32, IsI64}
use go_rsync_receiver.Outcome.{Error}
use go_rsync_receiver.Wire.{int32_bytes, int64_bytes}
use go_rsync_receiver.Rsync.{s_iflnk}
use go_rsync_receiver.Files.{FileInfo}
use go_rsync_receiver.Options.Fields.{Options}
use go_rsync_receiver.Options.Access.{
  has_preserve_uid, has_preserve_gid, has_preserve_devices, has_preserve_specials,
  has_preserve_links, has_always_checksum,
}
use go_rsync_receiver.Receiver.Opts.{TransferOpts}
use go_rsync_receiver.Receiver.FileList.{path_max, kind_of, is_dev, is_special}
use go_rsync_receiver.Sender.FileList.{
  Env, bytes_if, sent_name, sent_flags, sent_size, fixed_fields, id_fields, uid_from_file_info,
  gid_from_file_info, rdev_from_file_info, checksum_field, last_fields, entry_bytes,
}
use go_rsync_receiver.Sender.FileList.Modes.{is_symlink, is_device, is_special_file, sent_mode}
use go_rsync_receiver.Sender.FileList.Kinds.{IsKnown, IsKnown-IsCarried}
use go_rsync_receiver.Sender.FileList.Entry.{Said, IsSayable, said_bytes, link_bytes}

-- The two sides agree on what an entry holds; devices and special files are asked for together.
pub record Matches (o : Options) (opts : TransferOpts) : Type 0 where
  pub uid : has_preserve_uid o ≡ opts.preserve_uid
  pub gid : has_preserve_gid o ≡ opts.preserve_gid
  pub devices : has_preserve_devices o ≡ opts.preserve_devices
  pub specials : has_preserve_specials o ≡ opts.preserve_devices
  pub links : has_preserve_links o ≡ opts.preserve_links
  pub no_checksum : has_always_checksum o ≡ false

abbrev pub text_of : Option Bytes → Bytes
text_of none = []
text_of (some text) = text

and_or : (d a b : Bool) → (d && a || d && b) ≡ (d && (a || b))
and_or true a b = refl
and_or false a b = refl

regroup :
    (l n s t m u g r k : Bytes)
    → (l ++ (n ++ (s ++ (t ++ m)))) ++ ((u ++ (g ++ r)) ++ k)
      ≡ (l ++ n) ++ (s ++ (t ++ (m ++ (u ++ (g ++ (r ++ k))))))
regroup l n s t m u g r k = simp append_assoc refl

module _ (env : Env) (o : Options) where
  -- The target of a link that is sent.
  unfoldable pub target_of : FileInfo → Bytes
  target_of info = text_of (env.read_link info.name)

  abbrev pub sends_link : FileInfo → Bool
  sends_link info = has_preserve_links o && is_symlink info.mode

  -- What the entry of a file says.
  abbrev pub said : FileInfo → Said
  said info = record {
    name = sent_name info;
    size = sent_size info;
    seconds = info.mod_time.seconds;
    mode = pos (sent_mode info.mode);
    id = pos 1000;
    target = target_of info;
  }

  -- A file of a known kind whose numbers fit, and whose target can be read if it is sent.
  pub record IsSendable (info : FileInfo) : Type 0 where
    pub known : IsKnown info.mode
    pub name_fits : length (sent_name info) < path_max
    pub size_fits : IsI64 (sent_size info)
    pub seconds_fit : IsI32 info.mod_time.seconds
    pub readable : sends_link info ≡ true → (t : Bytes) × (env.read_link info.name ≡ some t)
    pub target_fits : length (target_of info) < 2 ^ 31

  pub IsSendable-IsSayable : (info : FileInfo) → IsSendable info → IsSayable (said info)
  IsSendable-IsSayable info h = record {
    name_fits = h.name_fits;
    size_fits = h.size_fits;
    seconds_fit = h.seconds_fit;
    mode_fits = (IsKnown-IsCarried info.mode h.known).fits;
    id_fits = omega arith;
    target_fits = h.target_fits;
  }

  module _ (opts : TransferOpts) (m : Matches o opts) where
    checksum_field-none :
        (info : FileInfo) (failure : Option Error)
        → checksum_field env o info failure ≡ ([], failure)
    unfolding checksum_field
    checksum_field-none info failure = rw m.no_checksum refl

    target_of-some :
        (info : FileInfo) (t : Bytes) → env.read_link info.name ≡ some t → target_of info ≡ t
    unfolding target_of
    target_of-some info t e = ap text_of e

    pub last_fields-link :
        (info : FileInfo) (failure : Option Error)
        → IsSendable info
        → last_fields env o info failure ≡ (
          bytes_if
              (sends_link info)
              (int32_bytes (pos (length (target_of info))) ++ target_of info),
          failure,
        )
    unfolding last_fields
    last_fields-link info failure h = elim (Bool-cases (sends_link info)) [
      | inr off ↦ rw off (checksum_field-none info failure)
      | inl on ↦
          let (t, e) = h.readable on in
          rw (on, e, checksum_field-none info failure, target_of-some info t e) (rw append-nil refl)
    ]

    link-same :
        (info : FileInfo)
        → IsSendable info
        → sends_link info
          ≡ (opts.preserve_links && (kind_of (pos (sent_mode info.mode)) == s_iflnk))
    link-same info h = rw (m.links, (IsKnown-IsCarried info.mode h.known).link) refl

    rdev-same :
        (info : FileInfo)
        → IsSendable info
        → ((has_preserve_devices o && is_device info.mode)
            || (has_preserve_specials o && is_special_file info.mode))
          ≡ (opts.preserve_devices
              && (is_dev (kind_of (pos (sent_mode info.mode)))
                  || is_special (kind_of (pos (sent_mode info.mode)))))
    rdev-same info h =
        let c = IsKnown-IsCarried info.mode h.known in
        rw (m.devices, m.specials, c.device, c.special) (and_or opts.preserve_devices _ _)

    id_fields-same :
        (info : FileInfo)
        → IsSendable info
        → id_fields o info
          ≡ bytes_if opts.preserve_uid (int32_bytes (pos 1000))
            ++ (bytes_if opts.preserve_gid (int32_bytes (pos 1000))
                ++ bytes_if
                    (opts.preserve_devices
                      && (is_dev (kind_of (pos (sent_mode info.mode)))
                          || is_special (kind_of (pos (sent_mode info.mode)))))
                    (int32_bytes (pos 1000)))
    unfolding id_fields uid_from_file_info gid_from_file_info rdev_from_file_info
    id_fields-same info h = rw (m.uid, m.gid, rdev-same info h) refl

    pub entry_bytes-said :
        (info : FileInfo) (failure : Option Error)
        → IsSendable info
        → entry_bytes env o info failure ≡ sent_flags info ∷ said_bytes opts (said info)
    unfolding entry_bytes fixed_fields
    entry_bytes-said info failure h =
        let s = said info in
        let rdev =
          bytes_if
            (opts.preserve_devices && (is_dev (kind_of s.mode) || is_special (kind_of s.mode)))
            (int32_bytes s.id) in
        rw (last_fields-link info failure h, id_fields-same info h, link-same info h)
          (ap (◌∷◌ (sent_flags info)) (
            regroup (int32_bytes (pos (length s.name))) s.name (int64_bytes s.size)
              (int32_bytes s.seconds) (int32_bytes s.mode)
              (bytes_if opts.preserve_uid (int32_bytes s.id))
              (bytes_if opts.preserve_gid (int32_bytes s.id)) rdev (link_bytes opts s)))
