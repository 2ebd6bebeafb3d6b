-- ===== src/Tests/SentList.antt =====
-- A run of the list of files, from the sender to the receiver.
use go_rsync_receiver.Prelude.{
  ◌+◌, ◌≡◌, refl, inr, none, some, List, [], ◌∷◌, ◌++◌, Bytes, codes, All, equal, arith,
}
use go_rsync_receiver.Prelude.Int.{pos}
use go_rsync_receiver.Outcome.{ok}
use go_rsync_receiver.Tests.Common.{conn_of, conn_of-IsFresh}
use go_rsync_receiver.Files.{FileInfo, got, mode_dir, mode_symlink}
use go_rsync_receiver.Options.Fields.{Options, new_options, set_int, int_index, default_int}
use go_rsync_receiver.Options.Access.{
  has_preserve_devices, has_preserve_specials, has_always_checksum,
}
use go_rsync_receiver.Options.SpecialCases.{set_archive}
use go_rsync_receiver.Receiver.Opts.{TransferOpts}
use go_rsync_receiver.Receiver.Client.{transfer_opts, transfer_opts-Matches}
use go_rsync_receiver.Receiver.FileList.{receive_file_list}
use go_rsync_receiver.Sender.Filters.{matches}
use go_rsync_receiver.Sender.FileList.{Env, send_file_list, sent_name, sent_size}
use go_rsync_receiver.Sender.FileList.Modes.{is_dir}
use go_rsync_receiver.Sender.FileList.Kinds.{plain_file, directory, symlink}
use go_rsync_receiver.Sender.FileList.Fields.{Matches, IsSendable, said, target_of}
use go_rsync_receiver.Sender.FileList.Delivery.{heard_files}
use go_rsync_receiver.Sender.FileList.RoundTrip.{receive_file_list-send_file_list}

abbrev root_info : FileInfo
root_info = record {
  name = codes "/";
  size = 60;
  mode = mode_dir + 0o755;
  mod_time = record { seconds = pos 1000; nanos = 5 };
}

abbrev text_info : FileInfo
text_info = record {
  name = codes "notes.txt";
  size = 7;
  mode = 0o644;
  mod_time = record { seconds = pos 2000; nanos = 0 };
}

abbrev link_info : FileInfo
link_info = record {
  name = codes "link";
  size = 9;
  mode = mode_symlink + 0o777;
  mod_time = record { seconds = pos 3000; nanos = 0 };
}

abbrev infos : List FileInfo
infos = root_info ∷ text_info ∷ link_info ∷ []

abbrev env : Env
env = record {
  base = λ name. name;
  read_link = λ name. some (codes "notes.txt");
  file_checksum = λ name. got [];
  user_name = λ id. none;
  group_name = λ id. none;
  list = λ path. inr infos;
}

abbrev options : Options
options = set_archive new_options

abbrev opts : TransferOpts
opts = transfer_opts options

agreed : Matches options opts
unfolding has_preserve_devices has_preserve_specials has_always_checksum set_archive new_options
    set_int int_index default_int
agreed = transfer_opts-Matches options refl refl

sendable : All (IsSendable env options) infos
unfolding sent_name sent_size is_dir equal target_of
sendable = (
  record {
    known = record { kind = directory; perm = 0o755; small = omega arith; split = refl };
    name_fits = omega arith;
    size_fits = omega arith;
    seconds_fit = omega arith;
    readable = λ _. (codes "notes.txt", refl);
    target_fits = omega arith;
  },
  (
    record {
      known = record { kind = plain_file; perm = 0o644; small = omega arith; split = refl };
      name_fits = omega arith;
      size_fits = omega arith;
      seconds_fit = omega arith;
      readable = λ _. (codes "notes.txt", refl);
      target_fits = omega arith;
    },
    (
      record {
        known = record { kind = symlink; perm = 0o777; small = omega arith; split = refl };
        name_fits = omega arith;
        size_fits = omega arith;
        seconds_fit = omega arith;
        readable = λ _. (codes "notes.txt", refl);
        target_fits = omega arith;
      },
      tt,
    ),
  ),
)

abbrev sent_list : Bytes
sent_list = (send_file_list env options [] (codes "src" ∷ []) (conn_of [])).1.output

receive_file_list-send_file_list_example :
    ((receive_file_list (λ name. name) (λ files. files) opts (conn_of (sent_list ++ (7 ∷ [])))).0
      ≡ ok (heard_files (λ name. name) opts (said env options) infos, pos 0))
    × ((receive_file_list
          (λ name. name)
          (λ files. files)
          opts
          (conn_of (sent_list ++ (7 ∷ [])))).1.input
        ≡ 7 ∷ [])
unfolding matches
receive_file_list-send_file_list_example =
    receive_file_list-send_file_list env options opts agreed [] (codes "src") infos refl
      (refl, (refl, (refl, tt))) sendable (λ name. name) (λ files. files) (conn_of [])
      (conn_of (sent_list ++ (7 ∷ []))) (7 ∷ []) conn_of-IsFresh refl
