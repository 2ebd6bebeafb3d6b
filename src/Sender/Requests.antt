-- ===== src/Sender/Requests.antt =====
-- SendFiles of rsyncsender/sender.go: the receiver's requests, and the tables of its blocks.
pub mod Tables
pub mod DryRun
use go_rsync_receiver.Prelude.{
  ℕ, zero, suc, ◌+◌, ◌^◌, Bool, List, [], ◌∷◌, Bytes, length, ltb, ◌==◌, if◌then◌else◌,
}
use go_rsync_receiver.Prelude.Int.{ℤ, pos, negsuc, ◌==ℤ◌}
use go_rsync_receiver.Prelude.Words.{wrap_i32}
use go_rsync_receiver.Outcome.{
  Outcome, ok, err, panic, out_of_fuel, Error, path_error, Prog, return, fail, ◌>>=◌, ◌>>◌,
}
use go_rsync_receiver.Wire.{Conn, read_int32, write_int32}
use go_rsync_receiver.Rsync.{SumBuf, SumHead}
use go_rsync_receiver.Checksum.{tag_of}
use go_rsync_receiver.Files.{Opened}
use go_rsync_receiver.Sender.Whole.{send_file}
use go_rsync_receiver.Sender.Blocks.{receive_sums}
use go_rsync_receiver.Sender.Search.{Target}
use go_rsync_receiver.Sender.HashSearch.{TagTable, Stat, hash_search}

-- `targets` before the sort, from index `idx` on.
unfoldable pub targets_from : ℕ → List SumBuf → List Target
targets_from idx [] = []
targets_from idx (sum ∷ sums) =
    record { index = idx; tag = tag_of sum.sum1 } ∷ targets_from (idx + 1) sums

-- `sort` is sort.Slice by the tags.
unfoldable pub build_targets : (List Target → List Target) → List SumBuf → List Target
build_targets sort sums = sort (targets_from 0 sums)

-- The loop goes down to index 0, so that the last assignment is that of the first target.
unfoldable pub table_from : ℕ → List Target → TagTable
table_from idx [] = []
table_from idx (t ∷ targets) = (t.tag, idx) ∷ table_from (idx + 1) targets

unfoldable pub build_table : List Target → TagTable
build_table targets = table_from 0 targets

-- A file of the list: the way sendFile finds it, and the way hashSearch does, with its map.
pub record Source (M : Type 0) : Type 0 where
  pub whole : Opened
  pub stat : Stat
  pub map : ℕ → ℕ → ℕ → M

-- An error of a path is logged, and the next request is read.
unfoldable pub or_vanished : {S : Type 0} → Outcome (Unit {0}) × S → Outcome (Unit {0}) × S
or_vanished (err path_error, s) = (ok tt, s)
or_vanished (r, s) = (r, s)

-- `fileList.Files[fileIndex]` panics out of range.
unfoldable pub source_at : {M : Type 0} → List (Source M) → ℤ → Prog Conn (Source M)
source_at [] i s = (panic, s)
source_at (f ∷ files) (negsuc n) s = (panic, s)
source_at (f ∷ files) (pos zero) s = (ok f, s)
source_at (f ∷ files) (pos (suc n)) s = source_at files (pos n) s

module _ {M : Type 0} (ptr : ℕ → ℤ → M → Bytes × M) (md4 : Bytes → Bytes) (root : ℕ → ℕ) (seed : ℤ)
    (sort : List Target → List Target) where
  unfoldable pub search_source : ℤ → SumHead → Source M → Prog Conn (Unit {0})
  search_source file_index head f =
      let targets = build_targets sort head.sums in
      hash_search ptr md4 seed f.map file_index head targets (build_table targets) f.stat

  unfoldable pub send_source : ℤ → SumHead → Source M → Prog Conn (Unit {0})
  send_source file_index head f =
      if length head.sums == 0
      then send_file md4 root seed file_index f.whole
      else search_source file_index head f

  unfoldable pub send_request : List (Source M) → ℤ → Prog Conn (Unit {0})
  send_request files file_index s =
      (do
        head ← receive_sums
        f ← source_at files file_index
        (λ (c : Conn). or_vanished (send_source file_index head f c)))
        s

  -- One round behind the read of the index; `rest` is the loop from a phase on.
  unfoldable pub send_round :
      Bool → List (Source M) → (ℕ → Prog Conn (Unit {0})) → ℕ → ℤ → Prog Conn (Unit {0})
  send_round dry_run files rest phase file_index =
      if file_index ==ℤ negsuc 0
      then if phase == 0 then (do write_int32 (negsuc 0); rest (phase + 1)) else return tt
      else if dry_run
      then (do write_int32 file_index; rest phase)
      else (do send_request files file_index; rest phase)

  unfoldable pub send_loop : ℕ → Bool → List (Source M) → ℕ → Prog Conn (Unit {0})
  send_loop zero dry_run files phase s = (out_of_fuel, s)
  send_loop (suc fuel) dry_run files phase s =
      (do
        file_index ← read_int32
        send_round dry_run files (send_loop fuel dry_run files) phase file_index)
        s

  -- A round reads an index at least, of four bytes.
  unfoldable pub send_files : Bool → List (Source M) → Prog Conn (Unit {0})
  send_files dry_run files s =
      (do send_loop (suc (length s.input)) dry_run files 0; write_int32 (negsuc 0)) s
