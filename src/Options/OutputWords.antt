-- ===== src/Options/OutputWords.antt =====
-- rsyncopts/rsyncopts.go: the levels of --info, and the verbosity that -v gives.
use go_rsync_receiver.Prelude.{
  ℕ, zero, suc, ◌-◌, ◌^◌, ◌%◌, Bool, ◌||◌, Option, none, some, List, [], ◌∷◌, Bytes, equal, length,
  drop, ltb, ◌==◌, if◌then◌else◌, get_elem?, codes,
}
use go_rsync_receiver.Prelude.Int.{ℤ, pos, negsuc}
use go_rsync_receiver.Options.Fields.{Options, verbose}
use Prim.Native.Nat.{bit_or}

-- The library functions that depend on Unicode or on a number's spelling: strings.TrimSpace,
-- strings.TrimRightFunc with unicode.IsNumber, strings.ToLower, strconv.Atoi, and strconv.ParseInt
-- with the base 0 and 64 bits. An error of the last two is none.
pub record Texts : Type 0 where
  pub trim_space : Bytes → Bytes
  pub trim_numbers : Bytes → Bytes
  pub to_lower : Bytes → Bytes
  pub atoi : Bytes → Option ℤ
  pub parse_int : Bytes → Option ℤ

abbrev w_cli : ℕ
w_cli = 1

abbrev w_srv : ℕ
w_srv = 2

abbrev w_snd : ℕ
w_snd = 4

abbrev w_rec : ℕ
w_rec = 8

-- `side` is the field `where`.
pub record Output : Type 0 where
  pub name : Bytes
  pub side : ℕ
  pub help : Bytes

abbrev output : Bytes → ℕ → Bytes → Output
output n w h = record { name = n; side = w; help = h }

abbrev pub info_words : List Output
info_words =
    output (codes "BACKUP") w_rec (codes "Mention files backed up")
    ∷ output (codes "COPY") w_rec (codes "Mention files copied locally on the receiving side")
    ∷ output (codes "DEL") w_rec (codes "Mention deletions on the receiving side")
    ∷ output (codes "FLIST") w_cli (codes "Mention file-list receiving/sending (levels 1-2)")
    ∷ output (codes "MISC") (bit_or w_snd w_rec)
        (codes "Mention miscellaneous information (levels 1-2)")
    ∷ output (codes "MOUNT") (bit_or w_snd w_rec)
        (codes "Mention mounts that were found or skipped")
    ∷ output (codes "NAME") (bit_or w_snd w_rec)
        (codes "Mention 1) updated file/dir names, 2) unchanged names")
    ∷ output (codes "NONREG") w_rec
        (codes "Mention skipped non-regular files (default 1, 0 disables)")
    ∷ output (codes "PROGRESS") w_cli
        (codes "Mention 1) per-file progress or 2) total transfer progress")
    ∷ output (codes "REMOVE") w_snd (codes "Mention files removed on the sending side")
    ∷ output (codes "SKIP") w_rec
        (codes "Mention files skipped due to transfer overrides (levels 1-2)")
    ∷ output (codes "STATS") (bit_or w_cli w_srv)
        (codes "Mention statistics at end of run (levels 1-3)")
    ∷ output (codes "SYMSAFE") (bit_or w_snd w_rec) (codes "Mention symlinks that are unsafe")
    ∷ []

-- strings.SplitSeq(s, ",")
unfoldable pub split : Bytes → List Bytes
split [] = [] ∷ []
split (b ∷ s) =
    if b == b','
    then [] ∷ split s
    else elim (split s) [ [] ↦ (b ∷ []) ∷ [] | word ∷ words ↦ (b ∷ word) ∷ words ]

-- `uint16(lev)`
unfoldable pub to_u16 : ℤ → ℕ
to_u16 (pos n) = n % 2 ^ 16
to_u16 (negsuc n) = 2 ^ 16 - 1 - n % 2 ^ 16

module _ (texts : Texts) where
  -- The loop over the words, whose levels are as many: one word gets the level, or all do.
  unfoldable pub set_levels : List Output → List ℕ → Bytes → ℕ → Bool → List ℕ
  set_levels [] levels trimmed lev all = levels
  set_levels (word ∷ words) [] trimmed lev all = []
  set_levels (word ∷ words) (level ∷ levels) trimmed lev all =
      if equal (texts.to_lower word.name) trimmed || all
      then lev ∷ (if all then set_levels words levels trimmed lev all else levels)
      else level ∷ set_levels words levels trimmed lev all

  -- A word without the number behind it, and that number, or 1.
  unfoldable pub word_level : Bytes → Option (Bytes × ℤ)
  word_level s =
      let trimmed = texts.trim_numbers s in
      if ltb (length trimmed) (length s)
      then elim (texts.atoi (drop (length trimmed) s)) [
        | none ↦ none
        | some lev ↦ some (trimmed, lev)
      ]
      else some (trimmed, pos 1)

  unfoldable pub output_word : List Output → List ℕ → Bytes → List ℕ
  output_word words levels s =
      if equal (texts.trim_space s) [] then levels else elim (word_level s) [
        | none ↦ levels
        | some (trimmed, lev) ↦
            let lower = texts.to_lower trimmed in
            set_levels words levels lower
              (to_u16 (if equal lower (codes "none") then pos 0 else lev))
              (equal lower (codes "all"))
      ]

  unfoldable pub words_loop : List Output → List ℕ → List Bytes → List ℕ
  words_loop words levels [] = levels
  words_loop words levels (s ∷ rest) = words_loop words (output_word words levels s) rest

  -- parseOutputWords; the priority is not used.
  unfoldable pub parse_output_words : List Output → List ℕ → Bytes → List ℕ
  parse_output_words words levels text = words_loop words levels (split text)

  abbrev pub info_verbosity : List Bytes
  info_verbosity =
      codes "NONREG"
      ∷ codes "COPY,DEL,FLIST,MISC,NAME,STATS,SYMSAFE"
      ∷ codes "BACKUP,MISC2,MOUNT,NAME2,REMOVE,SKIP"
      ∷ []

  unfoldable pub verbosity_loop : ℕ → ℕ → Options → Options
  verbosity_loop zero j o = o
  verbosity_loop (suc turns) j o = verbosity_loop turns (suc j) (elim (get_elem? info_verbosity j) [
    | none ↦ o
    | some words ↦ record o { info = parse_output_words info_words o.info words }
  ])

  -- setOutputVerbosity: `j` runs from 0 to `o.verbose`.
  unfoldable pub set_output_verbosity : Options → Options
  set_output_verbosity o = elim (o.ints verbose) [
    | pos n ↦ verbosity_loop (suc n) 0 o
    | negsuc n ↦ o
  ]
