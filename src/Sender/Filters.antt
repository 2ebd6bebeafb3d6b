-- ===== src/Sender/Filters.antt =====
-- rsyncsender/exclude.go: the rules that leave files out.
pub mod Match
pub mod Loop
use go_rsync_receiver.Prelude.{
  ℕ, zero, suc, ◌+◌, ◌-◌, Bool, true, false, not, ◌&&◌, ◌||◌, List, [], ◌∷◌, ◌++◌, Bytes, equal,
  length, take, drop, leb, ◌==◌, if◌then◌else◌,
}
use go_rsync_receiver.Prelude.Int.{ℤ, pos, ◌==ℤ◌}
use go_rsync_receiver.Outcome.{Outcome, ok, panic, out_of_fuel, Prog, return, ◌>>=◌}
use go_rsync_receiver.Wire.{Conn, read_int32, read_full}
use go_rsync_receiver.Receiver.Data.{make_length}
use Prim.Native.Nat.{bit_and, bit_or}

-- strings.HasPrefix, TrimPrefix, HasSuffix, TrimSuffix
abbrev pub has_prefix : Bytes → Bytes → Bool
has_prefix s prefix = equal (take (length prefix) s) prefix

abbrev pub trim_prefix : Bytes → Bytes → Bytes
trim_prefix s prefix = if has_prefix s prefix then drop (length prefix) s else s

abbrev pub has_suffix : Bytes → Bytes → Bool
has_suffix s suffix =
    leb (length suffix) (length s) && equal (drop (length s - length suffix) s) suffix

abbrev pub trim_suffix : Bytes → Bytes → Bytes
trim_suffix s suffix = if has_suffix s suffix then take (length s - length suffix) s else s

-- strings.ContainsFunc, for a test that only ASCII characters pass
abbrev pub contains : (ℕ → Bool) → Bytes → Bool
contains test [] = false
contains test (b ∷ s) = test b || contains test s

abbrev pub filtrule_include : ℕ
filtrule_include = 1

abbrev pub filtrule_clear_list : ℕ
filtrule_clear_list = 2

abbrev pub filtrule_directory : ℕ
filtrule_directory = 4

abbrev pub filtrule_wild : ℕ
filtrule_wild = 8

pub record FilterRule : Type 0 where
  pub flag : ℕ
  pub pattern : Bytes

-- The bytes `*`, `[` and `?`
abbrev pub is_wild : ℕ → Bool
is_wild b = b == 42 || b == 91 || b == 63

abbrev pub is_slash : ℕ → Bool
is_slash b = b == 47

abbrev pub exclude_prefix : Bytes
exclude_prefix = 45 ∷ 32 ∷ []

abbrev pub include_prefix : Bytes
include_prefix = 43 ∷ 32 ∷ []

abbrev pub clear_prefix : Bytes
clear_prefix = 33 ∷ []

-- parseFilter; it returns no error. The flag of a new rule is 0, so clearing a bit leaves 0.
unfoldable pub parse_filter : Bytes → FilterRule
parse_filter line =
    if has_prefix line exclude_prefix
    then record { flag = 0; pattern = trim_prefix line exclude_prefix }
    else if has_prefix line include_prefix
    then record { flag = filtrule_include; pattern = trim_prefix line include_prefix }
    else if has_prefix line clear_prefix
    then record { flag = filtrule_clear_list; pattern = line }
    else record { flag = 0; pattern = line }

-- The two steps that addRule takes with a rule before it appends it.
unfoldable pub mark_directory : FilterRule → FilterRule
mark_directory fr =
    if has_suffix fr.pattern (47 ∷ [])
    then record {
      flag = bit_or fr.flag filtrule_directory;
      pattern = trim_suffix fr.pattern (47 ∷ []);
    }
    else fr

unfoldable pub mark_wild : FilterRule → FilterRule
mark_wild fr =
    if contains is_wild fr.pattern then record fr { flag = bit_or fr.flag filtrule_wild } else fr

unfoldable pub add_rule : List FilterRule → FilterRule → List FilterRule
add_rule filters fr = filters ++ (mark_wild (mark_directory fr) ∷ [])

-- `base` is filepath.Base. A wild rule panics.
unfoldable pub rule_matches : (Bytes → Bytes) → FilterRule → Bytes → Outcome Bool
rule_matches base fr name =
    if not (bit_and fr.flag filtrule_wild == 0)
    then panic
    else ok (equal fr.pattern (if contains is_slash fr.pattern then name else base name))

-- The rest of the loop behind what a rule says.
unfoldable pub or_else : Outcome Bool → Outcome Bool → Outcome Bool
or_else (ok true) rest = ok true
or_else (ok false) rest = rest
or_else o rest = o

unfoldable pub matches : (Bytes → Bytes) → List FilterRule → Bytes → Outcome Bool
matches base [] name = ok false
matches base (fr ∷ filters) name = or_else (rule_matches base fr name) (matches base filters name)

unfoldable pub filter_step :
    List FilterRule
    → (List FilterRule → Prog Conn (List FilterRule))
    → ℤ
    → Prog Conn (List FilterRule)
filter_step filters next len =
    if len ==ℤ pos 0
    then return filters
    else (do n ← make_length len; line ← read_full n; next (add_rule filters (parse_filter line)))

unfoldable pub filter_loop : ℕ → List FilterRule → Prog Conn (List FilterRule)
filter_loop zero filters c = (out_of_fuel, c)
filter_loop (suc fuel) filters c =
    (do len ← read_int32; filter_step filters (filter_loop fuel) len) c

-- A round takes the four bytes of a length at least.
unfoldable pub recv_filter_list : Prog Conn (List FilterRule)
recv_filter_list c = filter_loop (suc (length c.input)) [] c
