-- ===== src/Sender/Filters/Match.antt =====
-- What the rules leave out.
use go_rsync_receiver.Prelude.{
  ℕ, ◌≡◌, ◌↔◌, ◌⊎◌, inl, inr, refl, Bool, true, false, List, [], ◌∷◌, ◌++◌, Bytes, equal, equal_iff,
  if◌then◌else◌, All,
}
use go_rsync_receiver.Outcome.{ok}
use go_rsync_receiver.Sender.Filters.{
  FilterRule, contains, has_suffix, is_slash, is_wild, filtrule_wild, filtrule_include,
  rule_matches, or_else, matches, parse_filter, mark_wild, mark_directory, add_rule, include_prefix,
  exclude_prefix,
}
use Prim.Native.Nat.{bit_and}

-- The rule is not wild.
abbrev pub IsTame : FilterRule → Type 0
IsTame fr = bit_and fr.flag filtrule_wild ≡ 0

-- The rule's pattern is the name, or its last part if the pattern has no slash.
abbrev pub Selects : (Bytes → Bytes) → FilterRule → Bytes → Type 0
Selects base fr name = fr.pattern ≡ (if contains is_slash fr.pattern then name else base name)

-- Some rule of the list does.
pub data Excludes (base : Bytes → Bytes) (name : Bytes) : List FilterRule → Type 0 where
  here :
      {fr : FilterRule} {rest : List FilterRule}
      → Selects base fr name
      → Excludes base name (fr ∷ rest)
  there :
      {fr : FilterRule} {rest : List FilterRule}
      → Excludes base name rest
      → Excludes base name (fr ∷ rest)

module _ (base : Bytes → Bytes) (name : Bytes) where
  rule_matches-IsTame :
      (fr : FilterRule)
      → IsTame fr
      → rule_matches base fr name
        ≡ ok (equal fr.pattern (if contains is_slash fr.pattern then name else base name))
  unfolding rule_matches
  rule_matches-IsTame fr h = rw h refl

  -- With rules that are not wild, `matches` says whether some rule's pattern is the name, or its last
  -- part where the pattern has no slash; nothing panics.
  pub matches-Excludes :
      (filters : List FilterRule)
      → All IsTame filters
      → ((matches base filters name ≡ ok true) × Excludes base name filters)
        ⊎ ((matches base filters name ≡ ok false) × ¬ (Excludes base name filters))
  unfolding matches or_else
  matches-Excludes [] h = inr (refl, λ x. elim x [ ])
  matches-Excludes (fr ∷ rest) (h, hs) = rw (rule_matches-IsTame fr h) (
      decide (equal fr.pattern selected) (equal_iff fr.pattern selected) (matches-Excludes rest hs))
    where
      selected : Bytes
      selected = if contains is_slash fr.pattern then name else base name

      decide :
          (b : Bool)
          → (b ≡ true) ↔ (fr.pattern ≡ selected)
          → ((matches base rest name ≡ ok true) × Excludes base name rest)
            ⊎ ((matches base rest name ≡ ok false) × ¬ (Excludes base name rest))
          → ((or_else (ok b) (matches base rest name) ≡ ok true) × Excludes base name (fr ∷ rest))
            ⊎ ((or_else (ok b) (matches base rest name) ≡ ok false)
                × ¬ (Excludes base name (fr ∷ rest)))
      decide true e d = inl (refl, here (e.0 refl))
      decide false e (inl (m, x)) = inl (m, there x)
      decide false e (inr (m, none_later)) =
          inr (m, λ x. elim x [ here is ↦ absurd (cc (e.1 is)) | there later ↦ none_later later ])

parse_filter_include :
    (pattern : Bytes)
    → parse_filter (include_prefix ++ pattern) ≡ record { flag = 1; pattern = pattern }
unfolding parse_filter equal
parse_filter_include pattern = refl

parse_filter_exclude :
    (pattern : Bytes)
    → parse_filter (exclude_prefix ++ pattern) ≡ record { flag = 0; pattern = pattern }
unfolding parse_filter equal
parse_filter_exclude pattern = refl

-- A rule whose pattern is a plain name is added as it is, behind the others.
add_rule_plain :
    (filters : List FilterRule) (fr : FilterRule)
    → contains is_wild fr.pattern ≡ false
    → has_suffix fr.pattern (47 ∷ []) ≡ false
    → add_rule filters fr ≡ filters ++ (fr ∷ [])
unfolding add_rule mark_wild mark_directory
add_rule_plain filters fr tame plain = rw (plain, tame) refl

All-append :
    (filters : List FilterRule) (fr : FilterRule)
    → All IsTame filters
    → IsTame fr
    → All IsTame (filters ++ (fr ∷ []))
All-append [] fr hs h = (h, tt)
All-append (f ∷ filters) fr (k, hs) h = (k, All-append filters fr hs h)

module _ (base : Bytes → Bytes) (name : Bytes) where
  -- Some rule selects the name exactly if one of the first does, or the last.
  Excludes-append :
      (filters : List FilterRule) (fr : FilterRule)
      → Excludes base name (filters ++ (fr ∷ []))
        ↔ (Excludes base name filters ⊎ Selects base fr name)
  Excludes-append [] fr = (
    λ x. elim x [ here is ↦ inr is | there none_later ↦ elim none_later [ ] ],
    λ x. elim x [ inl none_there ↦ elim none_there [ ] | inr is ↦ here is ],
  )
  Excludes-append (f ∷ filters) fr = (
    λ x. elim x [
      | here is ↦ inl (here is)
      | there later ↦ elim ((Excludes-append filters fr).0 later) [
        | inl first ↦ inl (there first)
        | inr last ↦ inr last
      ]
    ],
    λ x. elim x [
      | inl first ↦ elim first [
        | here is ↦ here is
        | there later ↦ there ((Excludes-append filters fr).1 (inl later))
      ]
      | inr last ↦ there ((Excludes-append filters fr).1 (inr last))
    ],
  )

  matches_iff :
      (filters : List FilterRule)
      → All IsTame filters
      → (matches base filters name ≡ ok true) ↔ Excludes base name filters
  matches_iff filters h = elim (matches-Excludes base name filters h) [
    | inl (m, x) ↦ (λ _. x, λ _. m)
    | inr (m, none) ↦ (λ e. absurd (cc (m, e)), λ x. elim (none x) [ ])
  ]

  -- The rules are `filters` and a last rule of the flag and the pattern; the name is left out exactly if
  -- one of the first selects it, or the pattern is the name, or its last part.
  abbrev pub EndsWith : List FilterRule → ℕ → Bytes → List FilterRule → Type 0
  EndsWith filters flag pattern rules =
      (rules ≡ filters ++ (record { flag = flag; pattern = pattern } ∷ []))
      × ((matches base rules name ≡ ok true) ↔ (
          Excludes base name filters
          ⊎ (pattern ≡ (if contains is_slash pattern then name else base name))))

  add_rule-EndsWith :
      (filters : List FilterRule) (fr : FilterRule)
      → All IsTame filters
      → IsTame fr
      → contains is_wild fr.pattern ≡ false
      → has_suffix fr.pattern (47 ∷ []) ≡ false
      → EndsWith filters fr.flag fr.pattern (add_rule filters fr)
  add_rule-EndsWith filters fr hs h tame plain =
      let added = add_rule_plain filters fr tame plain in
      let left_out = matches_iff (filters ++ (fr ∷ [])) (All-append filters fr hs h) in
      let split = Excludes-append filters fr in
      (added, rw added (λ e. split.0 (left_out.0 e), λ x. left_out.1 (split.1 x)))

  -- Behind rules that are not wild, the lines `+ pattern` and `- pattern` each add a rule of the pattern,
  -- for a pattern with neither a wild character nor a slash at its end. The rule of `+ ` has the flag
  -- that says to include, and the other has none, but either way the same names are left out: those
  -- that the first rules select, and those that the pattern is, or is the last part of where the pattern
  -- has no slash.
  pub rule_matches_include :
      (filters : List FilterRule) (pattern : Bytes)
      → All IsTame filters
      → contains is_wild pattern ≡ false
      → has_suffix pattern (47 ∷ []) ≡ false
      → EndsWith filters filtrule_include pattern
          (add_rule filters (parse_filter (include_prefix ++ pattern)))
        × EndsWith filters 0 pattern (add_rule filters (parse_filter (exclude_prefix ++ pattern)))
  rule_matches_include filters pattern hs tame plain =
      rw (parse_filter_include pattern, parse_filter_exclude pattern)
        (
          add_rule-EndsWith filters _ hs refl tame plain,
          add_rule-EndsWith filters _ hs refl tame plain,
        )
