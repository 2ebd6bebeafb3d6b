-- ===== src/Tests/Filters.antt =====
-- Runs of the rules.
use go_rsync_receiver.Prelude.{◌≡◌, ◌⊎◌, refl, true, false, equal, List, [], ◌∷◌, ◌++◌, Bytes}
use go_rsync_receiver.Outcome.{ok}
use go_rsync_receiver.Tests.Common.{conn_of}
use go_rsync_receiver.Receiver.FileList.Ends.{Ends}
use go_rsync_receiver.Sender.Filters.{
  FilterRule, filtrule_include, include_prefix, exclude_prefix, parse_filter, add_rule, matches,
  recv_filter_list,
}
use go_rsync_receiver.Sender.Filters.Match.{
  EndsWith, Excludes, matches-Excludes, rule_matches_include,
}
use go_rsync_receiver.Sender.Filters.Loop.{recv_filter_list-Ends}

-- In place of filepath.Base
abbrev same : Bytes → Bytes
same name = name

abbrev two_rules : List FilterRule
two_rules =
    record { flag = 0; pattern = 97 ∷ [] } ∷ record { flag = 1; pattern = 98 ∷ 47 ∷ 99 ∷ [] } ∷ []

matches-Excludes_example :
    ((matches same two_rules (98 ∷ []) ≡ ok true) × Excludes same (98 ∷ []) two_rules)
    ⊎ ((matches same two_rules (98 ∷ []) ≡ ok false) × ¬ (Excludes same (98 ∷ []) two_rules))
matches-Excludes_example = matches-Excludes same (98 ∷ []) two_rules (refl, (refl, tt))

rule_matches_include_example :
    EndsWith same
      (97 ∷ [])
      two_rules
      filtrule_include
      (97 ∷ [])
      (add_rule two_rules (parse_filter (include_prefix ++ (97 ∷ []))))
    × EndsWith same
        (97 ∷ [])
        two_rules
        0
        (97 ∷ [])
        (add_rule two_rules (parse_filter (exclude_prefix ++ (97 ∷ []))))
rule_matches_include_example =
    rule_matches_include same (97 ∷ []) two_rules (97 ∷ []) (refl, (refl, tt)) refl
      (unfold equal in refl)

abbrev one_rule : Bytes
one_rule = 3 ∷ 0 ∷ 0 ∷ 0 ∷ 45 ∷ 32 ∷ 97 ∷ 0 ∷ 0 ∷ 0 ∷ 0 ∷ []

recv_filter_list-Ends_example : Ends 0 (conn_of one_rule) (recv_filter_list (conn_of one_rule))
recv_filter_list-Ends_example = recv_filter_list-Ends (conn_of one_rule)
