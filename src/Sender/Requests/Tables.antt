-- ===== src/Sender/Requests/Tables.antt =====
-- The tables of the receiver's blocks.
use go_rsync_receiver.Prelude.{
  ℕ, zero, suc, ◌+◌, ◌<◌, ◌≡◌, ◌≢◌, ◌⊎◌, refl, sym, ap, ◌∙◌, subst, List, [], ◌∷◌, Option, none,
  some, arith, get_elem?, ◌==◌, Bool-cases, inl, inr, All,
}
use go_rsync_receiver.Rsync.{SumBuf, SumHead}
use go_rsync_receiver.Sender.Search.{Target}
use go_rsync_receiver.Sender.HashSearch.{lookup_tag}
use go_rsync_receiver.Sender.HashSearch.Found.{HasBlock}
use go_rsync_receiver.Sender.Requests.{targets_from, build_targets, table_from, build_table}

-- `j` is the first index in `targets` of a target with the tag, when the indices start at `idx`.
pub record IsFirst (targets : List Target) (tag j : ℕ) : Type 0 where
  pub target : Target
  pub there : get_elem? targets j ≡ some target
  pub tagged : target.tag ≡ tag
  pub before : (i : ℕ) (t : Target) → i < j → get_elem? targets i ≡ some t → t.tag ≢ tag

lookup_from :
    (targets : List Target) (tag idx : ℕ)
    → ((j : ℕ) × (lookup_tag tag (table_from idx targets) ≡ some (idx + j)) × IsFirst targets tag j)
      ⊎ ((lookup_tag tag (table_from idx targets) ≡ none)
          × All (λ (t : Target). t.tag ≢ tag) targets)
unfolding lookup_tag table_from
lookup_from [] tag idx = inr (refl, tt)
lookup_from (t ∷ targets) tag idx = elim (Bool-cases (t.tag == tag)) [
  | inl same ↦ inl (
    0,
    rw same (ap some (omega arith)),
    record {
      target = t;
      there = refl;
      tagged = ground (arith, same);
      before = λ i u h e. absurd (omega (arith, h));
    },
  )
  | inr other ↦
      let differs : t.tag ≢ tag = λ e. absurd (ground (arith, e, other)) in
      elim (lookup_from targets tag (idx + 1)) [
        | inr (nowhere, all) ↦ inr (rw other nowhere, (differs, all))
        | inl (j, found, first) ↦ inl (
          suc j,
          rw other (found ∙ ap some (omega arith)),
          record {
            target = first.target;
            there = first.there;
            tagged = first.tagged;
            before = later t targets tag j differs first;
          },
        )
      ]
]
  where
    later :
        (t : Target) (targets : List Target) (tag j : ℕ)
        → t.tag ≢ tag
        → IsFirst targets tag j
        → (i : ℕ) (u : Target) → i < suc j
        → get_elem? (t ∷ targets) i ≡ some u
        → u.tag ≢ tag
    later t targets tag j d first zero u h e = subst (λ (x : Target). x.tag ≢ tag) (ap (from t) e) d
      where
        from : Target → Option Target → Target
        from t none = t
        from t (some x) = x
    later t targets tag j d first (suc i) u h e = first.before i u (omega arith) e

-- The tag table gives the index of the first target with the tag, and nothing if no target has it.
pub lookup_tag-build_table :
    (targets : List Target) (tag : ℕ)
    → ((j : ℕ) × (lookup_tag tag (build_table targets) ≡ some j) × IsFirst targets tag j)
      ⊎ ((lookup_tag tag (build_table targets) ≡ none) × All (λ (t : Target). t.tag ≢ tag) targets)
unfolding build_table
lookup_tag-build_table targets tag = elim (lookup_from targets tag 0) [
  | inl (j, found, first) ↦ inl (j, found ∙ ap some (omega arith), first)
  | inr nothing ↦ inr nothing
]

targets_from-HasBlock :
    (head : SumHead) (idx : ℕ) (sums : List SumBuf)
    → ((i : ℕ) → get_elem? sums i ≡ get_elem? head.sums (idx + i))
    → All (HasBlock head) (targets_from idx sums)
unfolding targets_from
targets_from-HasBlock head idx [] h = tt
targets_from-HasBlock head idx (sum ∷ sums) h =
    let here : idx + 0 ≡ idx = omega arith in
    (
      (sum, sym (h 0 ∙ ap (get_elem? head.sums) here)),
      targets_from-HasBlock head (idx + 1) sums
          (λ i. h (suc i) ∙ ap (get_elem? head.sums) (omega arith)),
    )

-- Every target names a block, if the sort has no elements but those it is given.
pub build_targets-HasBlock :
    (sort : List Target → List Target) (head : SumHead)
    → ((P : Target → Type 0) (ts : List Target) → All P ts → All P (sort ts))
    → All (HasBlock head) (build_targets sort head.sums)
unfolding build_targets
build_targets-HasBlock sort head keeps =
    keeps (HasBlock head) (targets_from 0 head.sums)
      (targets_from-HasBlock head 0 head.sums (λ i. ap (get_elem? head.sums) (omega arith)))
