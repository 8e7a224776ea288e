-- ===== src/PlanTransition/Verdict.antt =====
-- What each rule of a plan asks of a diff, and when a plan holds.
use agentskeptic.Prelude.{
  ℕ, ◌≡◌, ◌≢◌, ◌↔◌, inl, inr, refl, Bool, true, false, not, List, [], ◌∷◌, map, any, keep, is_empty,
  All, Bool-cases, ◌∙◌, sym,
}
use agentskeptic.Js.{Text, Runtime}
use agentskeptic.Types.{StepStatus, verified, inconsistent}
use agentskeptic.Types.Evidence.{Paths, one, two, PlanDiffRow}
use agentskeptic.VerificationDiagnostics.{StepOutcome}
use agentskeptic.PlanTransition.{
  PlanRuleKind, matching_rows_must_have_row_kinds, forbid_matching_rows, require_matching_row,
  all_changed_paths_must_match_allowlist, require_rename_from_to, PlanRule, has_kind,
  all_paths_in_row, path_matches_pattern, row_touches_pattern, row_matches_pattern_and_kinds,
  path_matches_any_allowlist, violating, forbidden, allowlist_failures, rename_kinds, both_match,
  is_rename, evaluate_kind,
}
use agentskeptic.PlanTransition.Quantifiers.{
  Some, any_iff, not_any_iff, keep-empty_iff, All-iff, Some-iff, both_iff, empty-append_iff,
  empty-map_iff, not_iff, implies_iff, and_iff,
}

module _ (is_match : Text → Text → Bool) where
  -- Two paths, the first of which matches one pattern and the second the other.
  abbrev pub RenamesFrom : Text → Text → Paths → Type 0
  RenamesFrom from to (one p) = ⊥
  RenamesFrom from to (two p q) =
      (path_matches_pattern is_match p from ≡ true) × (path_matches_pattern is_match q to ≡ true)

  -- What a rule asks of the rows of a diff.
  abbrev pub Holds : List PlanDiffRow → PlanRuleKind → Type 0
  Holds rows (matching_rows_must_have_row_kinds pattern kinds) =
      All
        (λ (row : PlanDiffRow).
          row_touches_pattern is_match row pattern ≡ true → has_kind kinds row.row_kind ≡ true)
        rows
  Holds rows (forbid_matching_rows pattern) =
      All
        (λ (row : PlanDiffRow).
          All (λ p. path_matches_pattern is_match p pattern ≡ false) (all_paths_in_row row))
        rows
  Holds rows (require_matching_row pattern kinds) =
      Some
        (λ (row : PlanDiffRow).
          (row_touches_pattern is_match row pattern ≡ true) × (has_kind kinds row.row_kind ≡ true))
        rows
  Holds rows (all_changed_paths_must_match_allowlist patterns) =
      All
        (λ (row : PlanDiffRow).
          All (λ p. Some (λ pat. path_matches_pattern is_match p pat ≡ true) patterns)
            (all_paths_in_row row))
        rows
  Holds rows (require_rename_from_to from to include_copy) =
      Some
        (λ (row : PlanDiffRow).
          (has_kind (rename_kinds include_copy) row.row_kind ≡ true)
          × RenamesFrom from to row.paths)
        rows

  renames_iff :
      (from to : Text) (paths : Paths)
      → (both_match is_match from to paths ≡ true) ↔ RenamesFrom from to paths
  renames_iff from to (one p) = (λ h. cc h, λ h. absurd h)
  renames_iff from to (two p q) =
      and_iff (path_matches_pattern is_match p from) (path_matches_pattern is_match q to)

  allowlist_iff :
      (patterns : List Text) (rows : List PlanDiffRow)
      → (is_empty (allowlist_failures is_match patterns rows) ≡ true)
        ↔ Holds rows (all_changed_paths_must_match_allowlist patterns)
  unfolding allowlist_failures
  allowlist_iff patterns [] = (λ h. tt, λ h. refl)
  allowlist_iff patterns (row ∷ rows) =
      let rest = allowlist_iff patterns rows in
      let outside = λ (p : Text). not (path_matches_any_allowlist is_match p patterns) in
      let own : (is_empty (keep outside (all_paths_in_row row)) ≡ true)
          ↔ All (λ p. Some (λ pat. path_matches_pattern is_match p pat ≡ true) patterns)
              (all_paths_in_row row) =
        both_iff (keep-empty_iff outside (all_paths_in_row row)) (
          All-iff (all_paths_in_row row) (λ p.
            both_iff (not_iff (path_matches_any_allowlist is_match p patterns))
              (any_iff _ patterns))) in
      let mapped =
        empty-map_iff (λ (p : Text). (p, row.row_kind)) (keep outside (all_paths_in_row row)) in
      let parts =
        empty-append_iff
          (map (λ (p : Text). (p, row.row_kind)) (keep outside (all_paths_in_row row)))
          (allowlist_failures is_match patterns rows) in
      (
        λ h. let (x, y) = parts.0 h in (own.0 (mapped.0 x), rest.0 y),
        λ (x, y). parts.1 (mapped.1 (own.1 x), rest.1 y),
      )

-- The status that a test decides.
decided :
    {T : Type 0} (b : Bool) (s : StepStatus)
    → (b ≡ true → s ≡ verified)
    → (b ≡ false → s ≡ inconsistent)
    → (b ≡ true) ↔ T
    → ((s ≡ verified) ↔ T) × ((s ≢ verified) → s ≡ inconsistent)
decided b s good bad t = elim (Bool-cases b) [
  | inl e ↦ ((λ h. t.0 e, λ h. good e), λ n. absurd (n (good e)))
  | inr e ↦ ((λ h. cc (sym h ∙ bad e), λ h. good (t.1 h)), λ n. bad e)
]

module _ (js : Runtime) (is_match : Text → Text → Bool) where
  -- A rule is verified exactly when it holds, and is inconsistent otherwise.
  abbrev pub Decides : List PlanDiffRow → PlanRuleKind → StepOutcome → Type 0
  Decides rows kind s =
      ((s.status ≡ verified) ↔ Holds is_match rows kind)
      × ((s.status ≢ verified) → s.status ≡ inconsistent)

  pub kind-Decides :
      (rows : List PlanDiffRow) (rule : PlanRule) (seq : ℕ) (kind : PlanRuleKind)
      → Decides rows kind (evaluate_kind js is_match rows rule seq kind)
  kind-Decides rows rule seq (matching_rows_must_have_row_kinds pattern kinds) =
      decided (is_empty (violating is_match pattern kinds rows)) _ (λ e. rw e refl) (λ e. rw e refl)
        (both_iff (keep-empty_iff _ rows) (
          All-iff rows (λ row.
            implies_iff (row_touches_pattern is_match row pattern) (has_kind kinds row.row_kind))))
  kind-Decides rows rule seq (forbid_matching_rows pattern) =
      decided (is_empty (forbidden is_match pattern rows)) _ (λ e. rw e refl) (λ e. rw e refl)
        (both_iff (keep-empty_iff _ rows)
          (All-iff rows (λ row. not_any_iff _ (all_paths_in_row row))))
  kind-Decides rows rule seq (require_matching_row pattern kinds) =
      decided (any (λ row. row_matches_pattern_and_kinds is_match row pattern kinds) rows) _
        (λ e. rw e refl) (λ e. rw e refl)
        (both_iff (any_iff _ rows) (
          Some-iff rows (λ row.
            and_iff (row_touches_pattern is_match row pattern) (has_kind kinds row.row_kind))))
  kind-Decides rows rule seq (all_changed_paths_must_match_allowlist patterns) =
      decided (is_empty (allowlist_failures is_match patterns rows)) _ (λ e. rw e refl)
        (λ e. rw e refl) (allowlist_iff is_match patterns rows)
  kind-Decides rows rule seq (require_rename_from_to from to include_copy) =
      decided (any (is_rename is_match from to include_copy) rows) _ (λ e. rw e refl)
        (λ e. rw e refl)
        (both_iff (any_iff _ rows) (
          Some-iff rows (λ row.
            let both =
              and_iff (has_kind (rename_kinds include_copy) row.row_kind)
                (both_match is_match from to row.paths) in
            let names = renames_iff is_match from to row.paths in
            (λ h. let (x, y) = both.0 h in (x, names.0 y), λ (x, y). both.1 (x, names.1 y)))))
