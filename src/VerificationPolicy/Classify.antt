-- ===== src/VerificationPolicy/Classify.antt =====
-- verificationPolicy.ts: whether the checks of a step are settled, or all still missing.
use agentskeptic.Prelude.{
  Bool, false, not, Option, none, some, List, map, length, keep, all, is_empty, ◌==◌, if◌then◌else◌,
}
use agentskeptic.Prelude.Sort.{sort}
use agentskeptic.Js.{Runtime}
use agentskeptic.Types.{ResolvedEffect}
use agentskeptic.Types.Evidence.{EffectRow}
use agentskeptic.Reconciler.{ReconcileOutput}
use agentskeptic.Reconciler.Outcome.{is_missing}
use agentskeptic.MultiEffectRollup.{
  PolicyExecutionOutput, is_incomplete, is_verified_row, EffectInput, effect_input, effect_rows,
  input_le, CheckInput, check_row, check_le, rollup_multi_effects_from_reconciled_rows,
  rollup_sql_relational_from_reconciled,
}

-- `reconcileRowsToEffectInput`: each effect with its reconciliation.
abbrev pub to_effect_inputs : List (ResolvedEffect × ReconcileOutput) → List EffectInput
to_effect_inputs = map (λ (p : ResolvedEffect × ReconcileOutput). effect_input p.0 p.1)

-- The checks are all missing, so a later attempt may settle them.
unfoldable pub is_pending : List EffectRow → Bool
is_pending rows =
    if not (is_empty (keep is_incomplete rows))
    then false
    else if length (keep is_verified_row rows) == length rows
    then false
    else all (λ (r : EffectRow). is_missing r.status) rows

-- `none` is `pending_all_missing`.
unfoldable pub classify_multi_effect_after_reconcile :
    Runtime → List (ResolvedEffect × ReconcileOutput) → Option PolicyExecutionOutput
unfolding is_pending
classify_multi_effect_after_reconcile js pairs =
    let rows = sort input_le (to_effect_inputs pairs) in
    if is_pending (effect_rows rows)
    then none
    else some (rollup_multi_effects_from_reconciled_rows js rows)

unfoldable pub classify_multi_relational_after_reconcile :
    Runtime → List CheckInput → Option PolicyExecutionOutput
unfolding is_pending
classify_multi_relational_after_reconcile js pairs =
    if is_pending (map check_row (sort check_le pairs))
    then none
    else some (rollup_sql_relational_from_reconciled js pairs)
