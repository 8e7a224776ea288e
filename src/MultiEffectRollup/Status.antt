-- ===== src/MultiEffectRollup/Status.antt =====
-- The status of several checks as a function of which statuses occur, whatever their order.
use agentskeptic.Prelude.{
  ◌≡◌, refl, Bool, true, not, List, [], ◌∷◌, keep, any, all, is_empty, arith, if◌then◌else◌,
  keep-eq-nil_iff, keep-length_iff,
}
use agentskeptic.Js.{Runtime}
use agentskeptic.Types.{
  StepStatus, verified, inconsistent, incomplete_verification, partially_verified,
}
use agentskeptic.Types.Evidence.{EffectRow}
use agentskeptic.Reconciler.Outcome.{is_explained}
use agentskeptic.MultiEffectRollup.{
  is_incomplete, is_verified_row, compute_multi_check_rollup_status,
}

-- The status by which statuses occur among the rows.
abbrev pub status_of : List EffectRow → StepStatus
status_of rows =
    if any is_incomplete rows
    then incomplete_verification
    else if all is_verified_row rows
    then verified
    else if any is_verified_row rows
    then partially_verified
    else inconsistent

is_empty-keep :
    (p : EffectRow → Bool) (rows : List EffectRow) → not (is_empty (keep p rows)) ≡ any p rows
is_empty-keep p [] = refl
is_empty-keep p (r ∷ rows) = ground (arith, is_empty-keep p rows)

-- The status of a rollup is incomplete verification if some check is incomplete; else verified if all
-- checks are verified, which with no check at all they are; else partially verified if some check is
-- verified, and inconsistent if none is. Reasons are given exactly when it is not verified.
pub rollup_status :
    (js : Runtime) (rows : List EffectRow)
    → let (s, reasons) = compute_multi_check_rollup_status js rows in
      (s ≡ status_of rows) × (is_explained s reasons ≡ true)
unfolding compute_multi_check_rollup_status
rollup_status js rows = ground (
  arith,
  is_empty-keep is_incomplete rows,
  keep-eq-nil_iff is_verified_row rows,
  keep-length_iff is_verified_row rows,
)
