-- ===== src/VerificationPolicy/CheckWaiting.antt =====
-- verificationPolicy.ts: how a check that waits ends, described for each kind, and the lemmas for it.
use agentskeptic.Prelude.{
  ℕ, ◌≡◌, ◌⊎◌, inl, inr, refl, Bool, true, false, none, some, List, [], ◌∷◌, map, any, all, arith,
  ap, if◌then◌else◌, Bool-cases, Option, ◌∙◌,
}
use agentskeptic.Prelude.Sort.{sort}
use agentskeptic.Js.{Runtime, Number, finite, number_le}
use agentskeptic.Types.{
  ResolvedEffect, ResolvedRelationalCheck, StepVerificationRequest, VerificationPolicy,
  verification_window_ms, StepStatus, uncertain, inconsistent,
}
use agentskeptic.Types.Evidence.{EffectRow}
use agentskeptic.Reconciler.{ReconcileOutput}
use agentskeptic.Reconciler.Outcome.{is_missing}
use agentskeptic.MultiEffectRollup.{
  PolicyExecutionOutput, rolled_up, rollup_multi_effects_from_reconciled_rows,
  rollup_sql_relational_from_reconciled, check_le, input_le, is_incomplete, is_verified_row,
  effect_rows, effects_request, check_row, CheckInput,
}
use agentskeptic.MultiEffectRollup.Status.{status_of, rollup_status}
use agentskeptic.VerificationPolicy.Input.{done}
use agentskeptic.Prelude.Int.{sub_ℕ}
use agentskeptic.VerificationPolicy.Run.{Run, Environment, all_settled}
use agentskeptic.VerificationPolicy.Classify.{
  is_pending, to_effect_inputs, classify_multi_effect_after_reconcile,
  classify_multi_relational_after_reconcile,
}
use agentskeptic.VerificationPolicy.Uncertain.{Expiry}
use agentskeptic.VerificationPolicy.Eventual.{unless_missing, poll_from_start}
use agentskeptic.VerificationPolicy.Execute.{
  Resolved, sql_row, sql_row_absent, sql_effects, sql_relational, state_witness,
}
use agentskeptic.VerificationPolicy.Polling.{poll-Ends, Ends}

abbrev pub NotMissing : PolicyExecutionOutput → Type 0
NotMissing out = is_missing out.status ≡ false

status_of-not_missing : (rows : List EffectRow) → is_missing (status_of rows) ≡ false
status_of-not_missing rows =
    choose (any is_incomplete rows) (all is_verified_row rows) (any is_verified_row rows)
  where
    choose :
        (a b c : Bool)
        → is_missing (
            if a
            then StepStatus.incomplete_verification
            else if b
            then StepStatus.verified
            else if c
            then StepStatus.partially_verified
            else inconsistent)
          ≡ false
    choose true b c = refl
    choose false true c = refl
    choose false false true = refl
    choose false false false = refl

rolled_up-NotMissing :
    (js : Runtime) (q : StepVerificationRequest) (rows : List EffectRow)
    → NotMissing (rolled_up js q rows)
rolled_up-NotMissing js q rows = rw ((rollup_status js rows).0) (status_of-not_missing rows)

pub unless_missing-settles :
    (q : StepVerificationRequest) (rec : ReconcileOutput) (out : PolicyExecutionOutput)
    → unless_missing q rec ≡ some out
    → NotMissing out
unless_missing-settles q rec out h = ground arith

pub effects-settles :
    (js : Runtime) (ps : List _) (out : PolicyExecutionOutput)
    → classify_multi_effect_after_reconcile js ps ≡ some out
    → NotMissing out
unfolding classify_multi_effect_after_reconcile rollup_multi_effects_from_reconciled_rows
effects-settles js ps out h =
    let rows = sort input_le (sort input_le (to_effect_inputs ps)) in
    elim (Bool-cases (is_pending (effect_rows (sort input_le (to_effect_inputs ps))))) [
      | inl e ↦ ground arith
      | inr e ↦ ground (arith, rolled_up-NotMissing js (effects_request rows) (effect_rows rows))
    ]

pub relational-settles :
    (js : Runtime) (ps : List CheckInput) (out : PolicyExecutionOutput)
    → classify_multi_relational_after_reconcile js ps ≡ some out
    → NotMissing out
unfolding classify_multi_relational_after_reconcile rollup_sql_relational_from_reconciled
relational-settles js ps out h =
    let rows = sort check_le ps in
    elim (Bool-cases (is_pending (map check_row rows))) [
      | inl e ↦ ground arith
      | inr e ↦ ground (
        arith,
        rolled_up-NotMissing js
            (StepVerificationRequest.sql_relational (map (λ (p : CheckInput). p.0) rows))
            (map check_row rows),
      )
    ]

-- The kinds of check whose loop waits for something that is missing.
abbrev pub AwaitsPresence : Resolved → Type 0
AwaitsPresence (sql_row_absent r) = ⊥
AwaitsPresence _ = Unit

module _ {E : Type 0} (env : Environment E) (p : VerificationPolicy) (start : ℕ)
    (out : PolicyExecutionOutput) where
  -- An attempt in some state was settled, with this output.
  abbrev pub Seen : {R : Type 0} → Run E R → (R → Option PolicyExecutionOutput) → Type 0
  Seen {R = R} attempt settles =
      (r : R) × (e : E) × ((attempt e).0 ≡ done r) × (settles r ≡ some out)

  -- After an attempt that was not settled the clock showed at least the window after the start, and the step is uncertain.
  abbrev pub TimedOut : {R : Type 0} → Run E R → (R → Option PolicyExecutionOutput) → Type 0
  TimedOut {R = R} attempt settles =
      (r : R) × (e : E) × ((attempt e).0 ≡ done r)
      × (settles r ≡ none)
      × (number_le (verification_window_ms p) (finite (sub_ℕ (env.now (attempt e).1).0 start) 0)
          ≡ true)
      × (out.status ≡ uncertain)

  abbrev pub Waits : {R : Type 0} → Run E R → (R → Option PolicyExecutionOutput) → Type 0
  Waits attempt settles = NotMissing out × (Seen attempt settles ⊎ TimedOut attempt settles)

module _ {E : Type 0} (js : Runtime) (env : Environment E) (p : VerificationPolicy) (start : ℕ)
    (out : PolicyExecutionOutput) where
  -- How each kind of check that waits ends: what it tries, and what settles it.
  abbrev pub RelationalWaits : List ResolvedRelationalCheck → Type 0
  RelationalWaits (c ∷ []) =
      Waits env p start out (env.reconcile_relational_check c)
        (unless_missing (StepVerificationRequest.sql_relational (c ∷ [])))
  RelationalWaits cs =
      Waits env p start out (all_settled env.reconcile_relational_check cs)
        (classify_multi_relational_after_reconcile js)

  abbrev pub CheckWaits : Resolved → Type 0
  CheckWaits (sql_row q) =
      Waits env p start out (env.reconcile_row q)
        (unless_missing (StepVerificationRequest.sql_row q))
  CheckWaits (state_witness q) =
      Waits env p start out (env.reconcile_state_witness q)
        (unless_missing (StepVerificationRequest.state_witness q))
  CheckWaits (sql_effects es) =
      Waits env p start out (all_settled (λ (x : ResolvedEffect). env.reconcile_row x.request) es)
        (classify_multi_effect_after_reconcile js)
  CheckWaits (sql_relational cs) = RelationalWaits cs
  CheckWaits (sql_row_absent q) = ⊥

uncertain-NotMissing : (out : PolicyExecutionOutput) → out.status ≡ uncertain → NotMissing out
uncertain-NotMissing out e = ap is_missing e

-- The loop, whatever it tries, if what settles it is not missing and it expires as uncertain.
pub poll-Waits :
    {E : Type 0} (env : Environment E) (p : VerificationPolicy) {R : Type 0} (attempt : Run E R)
    (settles : R → Option PolicyExecutionOutput) (expired : R → Expiry)
    → ((r : R) (out : PolicyExecutionOutput) → settles r ≡ some out → NotMissing out)
    → ((r : R) (n : ℕ) (t : Number) → (expired r n t p).status ≡ uncertain)
    → (fuel : ℕ) (e : E) {out : PolicyExecutionOutput}
    → (poll_from_start env p attempt settles expired fuel e).0 ≡ done out
    → Waits env p (env.now e).0 out attempt settles
unfolding poll_from_start
poll-Waits env p attempt settles expired good late fuel e {out} h =
    finish (poll-Ends env p attempt settles expired fuel (env.now e).0 0 (env.now e).1 out h)
  where
    finish :
        Ends env p attempt settles expired (env.now e).0 0 (env.now e).1 out
        → Waits env p (env.now e).0 out attempt settles
    finish (inl s) = (good s.result out s.settled, inl (s.result, _, s.tried, s.settled))
    finish (inr x) =
        let end : out.status ≡ uncertain =
          ap (λ (o : PolicyExecutionOutput). o.status) x.output ∙ late x.result _ _ in
        (uncertain-NotMissing out end, inr (x.result, _, x.tried, x.unsettled, x.late, end))
