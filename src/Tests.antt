-- ===== src/Tests.antt =====
-- A runtime, requests and environments on which the components are run.
pub mod Checks
pub mod Policies
pub mod Messages
pub mod Workflow
pub mod Runs
pub mod Plans
use agentskeptic.Prelude.{
  ℕ, suc, ◌+◌, Bool, true, false, none, some, List, [], ◌∷◌, not, ltb, if◌then◌else◌,
}
use agentskeptic.Prelude.Int.{ℤ, pos, negsuc}
use agentskeptic.Js.{Text, Number, nat, Value, Row, Runtime, text, text_lt}
use agentskeptic.Types.{
  Scalar, VerificationRequest, RowAbsentVerificationRequest, IdentityEqPair,
  ResolvedRelationalCheck, related_exists, StateWitnessRequest, mongo_document, StepStatus,
  verified, missing, inconsistent, incomplete_verification, Reason, ResolvedEffect,
  StepVerificationRequest,
}
use agentskeptic.Types.Evidence.{EffectRow}
use agentskeptic.WireReasonCodes.{SqlVerificationOutcomeCode}
use agentskeptic.Reconciler.{
  Answer, returned, thrown, ReconcileOutput, because, failed, passed, reconcile_sql_row,
  reconcile_sql_row_absent,
}
use agentskeptic.VerificationPolicy.Input.{done}
use agentskeptic.VerificationPolicy.Run.{Environment, pure}
use agentskeptic.VerificationPolicy.Execute.{relational_sqlite}
use agentskeptic.VerificationDiagnostics.{StepOutcome}

-- Texts of these built-ins are never read by the tests but for the identity on lower-case names.
abbrev pub runtime : Runtime
runtime = record {
  number_text = λ n. 49 ∷ [];
  bigint_text = λ n. 49 ∷ [];
  json_text = λ s. s;
  parse_number = λ s. some (nat 1);
  to_lower = λ s. s;
  locale_le = λ a b. not (text_lt b a);
}

-- A row of the table "t" by its "id", with its "n" expected to be 3.
abbrev pub request : VerificationRequest
request = record {
  table = 116 ∷ [];
  identity_eq = record { column = 105 ∷ 100 ∷ []; value = 55 ∷ [] } ∷ [];
  required_fields = (110 ∷ [], Scalar.number (nat 3)) ∷ [];
}

-- No row of the table "t" has the "id".
abbrev pub absent_request : RowAbsentVerificationRequest
absent_request = record {
  table = 116 ∷ [];
  identity_eq = record { column = 105 ∷ 100 ∷ []; value = 55 ∷ [] } ∷ [];
  filter_eq = [];
}

abbrev pub row : Row
row = (105 ∷ 100 ∷ [], Value.string (55 ∷ [])) ∷ (110 ∷ [], Value.number (nat 3)) ∷ []

abbrev pub answers : Text → List Text → Answer
answers statement values = returned (row ∷ [])

-- The row is written at the time 2.
abbrev pub answers_at : ℕ → Text → List Text → Answer
answers_at t statement values = returned (if ltb t 2 then [] else row ∷ [])

-- The row is never written.
abbrev pub no_answers : ℕ → Text → List Text → Answer
no_answers t statement values = returned []

-- The state is the time, which only waiting moves on, by one at a time.
abbrev pub timed : (ℕ → Text → List Text → Answer) → Environment ℕ
timed query = record {
  now = λ t. (t, t);
  sleep = λ n t. suc t;
  reconcile_row = λ req t. (done (reconcile_sql_row runtime (query t) req), t);
  reconcile_row_absent = λ req t. (done (reconcile_sql_row_absent runtime (query t) req), t);
  reconcile_relational_check = λ check t. (relational_sqlite runtime (query t) check, t);
  reconcile_state_witness = λ req t. (done (passed []), t);
}

abbrev pub related : ResolvedRelationalCheck
related = related_exists (record { id = 99 ∷ []; child_table = 116 ∷ []; match_eq = [] })

abbrev pub absent : ReconcileOutput
absent = failed missing (because SqlVerificationOutcomeCode.row_absent []) []

abbrev pub effect_row : Text → StepStatus → List Reason → EffectRow
effect_row id status reasons = record { id = id; status = status; reasons = reasons; evidence = [] }

abbrev pub step : StepStatus → List Reason → StepOutcome
step status reasons = record {
  seq = nat 1;
  tool_id = [];
  release_critical = false;
  narrative = [];
  params_canonical = [];
  verification_request = StepVerificationRequest.sql_row request;
  status = status;
  reasons = reasons;
  evidence = [];
  repeat_observation_count = 1;
  evaluated_observation_ordinal = 1;
  failure_diagnostic = none;
  langgraph_checkpoint_key = none;
}

-- Every statement throws.
abbrev pub fails : Text → List Text → Answer
fails statement values = thrown (110 ∷ [])
