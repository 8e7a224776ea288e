-- ===== src/Tests/Runs.antt =====
-- Whole runs over the events of a workflow, with a registry of one tool.
use agentskeptic.Prelude.{
  ℕ, suc, ◌≡◌, ◌≢◌, ◌↔◌, ◌⊎◌, inl, inr, refl, none, some, List, [], ◌∷◌, All, ap, ◌∙◌, sym,
}
use mathlib.Core.Option.{some-injective}
use agentskeptic.Prelude.Sort.{sort}
use agentskeptic.JsonPointer.{get_pointer, walk}
use agentskeptic.JsonPointer.RoundTrip.{pointer_of, get_pointer-of}
use agentskeptic.Js.{Text, Number, text, nat, text_eq}
use agentskeptic.Js.Json.{Json, Fields, field_at}
use agentskeptic.Types.{Scalar, ResolvedEffect, strong, normal, WorkflowStatus}
use agentskeptic.Types.Registry.{
  RegistryStringSpec, RegistryScalarSpec, SqlRowVerificationSpec, EffectSpec,
  ToolRegistryVerification, ToolRegistryEntry,
}
use agentskeptic.Types.RunEvents.{RunEvent, ControlKind}
use agentskeptic.Events.{v3}
use agentskeptic.Events.Plan.{Event, plan_logical_steps}
use agentskeptic.VerificationPolicy.Input.{done}
use agentskeptic.VerificationPolicy.Run.{Environment}
use agentskeptic.VerificationPolicy.Execute.{sql_row, create_sqlite_policy_context}
use agentskeptic.ResolveExpectation.Outcome.{ok}
use agentskeptic.ResolveExpectation.Specs.{
  is_ident, resolve_column, resolve_table_ident, resolve_key_value,
}
use agentskeptic.ResolveExpectation.Rows.{resolve_sql_row_spec, normalize_sorted_identity_eq}
use agentskeptic.ResolveExpectation.Request.{
  sqlite, Registry, find_tool, resolve_verification_request, build_registry_map,
}
use agentskeptic.ResolveExpectation.Tools.{HasDistinctTools, build_registry_map-finds}
use agentskeptic.VerificationRunContext.{build_verification_run_context}
use agentskeptic.VerificationRunContext.Description.{IsDigest}
use agentskeptic.VerificationRunContext.Digest.{build-IsDigest}
use agentskeptic.Pipeline.{
  run_logical_steps_verification_sync, run_logical_steps_verification_async,
}
use agentskeptic.Pipeline.Executable.{Returns}
use agentskeptic.Pipeline.Runs.{Outcomes, IsVerifiedPlan, run-Outcomes}
use agentskeptic.Pipeline.Total.{IsResolvable, run-Returns}
use agentskeptic.Pipeline.Agreement.{run_async-sync}
use agentskeptic.Pipeline.RunState.{
  VerifyRunStateFromEventsInput, RunState, verify_run_state_from_events,
}
use agentskeptic.Pipeline.Verdict.{verify_run_state-decides}
use agentskeptic.Tests.{runtime, request, answers}

-- The row of the table "t" with the "id" "7", whose fields stand under "f" in the parameters.
abbrev row_spec : SqlRowVerificationSpec
row_spec = record {
  table = RegistryStringSpec.const (116 ∷ []);
  identity_eq =
      record {
        column = RegistryStringSpec.const (105 ∷ 100 ∷ []);
        value = RegistryScalarSpec.const (Scalar.string (55 ∷ []));
      }
      ∷ [];
  required_fields = 47 ∷ 102 ∷ [];
}

abbrev entry : ToolRegistryEntry
entry = record {
  tool_id = 97 ∷ [];
  effect_description_template = [];
  release_critical = none;
  verification = ToolRegistryVerification.sql_row row_spec;
}

abbrev registry : Registry
registry = (97 ∷ [], entry) ∷ []

abbrev params : Json
params = Json.object (
    Fields.field (102 ∷ [])
      (Json.object (Fields.field (110 ∷ []) (Json.number (nat 3)) Fields.no_fields))
      Fields.no_fields)

-- The tools are "a", of the registry, and "b", which it does not have.
abbrev called : ℕ → Text → Event
called seq tool = record {
  workflow_id = [];
  seq = seq;
  tool_id = tool;
  params = params;
  timestamp = none;
  version = v3 (record { thread_id = []; checkpoint_ns = []; checkpoint_id = [] });
}

abbrev events : List Event
events = called 1 (97 ∷ []) ∷ called 2 (98 ∷ []) ∷ []

abbrev stringify : Json → Text
stringify v = []

resolves : resolve_verification_request runtime params entry (some sqlite) ≡ ok (sql_row request)
unfolding resolve_verification_request resolve_sql_row_spec resolve_table_ident is_ident
    resolve_column resolve_key_value normalize_sorted_identity_eq sort get_pointer field_at text_eq
    text
resolves = refl

find_a : find_tool (97 ∷ []) registry ≡ some entry
unfolding find_tool text_eq
find_a = refl

find_b : find_tool (98 ∷ []) registry ≡ none
unfolding find_tool text_eq
find_b = refl

called-IsResolvable : IsResolvable runtime stringify registry (some sqlite) (called 1 (97 ∷ []))
called-IsResolvable e message known h =
    let same : entry ≡ e = some-injective _ _ (sym find_a ∙ known) in
    cc (
      sym resolves ∙ ap (λ x. resolve_verification_request runtime params x (some sqlite)) same ∙ h)

unknown-IsResolvable : IsResolvable runtime stringify registry (some sqlite) (called 2 (98 ∷ []))
unknown-IsResolvable e message known h = cc (sym find_b ∙ known)

run-Returns_example : Returns (
    run_logical_steps_verification_sync runtime stringify registry
      (some sqlite)
      (strong (nat 0) (nat 0))
      answers
      events)
run-Returns_example =
    run-Returns runtime stringify registry (some sqlite) (nat 0) (nat 0) answers events
      (called-IsResolvable, (unknown-IsResolvable, tt))

abbrev returned : Returns (
    run_logical_steps_verification_sync runtime stringify registry
      (some sqlite)
      (strong (nat 0) (nat 0))
      answers
      events)
returned =
    run-Returns runtime stringify registry (some sqlite) (nat 0) (nat 0) answers events
      (called-IsResolvable, (unknown-IsResolvable, tt))

run-Outcomes_example :
    Outcomes runtime stringify registry
      (some sqlite)
      (strong (nat 0) (nat 0))
      answers
      (plan_logical_steps runtime events)
      returned.0
run-Outcomes_example =
    run-Outcomes runtime stringify registry (some sqlite) (strong (nat 0) (nat 0)) answers events
      returned.1

-- The clock is the state, and waiting moves it on by one.
abbrev clock : ℕ → ℕ × ℕ
clock t = (t, t)

abbrev wait : Number → ℕ → ℕ
wait n t = suc t

run_async-sync_example :
    run_logical_steps_verification_async runtime stringify registry
      (some sqlite)
      (strong (nat 0) (nat 0))
      (create_sqlite_policy_context runtime answers clock wait)
      0
      events
      5
    ≡ (
      run_logical_steps_verification_sync runtime stringify registry
          (some sqlite)
          (strong (nat 0) (nat 0))
          answers
          events,
      5,
    )
run_async-sync_example =
    run_async-sync runtime stringify registry (some sqlite) (nat 0) (nat 0) answers clock wait 0
      events 5 (tt, tt)

abbrev run_events : List (RunEvent Json)
run_events =
    RunEvent.tool_observed (called 1 (97 ∷ []))
    ∷ RunEvent.control (record {
      run_event_id = [];
      control_kind = ControlKind.run_completed;
      label = none;
      decision = none;
    })
    ∷ []

build-IsDigest_example : IsDigest run_events (build_verification_run_context run_events)
build-IsDigest_example = build-IsDigest run_events

abbrev input : VerifyRunStateFromEventsInput
input = record {
  workflow_id = [];
  events = events;
  run_events = run_events;
  run_level_reasons = [];
  event_sequence_integrity = normal;
  event_file_aggregate_counts = record {
    event_file_non_empty_lines = 2;
    schema_valid_events = 2;
    tool_observed_for_requested_workflow_id = 2;
    tool_observed_for_other_workflow_ids = 0;
  };
  registry = registry;
  database = sqlite;
  verification_policy = strong (nat 0) (nat 0);
}

abbrev no_target : ℕ → (Text ⊎ Environment ℕ) × ℕ
no_target t = (inl [], t)

verify_run_state-decides_example :
    (r : RunState) × (verify_run_state_from_events runtime stringify clock wait
        (inr answers)
        no_target
        0
        input
        5
      ≡ (done r, 5))
    × IsDigest run_events r.verification_run_context
    × ((r.base.status ≡ WorkflowStatus.complete) ↔ (
        (input.run_level_reasons ≡ [])
        × (events ≢ [])
        × All
            (IsVerifiedPlan runtime stringify registry
              (some sqlite)
              (strong (nat 0) (nat 0))
              answers)
            (plan_logical_steps runtime events)))
verify_run_state-decides_example =
    verify_run_state-decides runtime stringify clock wait answers no_target 0 input (nat 0) (nat 0)
      5 refl refl (called-IsResolvable, (unknown-IsResolvable, tt))

get_pointer-of_example :
    get_pointer runtime params (pointer_of ((102 ∷ []) ∷ (110 ∷ []) ∷ []))
    ≡ ok (walk params ((102 ∷ []) ∷ (110 ∷ []) ∷ []))
get_pointer-of_example = get_pointer-of runtime params ((102 ∷ []) ∷ (110 ∷ []) ∷ [])

-- Two effects, listed in the order that is not theirs.
abbrev effects : List EffectSpec
effects = record { id = 98 ∷ []; spec = row_spec } ∷ record { id = 97 ∷ []; spec = row_spec } ∷ []

abbrev resolved_effects : List ResolvedEffect
resolved_effects =
    record { id = 97 ∷ []; request = request } ∷ record { id = 98 ∷ []; request = request } ∷ []

build_registry_map-finds_example :
    (HasDistinctTools (entry ∷ []) → (m : Registry) × (build_registry_map (entry ∷ []) ≡ ok m))
    × ((m : Registry)
        → build_registry_map (entry ∷ []) ≡ ok m
        → All (λ (e : ToolRegistryEntry). find_tool e.tool_id m ≡ some e) (entry ∷ []))
build_registry_map-finds_example = build_registry_map-finds (entry ∷ [])
