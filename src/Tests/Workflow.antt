-- ===== src/Tests/Workflow.antt =====
-- Preparing and planning the events of a workflow.
use agentskeptic.Prelude.{ℕ, ◌≡◌, ◌↔◌, none, List, [], ◌∷◌, map, All}
use agentskeptic.Prelude.Sort.{IsSorted}
use agentskeptic.Js.{Text, Number, nat}
use agentskeptic.Types.{normal}
use agentskeptic.Events.{v1, seq_le, prepare_workflow_events, stable_sort_events_by_seq}
use agentskeptic.Events.Integrity.{IsPrepared, TimesInOrder, prepare-IsPrepared}
use agentskeptic.Js.Json.{Json, Fields}
use agentskeptic.Events.Plan.{Event, LogicalStepPlan, plan_logical_steps}
use agentskeptic.Events.Steps.{Ordered, observations_of, IsStep, plan-IsStep}
use agentskeptic.Tests.{runtime}

abbrev observed : ℕ → Text → Event
observed seq tool = record {
  workflow_id = [];
  seq = seq;
  tool_id = tool;
  params = Json.object Fields.no_fields;
  timestamp = none;
  version = v1;
}

-- The first step is observed twice, by two tools, and the second is captured before it.
abbrev captured : List Event
captured = observed 2 (97 ∷ []) ∷ observed 1 (97 ∷ []) ∷ observed 1 (98 ∷ []) ∷ []

abbrev epoch : Text → Number
epoch s = nat 0

prepare-IsPrepared_example :
    let (sorted, integrity) = prepare_workflow_events runtime epoch captured in
    IsPrepared captured sorted
    × ((integrity ≡ normal) ↔ (IsSorted seq_le captured × TimesInOrder runtime epoch sorted))
    × (integrity ≡ normal → sorted ≡ captured)
prepare-IsPrepared_example = prepare-IsPrepared runtime epoch captured

plan-IsStep_example :
    let steps = plan_logical_steps runtime captured in
    Ordered (map (λ (s : LogicalStepPlan). s.seq) steps)
    × (observations_of steps ≡ stable_sort_events_by_seq captured)
    × All (IsStep runtime) steps
plan-IsStep_example = plan-IsStep runtime captured
