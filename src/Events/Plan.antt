-- ===== src/Events/Plan.antt =====
-- planLogicalSteps.ts: the observations of one `seq` are one logical step.
use agentskeptic.Prelude.{
  ℕ, Bool, not, ◌&&◌, Option, none, some, List, [], ◌∷◌, ◌++◌, map, any, length, leb, ◌==◌,
  if◌then◌else◌,
}
use agentskeptic.Prelude.Sort.{sort}
use agentskeptic.Js.{Runtime, text_eq}
use agentskeptic.Events.{ToolObservedEvent, stable_sort_events_by_seq}
use agentskeptic.Js.Json.{Json}
use agentskeptic.Events.Params.{canonical_json_for_params}

abbrev pub Event : Type 0
Event = ToolObservedEvent Json

unfoldable pub observations_match_for_divergence : Runtime → Event → Event → Bool
observations_match_for_divergence js a b =
    text_eq a.tool_id b.tool_id
    && text_eq (canonical_json_for_params js a.params) (canonical_json_for_params js b.params)

pub record LogicalStepPlan : Type 0 where
  pub seq : ℕ
  pub observations : List Event
  pub last : Event
  pub repeat_observation_count : ℕ
  pub divergent : Bool

-- A non-empty array: what comes before its last element, and the last.
abbrev pub NonEmpty : Type 0
NonEmpty = List Event × Event

abbrev pub events_of : NonEmpty → List Event
events_of (before, last) = before ++ last ∷ []

-- `Map<number, ToolObservedEvent[]>`, in the order in which its keys were first set.
abbrev pub BySeq : Type 0
BySeq = List (ℕ × NonEmpty)

-- One round of the grouping loop: pushed to the list of its `seq`, or set as a new one.
unfoldable pub push : Event → BySeq → BySeq
push ev [] = (ev.seq, ([], ev)) ∷ []
push ev ((k, obs) ∷ m) =
    let rest = push ev m in if k == ev.seq then (k, (events_of obs, ev)) ∷ m else (k, obs) ∷ rest

unfoldable pub group : BySeq → List Event → BySeq
unfolding push
group m [] = m
group m (ev ∷ evs) = group (push ev m) evs

-- `bySeq.get(seq)`.
unfoldable pub get_group : ℕ → BySeq → Option NonEmpty
get_group k [] = none
get_group k ((j, obs) ∷ m) = if j == k then some obs else get_group k m

abbrev pub step_of : Runtime → ℕ → NonEmpty → LogicalStepPlan
step_of js seq (before, last) = record {
  seq = seq;
  observations = events_of (before, last);
  last = last;
  repeat_observation_count = length (events_of (before, last));
  divergent = any (λ o. not (observations_match_for_divergence js o last)) before;
}

abbrev pub step_if : Runtime → ℕ → Option NonEmpty → List LogicalStepPlan → List LogicalStepPlan
step_if js seq none rest = rest
step_if js seq (some obs) rest = step_of js seq obs ∷ rest

unfoldable pub steps_of : Runtime → BySeq → List ℕ → List LogicalStepPlan
unfolding get_group
steps_of js m [] = []
steps_of js m (seq ∷ seqs) = step_if js seq (get_group seq m) (steps_of js m seqs)

abbrev pub keys_of : BySeq → List ℕ
keys_of = map (λ p. p.0)

unfoldable pub plan_logical_steps : Runtime → List Event → List LogicalStepPlan
unfolding group steps_of stable_sort_events_by_seq
plan_logical_steps js events =
    let by_seq = group [] (stable_sort_events_by_seq events) in
    steps_of js by_seq (sort leb (keys_of by_seq))
