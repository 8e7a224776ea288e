-- ===== src/VerificationRunContext/Digest.antt =====
-- What the digest of a run holds.
use agentskeptic.Prelude.{
  ℕ, suc, ◌≤◌, ◌≡◌, refl, Bool, true, false, ◌||◌, Option, none, some, List, [], ◌∷◌, ◌++◌, any,
  ltb, ◌==◌, if◌then◌else◌, ap, ◌∙◌, sym, arith,
}
use mathlib.Core.List.{append-nil, append_assoc}
use agentskeptic.Events.{EventVersion, v1, v2, v3}
use agentskeptic.Types.RunEvents.{RunEvent, VerificationRunContext}
use agentskeptic.VerificationRunContext.{
  set_index, get_index, is_run_completed, wire_after, min_index, add_event, add_events,
  build_verification_run_context, create_empty_verification_run_context,
}
use agentskeptic.VerificationRunContext.Last.{last_event-LastOf}
use agentskeptic.VerificationRunContext.Description.{
  or_else, listed, collect, first_index, last_index, is_tool_observed, has_seq, completes_run,
  newer_version, version_number, last_newer_version, retrieval_of, control_of, model_turn_of,
  tool_skipped_of, IsDigest,
}

get-set_index :
    (s seq index : ℕ) (m : List (ℕ × ℕ))
    → get_index s (set_index seq index m) ≡ (if seq == s then some index else get_index s m)
unfolding get_index set_index
get-set_index s seq index [] = ground arith
get-set_index s seq index ((k, i) ∷ m) = ground (arith, get-set_index s seq index m)

or_comm : (a b d : Bool) → ((if a then true else b) || d) ≡ (b || (a || d))
or_comm true true d = refl
or_comm true false d = refl
or_comm false b d = refl

or_else-none : {A : Type 0} (a : Option A) → or_else a none ≡ a
or_else-none (some x) = refl
or_else-none none = refl

or_else_assoc : {A : Type 0} (a b d : Option A) → or_else a (or_else b d) ≡ or_else (or_else a b) d
or_else_assoc (some x) b d = refl
or_else_assoc none b d = refl

module _ {P : Type 0} where
  module _ {A : Type 0} (get : VerificationRunContext → List A) (pick : ℕ → RunEvent P → Option A)
      (one : (index : ℕ) (ev : RunEvent P) (c : VerificationRunContext)
        → get (add_event index ev c) ≡ get c ++ listed (pick index ev)) where
    add_events-collect :
        (index : ℕ) (evs : List (RunEvent P)) (c : VerificationRunContext)
        → get (add_events index evs c) ≡ get c ++ collect pick index evs
    unfolding add_events
    add_events-collect index [] c = sym (append-nil (get c))
    add_events-collect index (ev ∷ evs) c =
        add_events-collect (suc index) evs (add_event index ev c)
        ∙ ap (λ xs. xs ++ collect pick (suc index) evs) (one index ev c)
        ∙ append_assoc (get c) (listed (pick index ev)) (collect pick (suc index) evs)

  retrieval_one :
      (index : ℕ) (ev : RunEvent P) (c : VerificationRunContext)
      → (add_event index ev c).retrieval_events
        ≡ c.retrieval_events ++ listed (retrieval_of index ev)
  unfolding add_event
  retrieval_one index (RunEvent.retrieval ev) c = refl
  retrieval_one index (RunEvent.tool_observed ev) c = sym (append-nil c.retrieval_events)
  retrieval_one index (RunEvent.control ev) c = sym (append-nil c.retrieval_events)
  retrieval_one index (RunEvent.model_turn ev) c = sym (append-nil c.retrieval_events)
  retrieval_one index (RunEvent.tool_skipped ev) c = sym (append-nil c.retrieval_events)

  control_one :
      (index : ℕ) (ev : RunEvent P) (c : VerificationRunContext)
      → (add_event index ev c).control_events ≡ c.control_events ++ listed (control_of index ev)
  unfolding add_event
  control_one index (RunEvent.control ev) c = refl
  control_one index (RunEvent.tool_observed ev) c = sym (append-nil c.control_events)
  control_one index (RunEvent.retrieval ev) c = sym (append-nil c.control_events)
  control_one index (RunEvent.model_turn ev) c = sym (append-nil c.control_events)
  control_one index (RunEvent.tool_skipped ev) c = sym (append-nil c.control_events)

  model_turn_one :
      (index : ℕ) (ev : RunEvent P) (c : VerificationRunContext)
      → (add_event index ev c).model_turn_events
        ≡ c.model_turn_events ++ listed (model_turn_of index ev)
  unfolding add_event
  model_turn_one index (RunEvent.model_turn ev) c = refl
  model_turn_one index (RunEvent.tool_observed ev) c = sym (append-nil c.model_turn_events)
  model_turn_one index (RunEvent.retrieval ev) c = sym (append-nil c.model_turn_events)
  model_turn_one index (RunEvent.control ev) c = sym (append-nil c.model_turn_events)
  model_turn_one index (RunEvent.tool_skipped ev) c = sym (append-nil c.model_turn_events)

  tool_skipped_one :
      (index : ℕ) (ev : RunEvent P) (c : VerificationRunContext)
      → (add_event index ev c).tool_skipped_events
        ≡ c.tool_skipped_events ++ listed (tool_skipped_of index ev)
  unfolding add_event
  tool_skipped_one index (RunEvent.tool_skipped ev) c = refl
  tool_skipped_one index (RunEvent.tool_observed ev) c = sym (append-nil c.tool_skipped_events)
  tool_skipped_one index (RunEvent.retrieval ev) c = sym (append-nil c.tool_skipped_events)
  tool_skipped_one index (RunEvent.control ev) c = sym (append-nil c.tool_skipped_events)
  tool_skipped_one index (RunEvent.model_turn ev) c = sym (append-nil c.tool_skipped_events)

  seq_one :
      (s index : ℕ) (ev : RunEvent P) (c : VerificationRunContext)
      → get_index s (add_event index ev c).tool_observed_ingest_index_by_seq
        ≡ or_else
            (if has_seq s ev then some index else none)
            (get_index s c.tool_observed_ingest_index_by_seq)
  unfolding add_event
  seq_one s index (RunEvent.tool_observed ev) c =
      get-set_index s ev.seq index c.tool_observed_ingest_index_by_seq ∙ choose (ev.seq == s)
    where
      choose :
          (b : Bool)
          → (if b then some index else get_index s c.tool_observed_ingest_index_by_seq)
            ≡ or_else
                (if b then some index else none)
                (get_index s c.tool_observed_ingest_index_by_seq)
      choose true = refl
      choose false = refl
  seq_one s index (RunEvent.retrieval ev) c = refl
  seq_one s index (RunEvent.control ev) c = refl
  seq_one s index (RunEvent.model_turn ev) c = refl
  seq_one s index (RunEvent.tool_skipped ev) c = refl

  add_events-seq :
      (s index : ℕ) (evs : List (RunEvent P)) (c : VerificationRunContext)
      → get_index s (add_events index evs c).tool_observed_ingest_index_by_seq
        ≡ or_else
            (last_index (has_seq s) index evs)
            (get_index s c.tool_observed_ingest_index_by_seq)
  unfolding add_events
  add_events-seq s index [] c = refl
  add_events-seq s index (ev ∷ evs) c =
      add_events-seq s (suc index) evs (add_event index ev c)
      ∙ ap (or_else (last_index (has_seq s) (suc index) evs)) (seq_one s index ev c)
      ∙ or_else_assoc (last_index (has_seq s) (suc index) evs) _ _

  first_known :
      (first index : ℕ) (evs : List (RunEvent P)) (c : VerificationRunContext)
      → first ≤ index
      → c.first_tool_observed_ingest_index ≡ some first
      → (add_events index evs c).first_tool_observed_ingest_index ≡ some first
  unfolding add_events add_event
  first_known first index [] c h k = k
  first_known first index (RunEvent.tool_observed ev ∷ evs) c h k =
      let later : ltb index first ≡ false = ground arith in
      first_known first (suc index) evs _ (omega (arith, h)) (
        ap (λ o. min_index o index) k
        ∙ ap (λ (b : Bool). if b then some index else some first) later)
  first_known first index (RunEvent.retrieval ev ∷ evs) c h k =
      first_known first (suc index) evs _ (omega (arith, h)) k
  first_known first index (RunEvent.control ev ∷ evs) c h k =
      first_known first (suc index) evs _ (omega (arith, h)) k
  first_known first index (RunEvent.model_turn ev ∷ evs) c h k =
      first_known first (suc index) evs _ (omega (arith, h)) k
  first_known first index (RunEvent.tool_skipped ev ∷ evs) c h k =
      first_known first (suc index) evs _ (omega (arith, h)) k

  add_events-first :
      (index : ℕ) (evs : List (RunEvent P)) (c : VerificationRunContext)
      → c.first_tool_observed_ingest_index ≡ none
      → (add_events index evs c).first_tool_observed_ingest_index
        ≡ first_index is_tool_observed index evs
  unfolding add_events add_event
  add_events-first index [] c k = k
  add_events-first index (RunEvent.tool_observed ev ∷ evs) c k =
      first_known index (suc index) evs _ (omega arith) (ap (λ o. min_index o index) k)
  add_events-first index (RunEvent.retrieval ev ∷ evs) c k = add_events-first (suc index) evs _ k
  add_events-first index (RunEvent.control ev ∷ evs) c k = add_events-first (suc index) evs _ k
  add_events-first index (RunEvent.model_turn ev ∷ evs) c k = add_events-first (suc index) evs _ k
  add_events-first index (RunEvent.tool_skipped ev ∷ evs) c k = add_events-first (suc index) evs _ k

  add_events-completed :
      (index : ℕ) (evs : List (RunEvent P)) (c : VerificationRunContext)
      → (add_events index evs c).has_run_completed_control
        ≡ (c.has_run_completed_control || any completes_run evs)
  unfolding add_events add_event
  add_events-completed index [] c = ground arith
  add_events-completed index (RunEvent.control ev ∷ evs) c =
      add_events-completed (suc index) evs _ ∙ or_comm (is_run_completed ev.control_kind) _ _
  add_events-completed index (RunEvent.tool_observed ev ∷ evs) c =
      add_events-completed (suc index) evs _
  add_events-completed index (RunEvent.retrieval ev ∷ evs) c =
      add_events-completed (suc index) evs _
  add_events-completed index (RunEvent.model_turn ev ∷ evs) c =
      add_events-completed (suc index) evs _
  add_events-completed index (RunEvent.tool_skipped ev ∷ evs) c =
      add_events-completed (suc index) evs _

  wire_one :
      (index : ℕ) (ev : RunEvent P) (c : VerificationRunContext)
      → some (add_event index ev c).max_wire_schema_version
        ≡ or_else (newer_version ev) (some c.max_wire_schema_version)
  unfolding add_event
  wire_one index (RunEvent.tool_observed ev) c = versions ev.version
    where
      versions :
          (v : EventVersion)
          → some (wire_after c.max_wire_schema_version v)
            ≡ or_else (version_number v) (some c.max_wire_schema_version)
      versions v1 = refl
      versions v2 = refl
      versions (v3 k) = refl
  wire_one index (RunEvent.retrieval ev) c = refl
  wire_one index (RunEvent.control ev) c = refl
  wire_one index (RunEvent.model_turn ev) c = refl
  wire_one index (RunEvent.tool_skipped ev) c = refl

  add_events-wire :
      (index : ℕ) (evs : List (RunEvent P)) (c : VerificationRunContext)
      → some (add_events index evs c).max_wire_schema_version
        ≡ or_else (last_newer_version evs) (some c.max_wire_schema_version)
  unfolding add_events
  add_events-wire index [] c = refl
  add_events-wire index (ev ∷ evs) c =
      add_events-wire (suc index) evs (add_event index ev c)
      ∙ ap (or_else (last_newer_version evs)) (wire_one index ev c)
      ∙ or_else_assoc (last_newer_version evs) (newer_version ev) _

-- The digest of a run lists the retrieval, control, model turn and skipped tool events in order, each with its index in the capture; under each `seq` it
-- holds the last index of an observed call of it, and it holds the first index of any observed call; a run is completed when some control
-- event says so; and the wire version is that of the last event whose version is above 1, or else 1. Its last event has
-- the number of events before it as its index, the type of the last event of the capture, and the status of a model turn; there is
-- none if there was no event.
pub build-IsDigest :
    {P : Type 0} (events : List (RunEvent P))
    → IsDigest events (build_verification_run_context events)
unfolding build_verification_run_context create_empty_verification_run_context get_index
build-IsDigest events =
    let empty = create_empty_verification_run_context in
    record {
      retrievals =
          add_events-collect (λ c. c.retrieval_events) retrieval_of retrieval_one 0 events empty;
      controls = add_events-collect (λ c. c.control_events) control_of control_one 0 events empty;
      model_turns =
          add_events-collect (λ c. c.model_turn_events) model_turn_of model_turn_one 0 events empty;
      tools_skipped =
          add_events-collect (λ c. c.tool_skipped_events) tool_skipped_of tool_skipped_one 0 events
            empty;
      by_seq = λ seq.
          add_events-seq seq 0 events empty ∙ or_else-none (last_index (has_seq seq) 0 events);
      first_tool = add_events-first 0 events empty refl;
      completed = add_events-completed 0 events empty;
      wire = add_events-wire 0 events empty;
      last = last_event-LastOf 0 events;
    }
