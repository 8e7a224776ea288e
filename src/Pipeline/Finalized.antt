-- ===== src/Pipeline/Finalized.antt =====
-- The end of a step: what `finalize` leaves of an outcome, and when it returns.
use agentskeptic.Prelude.{◌≡◌, refl, true, Option, none, some, ap, ◌∙◌}
use mathlib.Core.Path.{subst}
use agentskeptic.Js.{Text}
use agentskeptic.Events.Plan.{Event}
use agentskeptic.VerificationPolicy.Input.{Result, done, thrown, exhausted}
use agentskeptic.VerificationDiagnostics.{
  StepOutcome, Diagnosis, omitted, given, unreachable, diagnosed, with_failure_diagnostic,
  failure_diagnostic_for_step,
}
use agentskeptic.VerificationDiagnostics.Steps.{IsDiagnosed, with-IsDiagnosed}
use agentskeptic.VerificationDiagnostics.Classified.{is_classified, Classified}
use agentskeptic.Pipeline.{
  or_unreachable, finalize, finalize_keyed, ◌>>=◌, with_optional_langgraph_checkpoint_key,
  langgraph_checkpoint_key_from_tool_observed, keyed,
}
use agentskeptic.Pipeline.Executable.{Returns}

pub done-injective : {A : Type 0} {a b : A} → ◌≡◌ {A = Result A} (done a) (done b) → a ≡ b
done-injective h = cc h

pub run-done :
    {A B : Type 0} (m : Result A) (f : A → Result B) {b : B}
    → m >>= f ≡ done b
    → (a : A) × (m ≡ done a) × (f a ≡ done b)
run-done (done a) f h = (a, refl, h)
run-done (thrown x) f h = cc h
run-done exhausted f h = cc h

pub bind-Returns :
    {A B : Type 0} (m : Result A) (f : A → Result B)
    → Returns m
    → ((a : A) → Returns (f a))
    → Returns (m >>= f)
bind-Returns m f (a, e) g = let (b, h) = g a in (b, ap (λ r. r >>= f) e ∙ h)

-- An outcome without its diagnosis and its checkpoint.
abbrev pub bare : StepOutcome → StepOutcome
bare s = record s { failure_diagnostic = none; langgraph_checkpoint_key = none }

-- One outcome is the other, with its diagnosis and perhaps a checkpoint.
pub record IsFinal (s t : StepOutcome) : Type 0 where
  pub same : bare s ≡ bare t
  pub diagnosis : IsDiagnosed t

or_unreachable-done :
    (s : StepOutcome) (o : Option StepOutcome) {t : StepOutcome}
    → or_unreachable s o ≡ done t
    → o ≡ some t
or_unreachable-done s none h = cc h
or_unreachable-done s (some u) h = ap some (done-injective h)

pub finalize-IsFinal : (s : StepOutcome) {t : StepOutcome} → finalize s ≡ done t → IsFinal s t
unfolding finalize
finalize-IsFinal s {t} h =
    let (d, same, again) =
      with-IsDiagnosed s t (or_unreachable-done s (with_failure_diagnostic s) h) in
    record {
      same = ap (λ (x : StepOutcome). record x { langgraph_checkpoint_key = none }) same;
      diagnosis = d;
    }

keyed-IsFinal : (s t : StepOutcome) (key : Option Text) → IsFinal s t → IsFinal s (keyed t key)
keyed-IsFinal s t none h = h
keyed-IsFinal s t (some key) h = record {
  same = h.same;
  diagnosis = record {
    none_if_verified = h.diagnosis.none_if_verified;
    some_if_not = h.diagnosis.some_if_not;
  };
}

pub finalize_keyed-IsFinal :
    (ev : Event) (s : StepOutcome) {t : StepOutcome} → finalize_keyed ev s ≡ done t → IsFinal s t
unfolding finalize_keyed with_optional_langgraph_checkpoint_key
finalize_keyed-IsFinal ev s {t} h =
    let (u, p, q) =
      run-done (finalize s) (λ x. done (with_optional_langgraph_checkpoint_key x ev)) h in
    subst (IsFinal s) (done-injective q)
      (keyed-IsFinal s u (langgraph_checkpoint_key_from_tool_observed ev) (finalize-IsFinal s p))

diagnosed-Returns :
    (s : StepOutcome) (d : Diagnosis)
    → is_classified d ≡ true
    → Returns (or_unreachable s (diagnosed s d))
diagnosed-Returns s omitted h = (_, refl)
diagnosed-Returns s (given d) h = (_, refl)
diagnosed-Returns s unreachable h = cc h

pub finalize-Returns : (s : StepOutcome) → Classified s.status s.reasons → Returns (finalize s)
unfolding finalize with_failure_diagnostic
finalize-Returns s h = diagnosed-Returns s (failure_diagnostic_for_step s.status s.reasons) h

pub finalize_keyed-Returns :
    (ev : Event) (s : StepOutcome) → Classified s.status s.reasons → Returns (finalize_keyed ev s)
unfolding finalize_keyed
finalize_keyed-Returns ev s h =
    bind-Returns (finalize s) (λ x. done (with_optional_langgraph_checkpoint_key x ev))
      (finalize-Returns s h) (λ t. (_, refl))
