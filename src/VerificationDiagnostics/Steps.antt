-- ===== src/VerificationDiagnostics/Steps.antt =====
-- The failure class of the steps of a result.
use agentskeptic.Prelude.{
  ◌≡◌, ◌≢◌, ◌⊎◌, inl, inr, refl, Option, none, some, List, [], ◌∷◌, All, Option-cases, ap, ◌∙◌, sym,
}
use mathlib.Core.Path.{subst}
use mathlib.Core.Option.{some-injective}
use agentskeptic.Types.{
  StepStatus, verified, missing, inconsistent, incomplete_verification, partially_verified,
  uncertain, Reason, FailureDiagnostic,
}
use agentskeptic.VerificationDiagnostics.{
  StepOutcome, omitted, given, unreachable, diagnosed, cons_some, strip_failure_diagnostic,
  with_failure_diagnostic, failure_diagnostic_for_step,
  failure_diagnostic_for_incomplete_verification, enrich_steps_with_failure_diagnostics,
}

-- A step carries the class of its failure, and none when it is verified.
pub record IsDiagnosed (s : StepOutcome) : Type 0 where
  pub none_if_verified : s.status ≡ verified → s.failure_diagnostic ≡ none
  pub some_if_not :
      s.status ≢ verified
      → (d : FailureDiagnostic) × (s.failure_diagnostic ≡ some d)
        × (failure_diagnostic_for_step s.status s.reasons ≡ given d)

-- Only the diagnostic differs.
abbrev pub SameStep : StepOutcome → StepOutcome → Type 0
SameStep s t = strip_failure_diagnostic s ≡ strip_failure_diagnostic t

diagnosis_cases :
    (s : StepStatus) (rs : List Reason)
    → ((s ≡ verified) × (failure_diagnostic_for_step s rs ≡ omitted))
      ⊎ ((s ≢ verified) × ((d : FailureDiagnostic) × (failure_diagnostic_for_step s rs ≡ given d)))
      ⊎ (failure_diagnostic_for_step s rs ≡ unreachable)
unfolding failure_diagnostic_for_step
diagnosis_cases verified rs = inl (refl, refl)
diagnosis_cases missing rs = inr (inl (λ h. cc, (_, refl)))
diagnosis_cases inconsistent rs = inr (inl (λ h. cc, (_, refl)))
diagnosis_cases partially_verified rs = inr (inl (λ h. cc, (_, refl)))
diagnosis_cases uncertain rs = inr (inl (λ h. cc, (_, refl)))
diagnosis_cases incomplete_verification rs =
    elim (Option-cases (failure_diagnostic_for_incomplete_verification rs)) [
      | inl e ↦ inr (inr (rw e))
      | inr (d, e) ↦ inr (inl (λ h. cc, (d, rw e)))
    ]

pub with-IsDiagnosed :
    (s t : StepOutcome)
    → with_failure_diagnostic s ≡ some t
    → IsDiagnosed t × SameStep s t × (with_failure_diagnostic (strip_failure_diagnostic t) ≡ some t)
unfolding with_failure_diagnostic
with-IsDiagnosed s t h = elim (diagnosis_cases s.status s.reasons) [
  | inl (v, e) ↦
      let p : diagnosed s omitted ≡ some t = sym (ap (diagnosed s) e) ∙ h in
      let same : strip_failure_diagnostic s ≡ t = some-injective _ _ p in
      subst
        (λ x.
          IsDiagnosed x
          × SameStep s x
          × (with_failure_diagnostic (strip_failure_diagnostic x) ≡ some x))
        same
        (
          record { none_if_verified = λ q. refl; some_if_not = λ n. absurd (n v) },
          refl,
          ap (diagnosed (strip_failure_diagnostic s)) e,
        )
  | inr (inl (n, (d, e))) ↦
      let p : diagnosed s (given d) ≡ some t = sym (ap (diagnosed s) e) ∙ h in
      let same : record s { failure_diagnostic = some d } ≡ t = some-injective _ _ p in
      subst
        (λ x.
          IsDiagnosed x
          × SameStep s x
          × (with_failure_diagnostic (strip_failure_diagnostic x) ≡ some x))
        same
        (
          record { none_if_verified = λ q. absurd (n q); some_if_not = λ m. (d, refl, e) },
          refl,
          ap (diagnosed (strip_failure_diagnostic s)) e,
        )
  | inr (inr e) ↦ let p : diagnosed s unreachable ≡ some t = sym (ap (diagnosed s) e) ∙ h in cc p
]

-- The steps of two lists agree one by one, but for their diagnostics.
abbrev pub SameSteps : List StepOutcome → List StepOutcome → Type 0
SameSteps [] [] = Unit
SameSteps [] (t ∷ ts) = ⊥
SameSteps (s ∷ ss) [] = ⊥
SameSteps (s ∷ ss) (t ∷ ts) = SameStep s t × SameSteps ss ts

cons_some_inv :
    (a : Option StepOutcome) (b : Option (List StepOutcome)) (ts : List StepOutcome)
    → cons_some a b ≡ some ts
    → (u : StepOutcome) × (us : List StepOutcome) × (a ≡ some u) × (b ≡ some us) × (u ∷ us ≡ ts)
cons_some_inv none b ts h = cc h
cons_some_inv (some s) none ts h = cc h
cons_some_inv (some s) (some us) ts h = (s, us, refl, refl, some-injective _ _ h)

-- The step can be classified again.
abbrev pub IsClassifiable : StepOutcome → Type 0
IsClassifiable s =
    (t : StepOutcome) × (with_failure_diagnostic (strip_failure_diagnostic s) ≡ some t)

pub enrich-some :
    (ss : List StepOutcome)
    → All IsClassifiable ss
    → (ts : List StepOutcome) × (enrich_steps_with_failure_diagnostics ss ≡ some ts)
unfolding enrich_steps_with_failure_diagnostics
enrich-some [] h = ([], refl)
enrich-some (s ∷ ss) ((t, e), hs) =
    let (ts, es) = enrich-some ss hs in
    (
      t ∷ ts,
      ap (λ o. cons_some o (enrich_steps_with_failure_diagnostics ss)) e
          ∙ ap (cons_some (some t)) es,
    )

-- Whenever the classification of a result's steps returns, it returns the same steps in the same order with only their diagnostics changed,
-- each with no diagnostic when it is verified and with the class of its own status and reasons otherwise; and a second pass changes nothing.
pub enrich-IsDiagnosed :
    (ss ts : List StepOutcome)
    → enrich_steps_with_failure_diagnostics ss ≡ some ts
    → SameSteps ss ts × All IsDiagnosed ts × (enrich_steps_with_failure_diagnostics ts ≡ some ts)
unfolding enrich_steps_with_failure_diagnostics
enrich-IsDiagnosed [] ts h =
    subst
      (λ x. SameSteps [] x × All IsDiagnosed x × (enrich_steps_with_failure_diagnostics x ≡ some x))
      (some-injective _ _ h) (tt, tt, refl)
enrich-IsDiagnosed (s ∷ ss) ts h =
    let (u, us, a, b, e) = cons_some_inv _ _ ts h in
    let (d, same, again) = with-IsDiagnosed (strip_failure_diagnostic s) u a in
    let (rest, rest_d, rest_again) = enrich-IsDiagnosed ss us b in
    subst
      (λ x.
        SameSteps (s ∷ ss) x
        × All IsDiagnosed x
        × (enrich_steps_with_failure_diagnostics x ≡ some x))
      e
      (
        (same, rest),
        (d, rest_d),
        ap (λ o. cons_some o (enrich_steps_with_failure_diagnostics us)) again
            ∙ ap (cons_some (some u)) rest_again,
      )
