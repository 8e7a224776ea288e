-- ===== src/VerificationRunContext/Last.antt =====
-- verificationRunContext.ts: the summary of the last event, as lastEventSummary finds it.
use agentskeptic.Prelude.{ℕ, suc, ◌≡◌, refl, some, List, [], ◌∷◌, ap, ◌∙◌, arith, ◌+◌, inl, inr}
use mathlib.Core.List.{cons≢nil}
use agentskeptic.Types.RunEvents.{RunEvent}
use agentskeptic.VerificationRunContext.{summary_of, last_event_summary}
use agentskeptic.VerificationRunContext.Description.{event_type, turn_status, LastOf}

module _ {P : Type 0} where
  summary_of-parts :
      (index : ℕ) (ev : RunEvent P)
      → summary_of index ev
        ≡ record { ingest_index = index; type = event_type ev; model_turn_status = turn_status ev }
  summary_of-parts index (RunEvent.tool_observed ev) = refl
  summary_of-parts index (RunEvent.retrieval ev) = refl
  summary_of-parts index (RunEvent.control ev) = refl
  summary_of-parts index (RunEvent.model_turn ev) = refl
  summary_of-parts index (RunEvent.tool_skipped ev) = refl

  at_index :
      (ev : RunEvent P) (i j : ℕ)
      → i ≡ j
      → summary_of i ev
        ≡ record { ingest_index = j; type = event_type ev; model_turn_status = turn_status ev }
  at_index ev i j e = rw (← e) (summary_of-parts i ev)

  LastOf-more :
      (index : ℕ) (e : RunEvent P) (evs : List (RunEvent P)) (ev : RunEvent P) {o : _}
      → LastOf (suc index) (e ∷ evs) o
      → LastOf index (ev ∷ e ∷ evs) o
  LastOf-more index e evs ev (inl (h, k)) = absurd (cons≢nil h)
  LastOf-more index e evs ev (inr (before, l, h, k)) = inr (
    ev ∷ before,
    l,
    ap (λ es. ev ∷ es) h,
    k
        ∙ ap
            (λ (n : ℕ).
              some (record {
                ingest_index = n;
                type = event_type l;
                model_turn_status = turn_status l;
              }))
            (omega arith),
  )

  pub last_event-LastOf :
      (index : ℕ) (evs : List (RunEvent P)) → LastOf index evs (last_event_summary index evs)
  unfolding last_event_summary
  last_event-LastOf index [] = inl (refl, refl)
  last_event-LastOf index (ev ∷ []) =
      inr ([], ev, refl, ap some (at_index ev index (index + 0) (omega arith)))
  last_event-LastOf index (ev ∷ e ∷ evs) =
      LastOf-more index e evs ev (last_event-LastOf (suc index) (e ∷ evs))
