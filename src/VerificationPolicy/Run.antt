-- ===== src/VerificationPolicy/Run.antt =====
-- The environment of a run: the clock, the wait, and the reconcilers of `PolicyReconcileContext`, over a
-- state `E` of the outside world that each of them may move on. A rejected promise is a thrown failure.
use agentskeptic.Prelude.{ℕ, List, [], ◌∷◌}
use agentskeptic.Js.{Number}
use agentskeptic.Types.{
  VerificationRequest, RowAbsentVerificationRequest, ResolvedRelationalCheck, StateWitnessRequest,
}
use agentskeptic.Reconciler.{ReconcileOutput}
use agentskeptic.VerificationPolicy.Input.{Result, done, thrown, exhausted}

abbrev pub Run : Type 0 → Type 0 → Type 0
Run E A = E → Result A × E

module _ {E : Type 0} where
  abbrev pub pure : {A : Type 0} → A → Run E A
  pure a e = (done a, e)

  infixl 5 ◌>>=◌ ◌>>◌
  abbrev pub ◌>>=◌ : {A B : Type 0} → Run E A → (A → Run E B) → Run E B
  ◌>>=◌ m f e =
      let (r, e') = m e in
      elim r [ done a ↦ f a e' | thrown x ↦ (thrown x, e') | exhausted ↦ (exhausted, e') ]

  abbrev pub ◌>>◌ : {A B : Type 0} → Run E A → Run E B → Run E B
  m >> k = m >>= λ _. k

  -- `Promise.all(xs.map(f))`, one after the other: each result with its element, in order.
  unfoldable pub all_settled : {A B : Type 0} → (A → Run E B) → List A → Run E (List (A × B))
  all_settled f [] = pure []
  all_settled f (x ∷ xs) = do y ← f x; ys ← all_settled f xs; pure ((x, y) ∷ ys)

-- `TimingDeps` and `PolicyReconcileContext`.
pub record Environment (E : Type 0) : Type 0 where
  pub now : E → ℕ × E
  pub sleep : Number → E → E
  pub reconcile_row : VerificationRequest → Run E ReconcileOutput
  pub reconcile_row_absent : RowAbsentVerificationRequest → Run E ReconcileOutput
  pub reconcile_relational_check : ResolvedRelationalCheck → Run E ReconcileOutput
  pub reconcile_state_witness : StateWitnessRequest → Run E ReconcileOutput
