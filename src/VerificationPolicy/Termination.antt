-- ===== src/VerificationPolicy/Termination.antt =====
-- Every run of the policy executor ends: the reconcilers of a live environment end, and the polling loops have enough
-- fuel.
use agentskeptic.Prelude.{ℕ, ◌≤◌, ◌<◌, ◌≡◌, ◌≢◌, refl, true, Option, some, List, [], ◌∷◌, arith}
use agentskeptic.Js.{nat, Runtime, number_le, is_integer}
use agentskeptic.Types.{
  VerificationRequest, RowAbsentVerificationRequest, ResolvedEffect, ResolvedRelationalCheck,
  StateWitnessRequest, VerificationPolicy, strong, eventual, bounded, verification_window_ms,
  poll_interval_ms,
}
use agentskeptic.MultiEffectRollup.{PolicyExecutionOutput}
use agentskeptic.VerificationPolicy.Input.{
  Result, done, thrown, exhausted, normalize_verification_policy, resolve_verification_policy_input,
}
use agentskeptic.VerificationPolicy.Run.{Run, Environment}
use agentskeptic.VerificationPolicy.Uncertain.{Expiry}
use agentskeptic.VerificationPolicy.Eventual.{
  poll_from_start, execute_sql_row_eventual, execute_sql_row_absent_eventual,
  execute_state_witness_eventual, execute_sql_effects_eventual,
  execute_sql_relational_single_eventual, execute_sql_relational_eventual,
}
use agentskeptic.VerificationPolicy.Execute.{
  Resolved, sql_row, sql_row_absent, sql_effects, sql_relational, state_witness, execute_waiting,
  execute_strong_async, relational_strong, relational_waiting, by_mode,
  execute_verification_with_policy_async,
}
use agentskeptic.VerificationPolicy.Valid.{IsAccepted, resolved-IsAccepted, resolve-ends}
use agentskeptic.VerificationPolicy.Rounds.{
  millis, IsAdvancing, Keeps, from_start-total, bind-Keeps, pure-Keeps, all_settled-Keeps,
}

module _ {E : Type 0} (env : Environment E) where
  -- The reconcilers end, and neither they nor the clock set the time back; waiting moves it on.
  pub record IsLive : Type 0 where
    pub advancing : IsAdvancing env
    pub row : (r : VerificationRequest) → Keeps env (env.reconcile_row r)
    pub absent : (r : RowAbsentVerificationRequest) → Keeps env (env.reconcile_row_absent r)
    pub relational : (c : ResolvedRelationalCheck) → Keeps env (env.reconcile_relational_check c)
    pub witness : (r : StateWitnessRequest) → Keeps env (env.reconcile_state_witness r)

  module _ (js : Runtime) (live : IsLive) where
    relational_strong-total :
        (checks : List ResolvedRelationalCheck) (e : E)
        → (relational_strong js env checks e).0 ≢ exhausted
    relational_strong-total [] =
        (bind-Keeps env _ _
          (all_settled-Keeps env env.reconcile_relational_check [] live.relational)
          (λ ps. pure-Keeps env _)).ends
    relational_strong-total (c ∷ []) =
        (bind-Keeps env _ _ (live.relational c) (λ out. pure-Keeps env _)).ends
    relational_strong-total (c ∷ d ∷ cs) =
        (bind-Keeps env _ _
          (all_settled-Keeps env env.reconcile_relational_check (c ∷ d ∷ cs) live.relational)
          (λ ps. pure-Keeps env _)).ends

    strong-total : (r : Resolved) (e : E) → (execute_strong_async js env r e).0 ≢ exhausted
    unfolding execute_strong_async
    strong-total (sql_row q) = (bind-Keeps env _ _ (live.row q) (λ out. pure-Keeps env _)).ends
    strong-total (sql_row_absent q) =
        (bind-Keeps env _ _ (live.absent q) (λ out. pure-Keeps env _)).ends
    strong-total (state_witness q) =
        (bind-Keeps env _ _ (live.witness q) (λ out. pure-Keeps env _)).ends
    strong-total (sql_relational cs) = relational_strong-total cs
    strong-total (sql_effects es) =
        (bind-Keeps env _ _
          (all_settled-Keeps env (λ (x : ResolvedEffect). env.reconcile_row x.request) es
            (λ x. live.row x.request))
          (λ ps. pure-Keeps env _)).ends

    module _ (p : VerificationPolicy) (whole : is_integer (verification_window_ms p) ≡ true)
        (positive : number_le (nat 1) (poll_interval_ms p) ≡ true) (fuel : ℕ)
        (enough : millis (verification_window_ms p) < fuel) where
      poll-total :
          {R : Type 0} (attempt : Run E R) (settles : R → Option PolicyExecutionOutput)
          (expired : R → Expiry)
          → Keeps env attempt
          → (e : E) → (poll_from_start env p attempt settles expired fuel e).0 ≢ exhausted
      poll-total attempt settles expired kept e =
          from_start-total env p live.advancing whole positive attempt kept settles expired fuel e
            enough

      relational_waiting-total :
          (checks : List ResolvedRelationalCheck) (e : E)
          → (relational_waiting js env p fuel checks e).0 ≢ exhausted
      unfolding execute_sql_relational_eventual execute_sql_relational_single_eventual
      relational_waiting-total [] =
          poll-total _ _ _ (all_settled-Keeps env env.reconcile_relational_check [] live.relational)
      relational_waiting-total (c ∷ []) = poll-total _ _ _ (live.relational c)
      relational_waiting-total (c ∷ d ∷ cs) =
          poll-total _ _ _
            (all_settled-Keeps env env.reconcile_relational_check (c ∷ d ∷ cs) live.relational)

      waiting-total : (r : Resolved) (e : E) → (execute_waiting js env p fuel r e).0 ≢ exhausted
      unfolding execute_waiting execute_sql_row_eventual execute_sql_row_absent_eventual
          execute_state_witness_eventual execute_sql_effects_eventual
      waiting-total (sql_row q) = poll-total _ _ _ (live.row q)
      waiting-total (sql_row_absent q) = poll-total _ _ _ (live.absent q)
      waiting-total (state_witness q) = poll-total _ _ _ (live.witness q)
      waiting-total (sql_relational cs) = relational_waiting-total cs
      waiting-total (sql_effects es) = poll-total _ _ _ (
          all_settled-Keeps env (λ (x : ResolvedEffect). env.reconcile_row x.request) es
            (λ x. live.row x.request))

    by_mode-total :
        (fuel : ℕ) (r : Resolved) (q : VerificationPolicy)
        → IsAccepted q
        → millis (verification_window_ms q) < fuel
        → (e : E) → (by_mode js env fuel r (done q) e).0 ≢ exhausted
    by_mode-total fuel r (strong w p) a h = strong-total r
    by_mode-total fuel r (eventual w p) a h =
        waiting-total (eventual w p) a.window.whole a.interval.positive fuel h r
    by_mode-total fuel r (bounded w p s) a h =
        waiting-total (bounded w p s) a.0.window.whole a.0.interval.positive fuel h r

millis-normalize :
    (p : VerificationPolicy)
    → millis (verification_window_ms (normalize_verification_policy p))
      ≤ millis (verification_window_ms p)
unfolding normalize_verification_policy
millis-normalize (strong w p) = omega arith
millis-normalize (eventual w p) = omega arith
millis-normalize (bounded w p s) = omega arith

-- Every run under a policy ends, for every kind of check: it returns an output or throws, with fuel for
-- more rounds than the window has milliseconds, provided that the reconcilers end, the clock is not set
-- back, and a wait of at least one millisecond moves it on.
pub execute-total :
    {E : Type 0} (env : Environment E) (js : Runtime) (live : IsLive env) (resolved : Resolved)
    (policy : VerificationPolicy) (fuel : ℕ) (e : E)
    → millis (verification_window_ms policy) < fuel
    → (execute_verification_with_policy_async js env fuel resolved policy e).0 ≢ exhausted
unfolding execute_verification_with_policy_async
execute-total env js live resolved policy fuel e h =
    go (resolve_verification_policy_input (some policy)) refl
  where
    enough :
        (q : VerificationPolicy)
        → q ≡ normalize_verification_policy policy
        → millis (verification_window_ms q) < fuel
    enough q same = rw same (omega (arith, millis-normalize policy))

    go :
        (x : Result VerificationPolicy)
        → resolve_verification_policy_input (some policy) ≡ x
        → (by_mode js env fuel resolved x e).0 ≢ exhausted
    go (done q) eq =
        let (same, ok) = resolved-IsAccepted policy q eq in
        by_mode-total env js live fuel resolved q ok (enough q same) e
    go (thrown x) eq = λ r. cc
    go exhausted eq = λ r. resolve-ends policy eq
