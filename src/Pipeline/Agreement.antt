-- ===== src/Pipeline/Agreement.antt =====
-- The synchronous and the asynchronous run over a SQLite file agree under a strong policy.
use agentskeptic.Prelude.{
  ℕ, ◌≡◌, refl, Bool, true, false, Option, none, some, List, [], ◌∷◌, All, ap, ◌∙◌, Bool-cases, inl,
  inr, if◌then◌else◌,
}
use mathlib.Core.Path.{subst}
use mathlib.Core.Option.{some-injective}
use agentskeptic.Js.{Text, Number, Runtime, text_eq}
use agentskeptic.Js.Json.{Json}
use agentskeptic.Types.{VerificationPolicy, strong}
use agentskeptic.Types.Registry.{
  ToolRegistryEntry, ToolRegistryVerification, SqlRelationalCheckSpec,
}
use agentskeptic.Reconciler.{Answer}
use agentskeptic.Events.Plan.{Event, LogicalStepPlan, plan_logical_steps}
use agentskeptic.ResolveExpectation.Outcome.{Outcome, ok, refused, bind-ok, ok-injective}
use agentskeptic.ResolveExpectation.Request.{
  DatabaseKind, Registry, find_tool, resolve_verification_request, resolve_verification,
  resolve_relational, resolve_checks, resolve_effects, is_big_query,
}
use agentskeptic.ResolveExpectation.Rows.{resolve_sql_row_spec, resolve_sql_row_absent_spec}
use agentskeptic.VerificationPolicy.Input.{Result, done, thrown, exhausted}
use agentskeptic.VerificationPolicy.Run.{Run, Environment, ◌>>=◌ as and_then}
use agentskeptic.VerificationPolicy.Execute.{
  Resolved, create_sqlite_policy_context, execute_verification_with_policy_sync,
  execute_verification_with_policy_async,
}
use agentskeptic.VerificationPolicy.Agreement.{IsStored, execute_async-sync}
use agentskeptic.Pipeline.{
  Prepared, settled, rejected, checked, executed, prepare_step, prepare_entry, prepare_resolved,
  run_prepared, returns, ◌>>=◌, run_prepared_async, verify_tool_observed_step,
  verify_tool_observed_step_async, run_plan, run_plan_async, run_plans, run_plans_async,
  run_logical_steps_verification_sync, run_logical_steps_verification_async,
}

-- The kinds that a database file can answer.
abbrev pub IsStoredKind : ToolRegistryVerification → Type 0
IsStoredKind (ToolRegistryVerification.sql_row spec) = Unit
IsStoredKind (ToolRegistryVerification.sql_row_absent spec) = Unit
IsStoredKind (ToolRegistryVerification.sql_effects items) = Unit
IsStoredKind (ToolRegistryVerification.sql_relational items) = Unit
IsStoredKind _ = ⊥

-- No entry of the registry asks for a state witness.
abbrev pub IsStoredRegistry : Registry → Type 0
IsStoredRegistry = All (λ (p : Text × ToolRegistryEntry). IsStoredKind p.1.verification)

found-IsStored :
    (id : Text) (registry : Registry) {entry : ToolRegistryEntry}
    → IsStoredRegistry registry
    → find_tool id registry ≡ some entry
    → IsStoredKind entry.verification
unfolding find_tool
found-IsStored id [] h g = cc g
found-IsStored id ((k, e) ∷ m) {entry} (h, hs) g = choose (text_eq k id) (found-IsStored id m hs) g
  where
    choose :
        (b : Bool)
        → (find_tool id m ≡ some entry → IsStoredKind entry.verification)
        → (if b then some e else find_tool id m) ≡ some entry
        → IsStoredKind entry.verification
    choose true rest p =
        subst (λ (x : ToolRegistryEntry). IsStoredKind x.verification) (some-injective _ _ p) h
    choose false rest p = rest p

module _ (js : Runtime) (params : Json) where
  relational-IsStored :
      (big_query : Bool) (items : List SqlRelationalCheckSpec) {out : Resolved}
      → resolve_relational js params big_query items ≡ ok out
      → IsStored out
  unfolding resolve_relational
  relational-IsStored true items h = cc h
  relational-IsStored false items h =
      let (checks, p, q) = bind-ok (resolve_checks js params [] items) _ h in
      subst IsStored (ok-injective q) tt

  resolved-IsStored :
      (v : ToolRegistryVerification) (target : Option DatabaseKind) {out : Resolved}
      → IsStoredKind v
      → resolve_verification js params target v ≡ ok out
      → IsStored out
  resolved-IsStored (ToolRegistryVerification.sql_row spec) target k h =
      let (r, p, q) = bind-ok (resolve_sql_row_spec js params [] spec) _ h in
      subst IsStored (ok-injective q) tt
  resolved-IsStored (ToolRegistryVerification.sql_row_absent spec) target k h =
      let (r, p, q) = bind-ok (resolve_sql_row_absent_spec js params [] spec) _ h in
      subst IsStored (ok-injective q) tt
  resolved-IsStored (ToolRegistryVerification.sql_effects items) target k h =
      let (r, p, q) = bind-ok (resolve_effects js params [] items) _ h in
      subst IsStored (ok-injective q) tt
  resolved-IsStored (ToolRegistryVerification.sql_relational items) target k h =
      relational-IsStored (is_big_query target) items h
  resolved-IsStored (ToolRegistryVerification.vector_document spec) target k h = absurd k
  resolved-IsStored (ToolRegistryVerification.object_storage_object spec) target k h = absurd k
  resolved-IsStored (ToolRegistryVerification.http_witness spec) target k h = absurd k
  resolved-IsStored (ToolRegistryVerification.mongo_document spec) target k h = absurd k

-- What is to be executed, if anything, a database file can answer.
abbrev IsStoredPrepared : Prepared → Type 0
IsStoredPrepared (checked entry resolved) = IsStored resolved
IsStoredPrepared (settled s) = Unit
IsStoredPrepared (rejected message) = Unit

module _ {E A B : Type 0} (f : A → Run E B) (g : A → Result B) (e : E) where
  ends :
      (r : Result A)
      → ((a : A) → f a e ≡ (g a, e))
      → and_then {E = E} (λ u. (r, u)) f e ≡ (r >>= g, e)
  ends (done a) h = h a
  ends (thrown x) h = refl
  ends exhausted h = refl

  -- A run that gives a result and leaves the outside world as it was, and its continuation.
  same_bind :
      (m : Run E A) (r : Result A)
      → m e ≡ (r, e)
      → ((a : A) → f a e ≡ (g a, e))
      → and_then {E = E} m f e ≡ (r >>= g, e)
  same_bind m r h k = ap (λ (x : Result A × E). and_then {E = E} (λ _. x) f e) h ∙ ends r k

module _ (js : Runtime) (stringify : Json → Text) (registry : Registry)
    (target : Option DatabaseKind) (window_ms poll_ms : Number) (query : Text → List Text → Answer)
    {E : Type 0} (now : E → ℕ × E) (sleep : Number → E → E) (fuel : ℕ) where
  abbrev policy : VerificationPolicy
  policy = strong window_ms poll_ms

  abbrev context : Environment E
  context = create_sqlite_policy_context js query now sleep

  prepared-agree :
      (ev : Event) (n : ℕ) (p : Prepared) (e : E)
      → IsStoredPrepared p
      → run_prepared_async js stringify registry target policy context fuel ev n p e
        ≡ (run_prepared js stringify registry target policy query ev n p, e)
  prepared-agree ev n (settled s) e h = refl
  prepared-agree ev n (rejected message) e h = refl
  prepared-agree ev n (checked entry resolved) e h =
      same_bind (λ out. returns (executed js stringify registry target policy entry ev n out))
        (executed js stringify registry target policy entry ev n) e
        (execute_verification_with_policy_async js context fuel resolved policy)
        (execute_verification_with_policy_sync js query resolved policy)
        (execute_async-sync js query now sleep resolved window_ms poll_ms fuel e h) (λ out. refl)

  resolved-IsStoredPrepared :
      (ev : Event) (n : ℕ) (entry : ToolRegistryEntry) (o : Outcome Resolved)
      → IsStoredKind entry.verification
      → resolve_verification_request js ev.params entry target ≡ o
      → IsStoredPrepared (prepare_resolved js stringify registry target policy entry ev n o)
  unfolding resolve_verification_request
  resolved-IsStoredPrepared ev n entry (ok resolved) k h =
      resolved-IsStored js ev.params entry.verification target k h
  resolved-IsStoredPrepared ev n entry (refused code message) k h = tt
  resolved-IsStoredPrepared ev n entry (Outcome.thrown message) k h = tt

  prepare-IsStored :
      (ev : Event) (n : ℕ) (entry : Option ToolRegistryEntry)
      → IsStoredRegistry registry
      → find_tool ev.tool_id registry ≡ entry
      → IsStoredPrepared (prepare_entry js stringify registry target policy ev n entry)
  prepare-IsStored ev n none k h = tt
  prepare-IsStored ev n (some entry) k h =
      resolved-IsStoredPrepared ev n entry _ (found-IsStored ev.tool_id registry k h) refl

  step-agree :
      (ev : Event) (n : ℕ) (e : E)
      → IsStoredRegistry registry
      → verify_tool_observed_step_async js stringify registry target policy context fuel
          (some n)
          ev
          e
        ≡ (verify_tool_observed_step js stringify registry target policy query (some n) ev, e)
  unfolding verify_tool_observed_step verify_tool_observed_step_async prepare_step
  step-agree ev n e k =
      prepared-agree ev n
        (prepare_entry js stringify registry target policy ev n (find_tool ev.tool_id registry)) e
        (prepare-IsStored ev n (find_tool ev.tool_id registry) k refl)

  plan-agree :
      (plan : LogicalStepPlan) (e : E)
      → IsStoredRegistry registry
      → run_plan_async js stringify registry target policy context fuel plan e
        ≡ (run_plan js stringify registry target policy query plan, e)
  plan-agree plan e k = elim (Bool-cases plan.divergent) [
    | inl d ↦ rw d refl
    | inr d ↦ rw d (step-agree plan.last plan.repeat_observation_count e k)
  ]

  plans-agree :
      (plans : List LogicalStepPlan) (e : E)
      → IsStoredRegistry registry
      → run_plans_async js stringify registry target policy context fuel plans e
        ≡ (run_plans js stringify registry target policy query plans, e)
  unfolding run_plans run_plans_async
  plans-agree [] e k = refl
  plans-agree (plan ∷ plans) e k =
      same_bind
        (λ s.
          and_then {E = E} (run_plans_async js stringify registry target policy context fuel plans)
            (λ ss. returns (done (s ∷ ss))))
        (λ s. run_plans js stringify registry target policy query plans >>= (λ ss. done (s ∷ ss))) e
        (run_plan_async js stringify registry target policy context fuel plan)
        (run_plan js stringify registry target policy query plan) (plan-agree plan e k)
        (λ s.
          same_bind (λ ss. returns (done (s ∷ ss))) (λ ss. done (s ∷ ss)) e
            (run_plans_async js stringify registry target policy context fuel plans)
            (run_plans js stringify registry target policy query plans) (plans-agree plans e k)
            (λ ss. refl))

-- Under a strong policy the asynchronous run over the SQLite context gives or throws exactly what the synchronous run does, for every
-- registry without state witnesses, whatever fuel it has, and leaves the outside world as it was.
pub run_async-sync :
    (js : Runtime) (stringify : Json → Text) (registry : Registry) (target : Option DatabaseKind)
    (window_ms poll_ms : Number) (query : Text → List Text → Answer) {E : Type 0} (now : E → ℕ × E)
    (sleep : Number → E → E) (fuel : ℕ) (events : List Event) (e : E)
    → IsStoredRegistry registry
    → run_logical_steps_verification_async js stringify registry target
        (strong window_ms poll_ms)
        (create_sqlite_policy_context js query now sleep)
        fuel
        events
        e
      ≡ (
        run_logical_steps_verification_sync js stringify registry target
            (strong window_ms poll_ms)
            query
            events,
        e,
      )
unfolding run_logical_steps_verification_async run_logical_steps_verification_sync
run_async-sync js stringify registry target window_ms poll_ms query now sleep fuel events e k =
    plans-agree js stringify registry target window_ms poll_ms query now sleep fuel
      (plan_logical_steps js events) e k
