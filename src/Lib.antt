-- ===== src/Lib.antt =====
-- The verification engine of agentskeptic: what a tool call was expected to write is checked against the
-- database, and the checks of a workflow's steps are put together into its result.
--
-- A resolved expectation is one of five kinds: a row, a row that must be absent, several effects, several
-- relational checks, or a state witness. The policy executor reconciles it once (strong) or again and again
-- until it is settled or a window has passed (eventual, bounded). A reconciliation sends a statement, and a
-- rule table makes its status and reasons from the rows. Several checks of a step are rolled up into one
-- status. Aggregation makes the status of the workflow from its steps, each with the class of its failure.
--
-- The pipeline drives these parts: the events of a run are planned into logical steps; a step whose observations differ, or
-- whose tool the registry does not have, ends at once; for any other the resolver makes the request from the tool's registry
-- entry and the parameters of the call, through JSON pointers, and the executor checks it.
--
-- Files and the code they model:
--   Types, Types/Evidence             src/types.ts, and the row kinds of src/planTransition.ts
--   WireReasonCodes                   src/wireReasonCodes.ts and the codes of src/failureCatalog.ts
--   FailureCatalog                    src/failureCatalog.ts: formatOperationalMessage, runLevelIssue, ...
--   SqlDialect                        src/sqlDialect.ts: quoteIdent, quoteBigQueryTableId, placeholders
--   ValueVerification                 src/valueVerification.ts: verificationScalarsEqual
--   Reconciler/Rows                   src/reconciler.ts: reconcileFromRows, reconcileSqlRow; src/sqlConnector.ts
--   Reconciler/Absent                 src/reconciler.ts: buildRowAbsentSqlPlan, reconcileSqlRowAbsent,
--                                     executeRowAbsentRemote
--   RelationalInvariant/Statements    src/relationalInvariant.ts: buildRelationalScalarSql, buildAntiJoinSampleSql
--   RelationalInvariant/Row           src/relationalInvariant.ts: reconcileRelationalRow and the two runs
--   MultiEffectRollup                 src/multiEffectRollup.ts: computeMultiCheckRollupStatus and the rollups
--   VerificationPolicy/Input          src/verificationPolicy.ts: normalising and validating a policy
--   VerificationPolicy/Run            the timing and reconcile contexts of src/verificationPolicy.ts
--   VerificationPolicy/Classify       classifyMultiEffectAfterReconcile, classifyMultiRelationalAfterReconcile
--   VerificationPolicy/Uncertain      the buildUncertain... functions
--   VerificationPolicy/Eventual       the six execute...Eventual loops
--   VerificationPolicy/Execute        executeVerificationWithPolicySync, executeVerificationWithPolicyAsync,
--                                     createSqlitePolicyContext
--   VerificationDiagnostics           src/verificationDiagnostics.ts: the failure class of a step
--   Aggregate                         src/aggregate.ts: aggregateWorkflow
--   Events                            src/eventSequenceIntegrity.ts, src/prepareWorkflowEvents.ts, and
--                                     stableSortEventsBySeq of src/planLogicalSteps.ts
--   Events/Params                     src/canonicalParams.ts
--   Events/Plan                       src/planLogicalSteps.ts: planLogicalSteps
--   Types/Registry, Types/RunEvents   src/types.ts: the registry of tools; the events and the digest of a run
--   JsonPointer                       src/jsonPointer.ts
--   ResolveExpectation/Specs          src/resolveExpectation.ts: strings, identifiers, key values and numbers
--   ResolveExpectation/Rows           resolveRegistryEqualityList, resolveSqlRowSpec, resolveSqlRowAbsentSpec
--   ResolveExpectation/Relational     resolveSqlRelationalCheck
--   ResolveExpectation/Witness        the specs of vector, object storage, HTTP and MongoDB checks
--   ResolveExpectation/Request        resolveVerificationRequest, buildRegistryMap
--   ResolveExpectation/Template       renderIntendedEffect
--   VerificationRunContext            src/verificationRunContext.ts: buildVerificationRunContext
--   NoStepsMessage                    src/noStepsMessage.ts
--   Pipeline                          src/pipeline.ts: verifyToolObservedStep, runLogicalStepsVerificationSync and
--                                     their asynchronous versions
--   Pipeline/RunState                 src/pipeline.ts: verifyRunStateFromEvents
--   PlanTransition                    src/planTransition.ts: the rules of a plan and what is aggregated of them
--   PlanTransition/NameStatus         src/planTransition.ts: parseGitNameStatusZ
--   VerificationDiagnostics/Summary   src/verificationDiagnostics.ts: formatVerificationTargetSummary
--   Js, Prelude                       JavaScript's texts, numbers and values; lists, sorting and integers
-- The other files hold descriptions apart from the code, which its definitions are compared with (Reconciler/Scalars and
-- Counting, ResolveExpectation/RowOf, RelationalInvariant/Verdict, VerificationPolicy/CheckWaiting and RowWaiting, and others),
-- and proofs; Tests holds runs on concrete inputs.
--
-- A name of the source becomes snake_case: reconcileSqlRow is reconcile_sql_row. A function that throws
-- returns an Option or a Result whose error is what is thrown. The database is a function from a statement
-- and its values to rows or an error. Asynchronous code is a function from the state of the outside world to
-- a result and the next state, with the clock, the wait and the reconcilers of the context as a record,
-- Environment; a Promise.all is run element by element. A string is the list of its UTF-16 code units. A
-- number is a dyadic fraction, an infinity or NaN, with one zero. An object of the source with free fields is
-- a list of fields in the order in which they are written; an evidence summary is one with an enumeration of
-- the keys that are written. Conversions between numbers and texts, lower-casing and localeCompare are built
-- in, and are a record, Runtime, that the definitions take. A sort by a comparison is an insertion sort.
--
-- A polling loop takes fuel, one unit for each round. A round waits for the interval, which is at least a
-- millisecond, so that fuel for more rounds than the window has milliseconds is enough if waiting moves the
-- clock on. The parser of the name-status output takes fuel, one more unit than the buffer has bytes, and reads at least a
-- byte in each round. Everything else is by structural recursion.
--
-- Not modelled: fields that a row inherits from Object.prototype, and the order in which JavaScript lists
-- keys that look like integers; a reconciler that rejects is a failure that is thrown on; the default timing; the
-- Postgres, MySQL and other connectors; the properties of Object.prototype that a JSON pointer could reach; the logging of a
-- step, the loading of events and of a registry, the report and the emitted form of a result; the state witnesses,
-- the command line, servers and signatures.
pub mod Prelude
pub mod Js
pub mod WireReasonCodes
pub mod Types
pub mod FailureCatalog
pub mod SqlDialect
pub mod ValueVerification
pub mod Reconciler
pub mod RelationalInvariant
pub mod MultiEffectRollup
pub mod VerificationPolicy
pub mod VerificationDiagnostics
pub mod Aggregate
pub mod Events
pub mod ResolveExpectation
pub mod VerificationRunContext
pub mod NoStepsMessage
pub mod PlanTransition
pub mod Pipeline
pub mod JsonPointer
pub mod Tests
