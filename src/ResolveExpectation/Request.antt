-- ===== src/ResolveExpectation/Request.antt =====
-- resolveExpectation.ts: `resolveVerificationRequest`, and the registry by tool.
use agentskeptic.Prelude.{
  Bool, true, false, Option, none, some, List, [], ◌∷◌, ◌++◌, any, if◌then◌else◌,
}
use agentskeptic.Prelude.Sort.{sort}
use agentskeptic.Js.{Text, Runtime, text, text_eq}
use agentskeptic.Js.Json.{Json}
use agentskeptic.WireReasonCodes.{RegistryResolverCode}
use agentskeptic.Types.{
  ResolvedEffect, ResolvedRelationalCheck, check_id, vector_document, object_storage_object,
  http_witness, mongo_document,
}
use agentskeptic.Types.Registry.{
  EffectSpec, SqlRelationalCheckSpec, spec_id, ToolRegistryVerification, ToolRegistryEntry,
}
use agentskeptic.Reconciler.{utf16_le}
use agentskeptic.VerificationPolicy.Execute.{
  Resolved, sql_row, sql_row_absent, sql_effects, sql_relational, state_witness,
}
use agentskeptic.ResolveExpectation.Outcome.{Outcome, ok, refused, thrown, ◌>>=◌}
use agentskeptic.ResolveExpectation.Rows.{resolve_sql_row_spec, resolve_sql_row_absent_spec}
use agentskeptic.ResolveExpectation.Relational.{resolve_sql_relational_check}
use agentskeptic.ResolveExpectation.Witness.{
  resolve_vector_document_spec, resolve_object_storage_spec, resolve_http_witness_spec,
  resolve_mongo_document_spec,
}

-- `VerificationDatabase["kind"]`.
pub data DatabaseKind : Type 0 where
  sqlite postgres mysql bigquery sqlserver : DatabaseKind

abbrev pub is_big_query : Option DatabaseKind → Bool
is_big_query (some DatabaseKind.bigquery) = true
is_big_query _ = false

abbrev pub seen_before : Text → List Text → Bool
seen_before id seen = any (λ (s : Text). text_eq s id) seen

abbrev pub effect_le : ResolvedEffect → ResolvedEffect → Bool
effect_le a b = utf16_le a.id b.id

abbrev pub relational_le : ResolvedRelationalCheck → ResolvedRelationalCheck → Bool
relational_le a b = utf16_le (check_id a) (check_id b)

-- `if (seen.has(id)) return …`.
abbrev pub new_id : List Text → Text → Outcome Text
new_id seen id =
    if seen_before id seen
    then refused RegistryResolverCode.duplicate_effect_id
        (text "Duplicate effect id in registry: " ++ id)
    else ok id

module _ (js : Runtime) (params : Json) where
  unfoldable pub resolve_effects : List Text → List EffectSpec → Outcome (List ResolvedEffect)
  resolve_effects seen [] = ok []
  resolve_effects seen (item ∷ items) = do
    id ← new_id seen item.id
    request ← resolve_sql_row_spec js params (text "effects[" ++ id ++ text "].") item.spec
    rest ← resolve_effects (id ∷ seen) items
    ok (record { id = id; request = request } ∷ rest)

  unfoldable pub resolve_checks :
      List Text → List SqlRelationalCheckSpec → Outcome (List ResolvedRelationalCheck)
  resolve_checks seen [] = ok []
  resolve_checks seen (item ∷ items) = do
    id ← new_id seen (spec_id item)
    check ← resolve_sql_relational_check js params (text "checks[" ++ id ++ text "].") item
    rest ← resolve_checks (id ∷ seen) items
    ok (check ∷ rest)

  unfoldable pub resolve_relational : Bool → List SqlRelationalCheckSpec → Outcome Resolved
  unfolding resolve_checks
  resolve_relational true items = refused RegistryResolverCode.relational_unsupported_dialect (
      text
        "sql_relational is not supported for BigQuery verification targets (row checks only in v1)")
  resolve_relational false items = do
    checks ← resolve_checks [] items
    ok (sql_relational (sort relational_le checks))

  abbrev pub resolve_verification :
      Option DatabaseKind → ToolRegistryVerification → Outcome Resolved
  resolve_verification target (ToolRegistryVerification.sql_row spec) = do
    request ← resolve_sql_row_spec js params [] spec
    ok (sql_row request)
  resolve_verification target (ToolRegistryVerification.sql_row_absent spec) = do
    request ← resolve_sql_row_absent_spec js params [] spec
    ok (sql_row_absent request)
  resolve_verification target (ToolRegistryVerification.vector_document spec) = do
    request ← resolve_vector_document_spec js params [] spec
    ok (state_witness (vector_document request))
  resolve_verification target (ToolRegistryVerification.object_storage_object spec) = do
    request ← resolve_object_storage_spec js params [] spec
    ok (state_witness (object_storage_object request))
  resolve_verification target (ToolRegistryVerification.http_witness spec) = do
    request ← resolve_http_witness_spec js params [] spec
    ok (state_witness (http_witness request))
  resolve_verification target (ToolRegistryVerification.mongo_document spec) = do
    request ← resolve_mongo_document_spec js params [] spec
    ok (state_witness (mongo_document request))
  resolve_verification target (ToolRegistryVerification.sql_relational items) =
      resolve_relational (is_big_query target) items
  resolve_verification target (ToolRegistryVerification.sql_effects items) = do
    effects ← resolve_effects [] items
    ok (sql_effects (sort effect_le effects))

  unfoldable pub resolve_verification_request :
      ToolRegistryEntry → Option DatabaseKind → Outcome Resolved
  unfolding resolve_relational resolve_effects
  resolve_verification_request entry target = resolve_verification target entry.verification

-- `Map<string, ToolRegistryEntry>`.
abbrev pub Registry : Type 0
Registry = List (Text × ToolRegistryEntry)

-- `registry.get(toolId)`, and whether there is one.
unfoldable pub find_tool : Text → Registry → Option ToolRegistryEntry
find_tool id [] = none
find_tool id ((k, e) ∷ m) = let rest = find_tool id m in if text_eq k id then some e else rest

abbrev pub is_some {ℓ} : {A : Type ℓ} → Option A → Bool
is_some none = false
is_some (some a) = true

-- The loop of `buildRegistryMap`. A duplicate is thrown as a `TruthLayerError` with this message.
unfoldable pub add_entries : Registry → List ToolRegistryEntry → Outcome Registry
unfolding find_tool
add_entries m [] = ok m
add_entries m (e ∷ es) =
    let rest = add_entries (m ++ (e.tool_id, e) ∷ []) es in
    if is_some (find_tool e.tool_id m)
    then thrown (text "Duplicate toolId in registry: " ++ e.tool_id)
    else rest

unfoldable pub build_registry_map : List ToolRegistryEntry → Outcome Registry
unfolding add_entries
build_registry_map entries = add_entries [] entries
