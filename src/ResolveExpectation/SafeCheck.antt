-- ===== src/ResolveExpectation/SafeCheck.antt =====
-- The whole requests that the resolver lets through.
use agentskeptic.Prelude.{◌≡◌, Bool, true, false, Option, List, [], ◌∷◌, ◌++◌, All}
use mathlib.Core.Path.{subst}
use agentskeptic.Prelude.Sort.{sort-All}
use agentskeptic.Js.{Text, Runtime, text}
use agentskeptic.Js.Json.{Json}
use agentskeptic.Types.{ResolvedEffect}
use agentskeptic.Types.Registry.{
  SqlRelationalCheckSpec, EffectSpec, ToolRegistryVerification, ToolRegistryEntry,
}
use agentskeptic.VerificationPolicy.Execute.{
  Resolved, sql_row, sql_row_absent, sql_effects, sql_relational, state_witness,
}
use agentskeptic.ResolveExpectation.Outcome.{ok, bind-ok, ok-injective}
use agentskeptic.ResolveExpectation.Rows.{resolve_sql_row_spec, resolve_sql_row_absent_spec}
use agentskeptic.ResolveExpectation.Request.{
  DatabaseKind, is_big_query, effect_le, relational_le, new_id, resolve_effects, resolve_checks,
  resolve_relational, resolve_verification, resolve_verification_request,
}
use agentskeptic.ResolveExpectation.Safe.{
  IsSafeRow, IsSafeAbsent, IsSafeCheck, row-IsSafe, absent-IsSafe,
}
use agentskeptic.ResolveExpectation.Witness.{
  resolve_vector_document_spec, resolve_object_storage_spec, resolve_http_witness_spec,
  resolve_mongo_document_spec,
}
use agentskeptic.ResolveExpectation.SafeRelational.{checks-IsSafe}

abbrev pub IsSafeEffect : ResolvedEffect → Type 0
IsSafeEffect e = IsSafeRow e.request

-- What a resolved request must be; the requests to other stores hold no SQL names.
abbrev pub IsSafe : Resolved → Type 0
IsSafe (sql_row req) = IsSafeRow req
IsSafe (sql_row_absent req) = IsSafeAbsent req
IsSafe (sql_effects es) = All IsSafeEffect es
IsSafe (sql_relational cs) = All IsSafeCheck cs
IsSafe (state_witness req) = Unit

module _ (js : Runtime) (params : Json) where
  effects-IsSafe :
      (seen : List Text) (specs : List EffectSpec) {out : List ResolvedEffect}
      → resolve_effects js params seen specs ≡ ok out
      → All IsSafeEffect out
  unfolding resolve_effects
  effects-IsSafe seen [] h = subst (All IsSafeEffect) (ok-injective h) tt
  effects-IsSafe seen (item ∷ items) h =
      let (id, p1, h1) = bind-ok (new_id seen item.id) _ h in
      let (request, p2, h2) =
        bind-ok (resolve_sql_row_spec js params (text "effects[" ++ id ++ text "].") item.spec) _
          h1 in
      let (rest, p3, h3) = bind-ok (resolve_effects js params (id ∷ seen) items) _ h2 in
      subst (All IsSafeEffect) (ok-injective h3)
        (row-IsSafe js params _ item.spec p2, effects-IsSafe (id ∷ seen) items p3)

  relational-IsSafe :
      (big_query : Bool) (items : List SqlRelationalCheckSpec) {out : Resolved}
      → resolve_relational js params big_query items ≡ ok out
      → IsSafe out
  unfolding resolve_relational
  relational-IsSafe true items h = cc h
  relational-IsSafe false items h =
      let (checks, p, q) = bind-ok (resolve_checks js params [] items) _ h in
      subst IsSafe (ok-injective q)
        (sort-All relational_le IsSafeCheck checks (checks-IsSafe js params [] items p))

  request-IsSafe :
      (v : ToolRegistryVerification) (target : Option DatabaseKind) {out : Resolved}
      → resolve_verification js params target v ≡ ok out
      → IsSafe out
  request-IsSafe (ToolRegistryVerification.sql_row spec) target h =
      let (r, p, q) = bind-ok (resolve_sql_row_spec js params [] spec) _ h in
      subst IsSafe (ok-injective q) (row-IsSafe js params [] spec p)
  request-IsSafe (ToolRegistryVerification.sql_row_absent spec) target h =
      let (r, p, q) = bind-ok (resolve_sql_row_absent_spec js params [] spec) _ h in
      subst IsSafe (ok-injective q) (absent-IsSafe js params [] spec p)
  request-IsSafe (ToolRegistryVerification.sql_effects items) target h =
      let (es, p, q) = bind-ok (resolve_effects js params [] items) _ h in
      subst IsSafe (ok-injective q) (sort-All effect_le IsSafeEffect es (effects-IsSafe [] items p))
  request-IsSafe (ToolRegistryVerification.sql_relational items) target h =
      relational-IsSafe (is_big_query target) items h
  request-IsSafe (ToolRegistryVerification.vector_document spec) target h =
      let (r, p, q) = bind-ok (resolve_vector_document_spec js params [] spec) _ h in
      subst IsSafe (ok-injective q) tt
  request-IsSafe (ToolRegistryVerification.object_storage_object spec) target h =
      let (r, p, q) = bind-ok (resolve_object_storage_spec js params [] spec) _ h in
      subst IsSafe (ok-injective q) tt
  request-IsSafe (ToolRegistryVerification.http_witness spec) target h =
      let (r, p, q) = bind-ok (resolve_http_witness_spec js params [] spec) _ h in
      subst IsSafe (ok-injective q) tt
  request-IsSafe (ToolRegistryVerification.mongo_document spec) target h =
      let (r, p, q) = bind-ok (resolve_mongo_document_spec js params [] spec) _ h in
      subst IsSafe (ok-injective q) tt

pub resolve-IsSafe :
    (js : Runtime) (params : Json) (entry : ToolRegistryEntry) (target : Option DatabaseKind)
    {resolved : Resolved}
    → resolve_verification_request js params entry target ≡ ok resolved
    → IsSafe resolved
unfolding resolve_verification_request
resolve-IsSafe js params entry target h = request-IsSafe js params entry.verification target h
