-- ===== src/RelationalInvariant/Outcome.antt =====
-- The verdict of a relational check: when it passes, when it reports a missing row, and that it gives
-- reasons exactly when it does not pass.
use agentskeptic.Prelude.{
  ◌≡◌, refl, true, false, Option, none, some, List, arith, Bool-cases, inl, inr, ap,
}
use mathlib.Core.Option.{some-injective}
use agentskeptic.Js.{Text, Number, Value, Row, Runtime, nat, number_eq}
use agentskeptic.Types.{ResolvedRelationalCheck, related_exists, aggregate, join_count, anti_join}
use agentskeptic.SqlDialect.{SqlRowDialect}
use agentskeptic.Reconciler.{ReconcileOutput, Answer, returned, thrown}
use agentskeptic.Reconciler.Outcome.{is_proper, is_verified}
use agentskeptic.RelationalInvariant.{
  scalar_of, verdict, exists_verdict, unusable, wants_samples, reconcile_relational_row,
  relational_error, sampled, with_samples, settle_scalar, send_scalar, Statement,
  reconcile_relational_query, build_relational_scalar_sql,
}

module _ (js : Runtime) where
  exists_parts :
      (check : ResolvedRelationalCheck) (raw : Value) (o : Option Number)
      → (is_proper (exists_verdict js check raw o) ≡ true)
        × (is_verified (exists_verdict js check raw o).status
            ≡ (elim o [ none ↦ false | some n ↦ number_eq n (nat 1) ]))
  unfolding unusable
  exists_parts check raw none = (refl, refl)
  exists_parts check raw (some n) = ground arith

  verdict-proper :
      (check : ResolvedRelationalCheck) (raw : Value) → is_proper (verdict js check raw) ≡ true
  unfolding unusable
  verdict-proper (related_exists c) raw = ground arith
  verdict-proper (anti_join c) raw = ground arith
  verdict-proper (aggregate c) raw = ground arith
  verdict-proper (join_count c) raw = ground arith

module _ (js : Runtime) {E : Type 0} (dialect : SqlRowDialect)
    (query : Text → List Text → E → Answer × E) where
  sampled-proper :
      (check : ResolvedRelationalCheck) (out : ReconcileOutput) (a : Answer)
      → is_proper out ≡ true
      → is_proper (sampled js dialect query check out a) ≡ true
  unfolding sampled
  sampled-proper check out (returned rows) h = h
  sampled-proper check out (thrown m) h = refl

  with_samples-proper :
      (check : ResolvedRelationalCheck) (out : ReconcileOutput) (e : E)
      → is_proper out ≡ true
      → is_proper (with_samples js dialect query check out e).0 ≡ true
  unfolding with_samples
  with_samples-proper (related_exists c) out e h = h
  with_samples-proper (aggregate c) out e h = h
  with_samples-proper (join_count c) out e h = h
  with_samples-proper (anti_join c) out e h = elim (Bool-cases (wants_samples js out)) [
    | inl w ↦ rw (w, with_samples) (sampled-proper (anti_join c) out _ h)
    | inr w ↦ rw (w, with_samples) h
  ]

  row-proper :
      (o : Option Row) (check : ResolvedRelationalCheck)
      → is_proper (reconcile_relational_row js o check) ≡ true
  unfolding reconcile_relational_row
  row-proper none check = refl
  row-proper (some row) check = verdict-proper js check (scalar_of row)

  settle-proper :
      (check : ResolvedRelationalCheck) (a : Answer) (e : E)
      → is_proper (settle_scalar js dialect query check a e).0 ≡ true
  unfolding settle_scalar relational_error
  settle-proper check (returned rows) e = with_samples-proper check _ e (row-proper _ check)
  settle-proper check (thrown m) e = refl

  send-proper :
      (check : ResolvedRelationalCheck) (s : Option Statement) (e : E) {out : ReconcileOutput}
      {e' : E}
      → send_scalar js dialect query check s e ≡ some (out, e')
      → is_proper out ≡ true
  send-proper check none e h = cc
  send-proper check (some (statement, values)) e {out} {e'} h =
      let sent = query statement values e in
      let settled = settle_scalar js dialect query check sent.0 sent.1 in
      let p : settled ≡ (out, e') = some-injective _ _ h in
      rw (ap (λ (r : ReconcileOutput × E). is_proper r.0) p) at (settle-proper check sent.0 sent.1)

-- Whatever the statements of a relational check return or throw, its output gives reasons exactly when
-- it is not verified, and is never partially verified or uncertain.
pub relational_query-proper :
    (js : Runtime) {E : Type 0} (dialect : SqlRowDialect)
    (query : Text → List Text → E → Answer × E) (check : ResolvedRelationalCheck) (e : E)
    {out : ReconcileOutput} {e' : E}
    → reconcile_relational_query js dialect query check e ≡ some (out, e')
    → is_proper out ≡ true
unfolding reconcile_relational_query
relational_query-proper js dialect query check e h =
    send-proper js dialect query check (build_relational_scalar_sql js dialect check) e h
