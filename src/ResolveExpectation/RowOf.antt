-- ===== src/ResolveExpectation/RowOf.antt =====
-- What a row specification asks of the parameters: the request that it resolves to, described one part at a time.
use agentskeptic.Prelude.{ℕ, ◌+◌, ◌≡◌, Bool, true, false, List, [], ◌∷◌, ◌++◌, Bool-cases, inl, inr}
use mathlib.Core.Path.{subst}
use mathlib.Core.List.{Perm}
use agentskeptic.Prelude.Sort.{sort-perm}
use agentskeptic.Js.{Text, Runtime, text, text_eq, Number}
use agentskeptic.Js.Json.{
  Json, Fields, undefined, null, boolean, number, string, array, object, other, no_fields, field,
}
use agentskeptic.Types.{Scalar, IdentityEqPair, VerificationRequest, ResolvedEffect}
use agentskeptic.Types.Registry.{RegistryEqualityPair, SqlRowVerificationSpec, EffectSpec}
use agentskeptic.JsonPointer.{get_pointer}
use agentskeptic.ResolveExpectation.Outcome.{
  Outcome, ok, refused, thrown, bind-ok, ok-injective, if-ok,
}
use agentskeptic.ResolveExpectation.Specs.{
  resolve_column, resolve_table_ident, resolve_key_value, is_ident,
}
use agentskeptic.ResolveExpectation.Rows.{
  column_le, relabelled, indexed, resolve_pair, resolve_pairs, resolve_registry_equality_list,
  field_scalar, assigned, proto, scalar_fields, object_found, object_at, check_key, not_scalar,
  resolve_sql_row_spec,
}
use agentskeptic.ResolveExpectation.Columns.{normalize-IsAscending}

-- A JSON value is a scalar.
pub data IsScalar : Json → Scalar → Type 0 where
  null_is : IsScalar null Scalar.null
  boolean_is : (b : Bool) → IsScalar (boolean b) (Scalar.boolean b)
  number_is : (n : Number) → IsScalar (number n) (Scalar.number n)
  string_is : (s : Text) → IsScalar (string s) (Scalar.string s)

-- The required fields are the fields of an object, in order, but one that is named `__proto__`.
pub data AreFieldsOf : Fields → List (Text × Scalar) → Type 0 where
  no_more : AreFieldsOf no_fields []
  kept :
      {k : Text} {v : Json} {s : Scalar} {fs : Fields} {out : List (Text × Scalar)}
      → text_eq k (text "__proto__") ≡ false
      → IsScalar v s
      → AreFieldsOf fs out
      → AreFieldsOf (field k v fs) ((k, s) ∷ out)
  left_out :
      {k : Text} {v : Json} {s : Scalar} {fs : Fields} {out : List (Text × Scalar)}
      → text_eq k (text "__proto__") ≡ true
      → IsScalar v s
      → AreFieldsOf fs out
      → AreFieldsOf (field k v fs) out

module _ (js : Runtime) (params : Json) where
  -- Each pair has the column and the value of its specification.
  abbrev pub ArePairsOf : List RegistryEqualityPair → List IdentityEqPair → Type 0
  ArePairsOf [] [] = Unit
  ArePairsOf (p ∷ ps) (q ∷ qs) =
      ((label : Text) × (resolve_column js params label p.column ≡ ok q.column))
      × (resolve_key_value js params p.value ≡ ok q.value)
      × ArePairsOf ps qs
  ArePairsOf _ _ = ⊥

  -- A request is what a row specification asks for.
  pub record IsRowOf (spec : SqlRowVerificationSpec) (r : VerificationRequest) : Type 0 where
    pub table : (label : Text) × (resolve_table_ident js params label spec.table ≡ ok r.table)
    pub identity :
        (pairs : List IdentityEqPair) × ArePairsOf spec.identity_eq pairs × Perm r.identity_eq pairs
    pub fields :
        (fs : Fields) × (get_pointer js params spec.required_fields ≡ ok (object fs))
        × AreFieldsOf fs r.required_fields

  relabelled-ok :
      {A : Type 0} (label : Text) (o : Outcome A) {a : A} → relabelled label o ≡ ok a → o ≡ ok a
  relabelled-ok label (ok a) h = h
  relabelled-ok label (refused code m) h = cc h
  relabelled-ok label (thrown m) h = cc h

  pairs-ArePairsOf :
      (name : Text) (i : ℕ) (specs : List RegistryEqualityPair) {out : List IdentityEqPair}
      → resolve_pairs js params ok name i specs ≡ ok out
      → ArePairsOf specs out
  unfolding resolve_pairs resolve_pair
  pairs-ArePairsOf name i [] h = subst (ArePairsOf []) (ok-injective h) tt
  pairs-ArePairsOf name i (p ∷ ps) h =
      let (q, pq, h1) = bind-ok (resolve_pair js params ok (indexed js params name i) p) _ h in
      let (qs, pqs, h2) = bind-ok (resolve_pairs js params ok name (i + 1) ps) _ h1 in
      let (c, pc, g1) =
        bind-ok (resolve_column js params (indexed js params name i ++ text ".column") p.column) _
          pq in
      let (v, pv, g2) =
        bind-ok
          (relabelled (indexed js params name i ++ text ". ") (resolve_key_value js params p.value))
          _ g1 in
      subst (ArePairsOf (p ∷ ps)) (ok-injective h2) (
        subst (λ (x : IdentityEqPair). ArePairsOf (p ∷ ps) (x ∷ qs)) (ok-injective g2)
          ((_, pc), relabelled-ok _ _ pv, pairs-ArePairsOf name (i + 1) ps pqs))

  scalar-IsScalar :
      (name wrong : Text) (v : Json) {s : Scalar}
      → field_scalar js params name wrong v ≡ ok s
      → IsScalar v s
  scalar-IsScalar name wrong undefined h = cc h
  scalar-IsScalar name wrong null h = subst (IsScalar null) (ok-injective h) null_is
  scalar-IsScalar name wrong (boolean b) h =
      subst (IsScalar (boolean b)) (ok-injective h) (boolean_is b)
  scalar-IsScalar name wrong (number n) h =
      subst (IsScalar (number n)) (ok-injective h) (number_is n)
  scalar-IsScalar name wrong (string s) h =
      subst (IsScalar (string s)) (ok-injective h) (string_is s)
  scalar-IsScalar name wrong (array xs) h = cc h
  scalar-IsScalar name wrong (object fs) h = cc h
  scalar-IsScalar name wrong (other kind shown) h = cc h

  assigned-AreFieldsOf :
      (k : Text) (v : Json) (s : Scalar) (fs : Fields) (out : List (Text × Scalar))
      → IsScalar v s
      → AreFieldsOf fs out
      → AreFieldsOf (field k v fs) (assigned js params k s out)
  assigned-AreFieldsOf k v s fs out h rest = elim (Bool-cases (text_eq k proto)) [
    | inl e ↦ rw e (left_out e h rest)
    | inr e ↦ rw e (kept e h rest)
  ]

  fields-AreFieldsOf :
      (label name wrong : Text) (fs : Fields) {out : List (Text × Scalar)}
      → scalar_fields js params (check_key js params label) name wrong fs ≡ ok out
      → AreFieldsOf fs out
  unfolding scalar_fields
  fields-AreFieldsOf label name wrong no_fields h =
      subst (AreFieldsOf no_fields) (ok-injective h) no_more
  fields-AreFieldsOf label name wrong (field k v fs) h =
      let (key, pk, h1) = bind-ok (check_key js params label k) _ h in
      let (s, ps, h2) = bind-ok (field_scalar js params (name ++ text "." ++ k) wrong v) _ h1 in
      let (rest, pr, h3) =
        bind-ok (scalar_fields js params (check_key js params label) name wrong fs) _ h2 in
      let (t, same) = if-ok (is_ident k) k _ _ pk in
      subst (AreFieldsOf (field k v fs)) (ok-injective h3) (
        subst (λ x. AreFieldsOf (field k v fs) (assigned js params x s rest)) same
          (assigned-AreFieldsOf k v s fs rest (scalar-IsScalar _ wrong v ps)
            (fields-AreFieldsOf label name wrong fs pr)))

  found-object :
      (name ptr : Text) (got : Json) {fs : Fields}
      → object_found js params name ptr got ≡ ok fs
      → got ≡ object fs
  found-object name ptr undefined h = cc h
  found-object name ptr null h = cc h
  found-object name ptr (boolean b) h = cc h
  found-object name ptr (number n) h = cc h
  found-object name ptr (string s) h = cc h
  found-object name ptr (array xs) h = cc h
  found-object name ptr (object fs) h = cc h
  found-object name ptr (other kind shown) h = cc h

  object_at-object :
      (name ptr : Text) {fs : Fields}
      → object_at js params name ptr ≡ ok fs
      → get_pointer js params ptr ≡ ok (object fs)
  unfolding object_at
  object_at-object name ptr h =
      let (got, p, q) = bind-ok (get_pointer js params ptr) _ h in
      rw (found-object name ptr got q) at p

  -- A row specification that resolves gives the request that it asks for.
  pub resolve_row-IsRowOf :
      (label : Text) (spec : SqlRowVerificationSpec) {r : VerificationRequest}
      → resolve_sql_row_spec js params label spec ≡ ok r
      → IsRowOf spec r
  unfolding resolve_sql_row_spec resolve_registry_equality_list
  resolve_row-IsRowOf label spec h =
      let (t, pt, h1) =
        bind-ok (resolve_table_ident js params (label ++ text "table") spec.table) _ h in
      let (identity, pi, h2) =
        bind-ok (resolve_registry_equality_list js params label spec.identity_eq) _ h1 in
      let (raw, pr, h3) =
        bind-ok (object_at js params (label ++ text "requiredFields") spec.required_fields) _ h2 in
      let (fields, pf, h4) =
        bind-ok
          (scalar_fields js params (check_key js params label) (label ++ text "requiredFields")
            (not_scalar js params) raw)
          _ h3 in
      let (pairs, pp, ps) =
        bind-ok (resolve_pairs js params ok (label ++ text "identityEq") 0 spec.identity_eq) _ pi in
      subst (IsRowOf spec) (ok-injective h4) (record {
        table = (_, pt);
        identity = (
          pairs,
          pairs-ArePairsOf _ 0 spec.identity_eq pp,
          subst (λ l. Perm l pairs) (normalize-IsAscending label pairs ps).1
              (sort-perm column_le pairs),
        );
        fields = (
          raw,
          object_at-object _ spec.required_fields pr,
          fields-AreFieldsOf label _ (not_scalar js params) raw pf,
        );
      })

  -- The effects are those of the list, one each: with its id, and the request that its row specification asks for.
  abbrev pub AreEffectsOf : List EffectSpec → List ResolvedEffect → Type 0
  AreEffectsOf [] [] = Unit
  AreEffectsOf (item ∷ items) (e ∷ es) =
      (e.id ≡ item.id) × IsRowOf item.spec e.request × AreEffectsOf items es
  AreEffectsOf _ _ = ⊥
