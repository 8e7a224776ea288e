-- ===== src/VerificationDiagnostics/Summary.antt =====
-- verificationDiagnostics.ts: the summary of a request for people.
use agentskeptic.Prelude.{
  ℕ, zero, suc, ◌≤◌, Bool, Option, none, some, List, [], ◌∷◌, ◌++◌, map, length, length-append,
  take, ltb, ◌==◌, if◌then◌else◌, Bool-cases, inl, inr, arith,
}
use agentskeptic.Prelude.Sort.{sort}
use agentskeptic.Js.{Text, Runtime, text, nat, join, trim}
use agentskeptic.Types.{
  VerificationRequest, RowAbsentVerificationRequest, IdentityEqPair, Scalar, EffectPayload,
  ResolvedRelationalCheck, related_exists, aggregate, join_count, anti_join, check_id,
  VectorProvider, HttpMethod, StateWitnessRequest, vector_document, object_storage_object,
  http_witness, mongo_document, StepVerificationRequest,
}
use agentskeptic.FailureCatalog.{
  operational_message_max_chars, squeeze, limit, format_operational_message,
}
use agentskeptic.FailureCatalog.Message.{format-IsOneLine}
use agentskeptic.Reconciler.{utf16_le}

-- `/\r\n|\r|\n/g` becomes a space.
abbrev if_feed : Text → Text → Text
if_feed [] rest = 32 ∷ rest
if_feed (c ∷ s) rest = 32 ∷ rest

unfoldable pub unbreak_lines : Text → Text
unbreak_lines [] = []
unbreak_lines (c ∷ []) = (if c == 13 then 32 else if c == 10 then 32 else c) ∷ []
unbreak_lines (c ∷ d ∷ s) =
    let pair = unbreak_lines s in
    let rest = unbreak_lines (d ∷ s) in
    if c == 13
    then if d == 10 then 32 ∷ pair else 32 ∷ rest
    else if c == 10
    then 32 ∷ rest
    else c ∷ rest

unfoldable pub sanitize_one_line : Text → Text
unfolding unbreak_lines squeeze trim format_operational_message
sanitize_one_line value = format_operational_message (trim (squeeze (unbreak_lines value)))

abbrev column_le : IdentityEqPair → IdentityEqPair → Bool
column_le a b = utf16_le a.column b.column

unfoldable pub identity_eq_one_line : List IdentityEqPair → Text
unfolding sanitize_one_line
identity_eq_one_line pairs = join (text ", ") (
    map
      (λ (p : IdentityEqPair). sanitize_one_line p.column ++ text "=" ++ sanitize_one_line p.value)
      (sort column_le pairs))

abbrev provider_text : VectorProvider → Text
provider_text VectorProvider.pinecone = text "pinecone"
provider_text VectorProvider.weaviate = text "weaviate"
provider_text VectorProvider.chroma = text "chroma"

abbrev method_text : HttpMethod → Text
method_text HttpMethod.get = text "GET"
method_text HttpMethod.post = text "POST"

module _ (js : Runtime) where
  unfoldable pub field_names_sorted : List (Text × Scalar) → Text
  field_names_sorted fields =
      join (text ", ") (sort js.locale_le (map (λ (f : Text × Scalar). f.0) fields))

  -- A relational check, with the number of the pairs that it matches when they are several.
  abbrev check_part : ResolvedRelationalCheck → Text
  check_part (related_exists c) =
      let short = c.id ++ text ":" ++ sanitize_one_line (text "related_exists") in
      if ltb 1 (length c.match_eq)
      then short ++ text ":m" ++ js.number_text (nat (length c.match_eq))
      else short
  check_part (aggregate c) = c.id ++ text ":" ++ sanitize_one_line (text "aggregate")
  check_part (join_count c) = c.id ++ text ":" ++ sanitize_one_line (text "join_count")
  check_part (anti_join c) = c.id ++ text ":" ++ sanitize_one_line (text "anti_join")

  abbrev effect_part : EffectPayload → Text
  effect_part e =
      e.id
      ++ text ":"
      ++ sanitize_one_line e.table
      ++ text " identity=["
      ++ identity_eq_one_line e.identity_eq
      ++ text "]"

  abbrev witness_summary : StateWitnessRequest → Text
  witness_summary (vector_document r) =
      text "vector_document provider="
      ++ provider_text r.provider
      ++ text " index="
      ++ sanitize_one_line r.index_name
      ++ text " id="
      ++ sanitize_one_line r.document_id
  witness_summary (object_storage_object r) =
      text "object_storage bucket="
      ++ sanitize_one_line r.bucket
      ++ text " key="
      ++ sanitize_one_line r.key
  witness_summary (http_witness r) =
      text "http_witness "
      ++ method_text r.method
      ++ text " "
      ++ sanitize_one_line r.url
      ++ text " expect="
      ++ js.number_text r.expected_status
  witness_summary (mongo_document r) =
      text "mongo_document collection=" ++ sanitize_one_line r.collection

  abbrev row_line : VerificationRequest → Text
  row_line r =
      text "table="
      ++ sanitize_one_line r.table
      ++ text " identity=["
      ++ identity_eq_one_line r.identity_eq
      ++ text "] required_fields=["
      ++ field_names_sorted r.required_fields
      ++ text "]"

  abbrev absent_line : RowAbsentVerificationRequest → Text
  absent_line r =
      text "sql_row_absent table="
      ++ sanitize_one_line r.table
      ++ text " identity=["
      ++ identity_eq_one_line r.identity_eq
      ++ text "] filter=["
      ++ identity_eq_one_line r.filter_eq
      ++ text "]"

  abbrev relational_line : List ResolvedRelationalCheck → Text
  relational_line checks =
      text "sql_relational count="
      ++ js.number_text (nat (length checks))
      ++ text " "
      ++ join (text "; ") (map check_part (sort (λ a b. utf16_le (check_id a) (check_id b)) checks))

  abbrev effects_line : List EffectPayload → Text
  effects_line effects =
      text "sql_effects count="
      ++ js.number_text (nat (length effects))
      ++ text " "
      ++ join (text "; ") (
          map effect_part
            (sort (λ (a : EffectPayload) (b : EffectPayload). utf16_le a.id b.id) effects))

  unfoldable pub format_verification_target_summary : StepVerificationRequest → Option Text
  unfolding field_names_sorted identity_eq_one_line limit
  format_verification_target_summary StepVerificationRequest.none = none
  format_verification_target_summary (StepVerificationRequest.sql_row r) =
      some (format_operational_message (row_line r))
  format_verification_target_summary (StepVerificationRequest.sql_row_absent r) =
      some (format_operational_message (absent_line r))
  format_verification_target_summary (StepVerificationRequest.sql_relational checks) =
      some (limit (relational_line checks))
  format_verification_target_summary (StepVerificationRequest.sql_effects effects) =
      some (limit (effects_line effects))
  format_verification_target_summary (StepVerificationRequest.state_witness r) =
      some (format_operational_message (witness_summary r))

-- The cut of a message is short.
take-length : (n : ℕ) (s : Text) → length (take n s) ≤ n
take-length zero s = omega arith
take-length (suc n) [] = omega arith
take-length (suc n) (c ∷ s) = omega (arith, take-length n s)

limit-short : (s : Text) → length (limit s) ≤ operational_message_max_chars
unfolding limit text
limit-short s = elim (Bool-cases (ltb operational_message_max_chars (length s))) [
  | inl e ↦
      rw e (omega (arith, length-append (take 2045 s) (46 ∷ 46 ∷ 46 ∷ []), take-length 2045 s))
  | inr e ↦ rw e (ground arith)
]

-- No longer than a message may be.
abbrev pub IsShort : Option Text → Type 0
IsShort none = Unit
IsShort (some s) = length s ≤ operational_message_max_chars

-- The summary of every request has at most 2048 code units, however many checks or effects it lists and whatever they hold.
pub summary-IsShort :
    (js : Runtime) (request : StepVerificationRequest)
    → IsShort (format_verification_target_summary js request)
unfolding format_verification_target_summary
summary-IsShort js StepVerificationRequest.none = tt
summary-IsShort js (StepVerificationRequest.sql_row r) = (format-IsOneLine (row_line js r)).short
summary-IsShort js (StepVerificationRequest.sql_row_absent r) =
    (format-IsOneLine (absent_line js r)).short
summary-IsShort js (StepVerificationRequest.sql_relational checks) =
    limit-short (relational_line js checks)
summary-IsShort js (StepVerificationRequest.sql_effects effects) =
    limit-short (effects_line js effects)
summary-IsShort js (StepVerificationRequest.state_witness r) =
    (format-IsOneLine (witness_summary js r)).short
