-- ===== src/ResolveExpectation/Witness.antt =====
-- resolveExpectation.ts: the expectations of state outside SQL databases.
use agentskeptic.Prelude.{ℕ, ◌+◌, not, ◌||◌, Option, none, some, List, [], ◌∷◌, ◌++◌, if◌then◌else◌}
use agentskeptic.Js.{Text, Number, Runtime, text, nat, is_integer, number_lt}
use agentskeptic.Js.Json.{Json}
use agentskeptic.WireReasonCodes.{RegistryResolverCode}
use agentskeptic.Types.{
  Scalar, HttpMethod, get, VectorDocumentVerificationRequest, ObjectStorageVerificationRequest,
  HttpWitnessResolvedAssertion, HttpWitnessVerificationRequest, MongoDocumentVerificationRequest,
}
use agentskeptic.Types.Registry.{
  RegistryStringSpec, RegistryNumberOrPointerSpec, VectorDocumentVerificationSpec,
  ObjectStorageVerificationSpec, HttpWitnessAssertionSpec, HttpWitnessVerificationSpec,
  MongoDocumentVerificationSpec,
}
use agentskeptic.ResolveExpectation.Outcome.{Outcome, ok, refused, ◌>>=◌}
use agentskeptic.ResolveExpectation.Specs.{
  resolve_string_spec, resolve_number_or_pointer, resolve_scalar_or_pointer_for_assertion,
}
use agentskeptic.ResolveExpectation.Rows.{list_or_empty, indexed, object_at, scalar_fields}

-- `if (spec.x !== undefined) { … }`.
abbrev pub if_given {ℓ κ} :
    {A : Type ℓ} {B : Type κ} → (A → Outcome B) → Option A → Outcome (Option B)
if_given f none = ok none
if_given f (some a) = do b ← f a; ok (some b)

module _ (js : Runtime) (params : Json) (label : Text) where
  abbrev pub string_at : Text → RegistryStringSpec → Outcome Text
  string_at name = resolve_string_spec js params (label ++ name)

  unfoldable pub resolve_metadata_subset_at_pointer : Text → Outcome (List (Text × Scalar))
  unfolding object_at scalar_fields
  resolve_metadata_subset_at_pointer ptr = do
    raw ← object_at js params (label ++ text "metadataEq") ptr
    scalar_fields js params ok (label ++ text "metadataEq") (text " must be scalar") raw

  unfoldable pub resolve_vector_document_spec :
      VectorDocumentVerificationSpec → Outcome VectorDocumentVerificationRequest
  unfolding resolve_metadata_subset_at_pointer
  resolve_vector_document_spec spec = do
    doc ← string_at (text "documentId") spec.document_id
    index ← string_at (text "indexName") spec.index_name
    ns ← if_given (string_at (text "namespace")) spec.namespace
    host ← if_given (string_at (text "host")) spec.host
    metadata ← if_given resolve_metadata_subset_at_pointer spec.metadata_eq
    sha ← if_given (string_at (text "expectPayloadSha256")) spec.expect_payload_sha256
    ok (record {
      provider = spec.provider;
      document_id = doc;
      index_name = index;
      namespace = ns;
      host = host;
      metadata_subset = metadata;
      expect_payload_sha256 = sha;
    })

  abbrev pub checked_size : Number → Outcome Number
  checked_size n =
      if not (is_integer n) || number_lt n (nat 0)
      then refused RegistryResolverCode.key_value_spec_invalid
          (label ++ text "expectSizeBytes must be non-negative integer")
      else ok n

  abbrev pub size_at : RegistryNumberOrPointerSpec → Outcome Number
  size_at spec = do
    n ← resolve_number_or_pointer js params (label ++ text "expectSizeBytes") spec
    checked_size n

  unfoldable pub resolve_object_storage_spec :
      ObjectStorageVerificationSpec → Outcome ObjectStorageVerificationRequest
  resolve_object_storage_spec spec = do
    bucket ← string_at (text "bucket") spec.bucket
    key ← string_at (text "key") spec.key
    endpoint ← if_given (string_at (text "endpoint")) spec.endpoint
    size ← if_given size_at spec.expect_size_bytes
    sha ← if_given (string_at (text "expectSha256")) spec.expect_sha256
    etag ← if_given (string_at (text "expectEtag")) spec.expect_etag
    ok (record {
      bucket = bucket;
      key = key;
      endpoint = endpoint;
      expect_size_bytes = size;
      expect_sha256 = sha;
      expect_etag = etag;
    })

  abbrev pub method_or_get : Option HttpMethod → HttpMethod
  method_or_get none = get
  method_or_get (some m) = m

  abbrev pub status_at : Option RegistryNumberOrPointerSpec → Outcome Number
  status_at none = ok (nat 200)
  status_at (some spec) = resolve_number_or_pointer js params (label ++ text "expectedStatus") spec

  abbrev pub checked_status : Number → Outcome Number
  checked_status n =
      if not (is_integer n) || number_lt n (nat 100) || number_lt (nat 599) n
      then refused RegistryResolverCode.key_value_spec_invalid
          (label ++ text "expectedStatus must be HTTP status 100–599")
      else ok n

  unfoldable pub resolve_assertions :
      ℕ → List HttpWitnessAssertionSpec → Outcome (List HttpWitnessResolvedAssertion)
  resolve_assertions i [] = ok []
  resolve_assertions i (a ∷ more) = do
    value ←
        resolve_scalar_or_pointer_for_assertion js params
          (indexed js params (label ++ text "assertions") i ++ text ".value") a.value
    rest ← resolve_assertions (i + 1) more
    ok (record { json_pointer = a.json_pointer; value = value } ∷ rest)

  abbrev pub if_any : List HttpWitnessResolvedAssertion → Option (List HttpWitnessResolvedAssertion)
  if_any [] = none
  if_any (a ∷ rest) = some (a ∷ rest)

  unfoldable pub resolve_http_witness_spec :
      HttpWitnessVerificationSpec → Outcome HttpWitnessVerificationRequest
  unfolding resolve_assertions
  resolve_http_witness_spec spec = do
    url ← string_at (text "url") spec.url
    status ← status_at spec.expected_status
    checked ← checked_status status
    assertions ← resolve_assertions 0 (list_or_empty spec.assertions)
    ok (record {
      method = method_or_get spec.method;
      url = url;
      expected_status = checked;
      assertions = if_any assertions;
    })

  unfoldable pub resolve_mongo_document_spec :
      MongoDocumentVerificationSpec → Outcome MongoDocumentVerificationRequest
  unfolding object_at scalar_fields
  resolve_mongo_document_spec spec = do
    collection ← string_at (text "collection") spec.collection
    filter ← object_at js params (label ++ text "filter") spec.filter_pointer
    raw ← object_at js params (label ++ text "requiredFields") spec.required_fields
    fields ←
        scalar_fields js params ok (label ++ text "requiredFields") (text " must be scalar") raw
    ok (record { collection = collection; filter = filter; required_fields = fields })
