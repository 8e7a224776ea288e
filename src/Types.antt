-- ===== src/Types.antt =====
-- types.ts: the requests, statuses, policies, events and outcomes that the components exchange.
-- An optional field is an `Option`; a `Record<string, unknown>` is a list of fields.
pub mod Evidence
pub mod Registry
pub mod RunEvents
use agentskeptic.Prelude.{Bool, Option, List}
use agentskeptic.Js.{Text, Number, Value, Row}
use agentskeptic.Js.Json.{Fields}
use agentskeptic.WireReasonCodes.{Code}

-- `VerificationScalar`.
pub data Scalar : Type 0 where
  null : Scalar
  boolean : Bool → Scalar
  number : Number → Scalar
  string : Text → Scalar

pub record IdentityEqPair : Type 0 where
  pub column : Text
  pub value : Text

pub record VerificationRequest : Type 0 where
  pub table : Text
  pub identity_eq : List IdentityEqPair
  pub required_fields : List (Text × Scalar)

pub record RowAbsentVerificationRequest : Type 0 where
  pub table : Text
  pub identity_eq : List IdentityEqPair
  pub filter_eq : List IdentityEqPair

pub record ResolvedEffect : Type 0 where
  pub id : Text
  pub request : VerificationRequest

pub data ExpectOp : Type 0 where
  eq gte lte : ExpectOp

pub data AggregateFn : Type 0 where
  count_star sum : AggregateFn

pub data Side : Type 0 where
  left right : Side

pub record SidedEqPair : Type 0 where
  pub side : Side
  pub column : Text
  pub value : Text

pub record RelatedExistsCheck : Type 0 where
  pub id : Text
  pub child_table : Text
  pub match_eq : List IdentityEqPair

pub record AggregateCheck : Type 0 where
  pub id : Text
  pub table : Text
  pub fn : AggregateFn
  pub sum_column : Option Text
  pub where_eq : List IdentityEqPair
  pub expect_op : ExpectOp
  pub expect_value : Number

pub record JoinCountCheck : Type 0 where
  pub id : Text
  pub left_table : Text
  pub right_table : Text
  pub left_join_column : Text
  pub right_join_column : Text
  pub where_eq : List SidedEqPair
  pub expect_op : ExpectOp
  pub expect_value : Number

pub record AntiJoinCheck : Type 0 where
  pub id : Text
  pub anchor_table : Text
  pub lookup_table : Text
  pub anchor_column : Text
  pub lookup_column : Text
  pub lookup_presence_column : Text
  pub filter_eq_anchor : List IdentityEqPair
  pub filter_eq_lookup : List IdentityEqPair

pub data ResolvedRelationalCheck : Type 0 where
  related_exists : RelatedExistsCheck → ResolvedRelationalCheck
  aggregate : AggregateCheck → ResolvedRelationalCheck
  join_count : JoinCountCheck → ResolvedRelationalCheck
  anti_join : AntiJoinCheck → ResolvedRelationalCheck

-- `check.id`.
abbrev pub check_id : ResolvedRelationalCheck → Text
check_id (related_exists c) = c.id
check_id (aggregate c) = c.id
check_id (join_count c) = c.id
check_id (anti_join c) = c.id

-- One member of `SqlEffectsVerificationPayload.effects`.
pub record EffectPayload : Type 0 where
  pub id : Text
  pub table : Text
  pub identity_eq : List IdentityEqPair
  pub required_fields : List (Text × Scalar)

pub data VectorProvider : Type 0 where
  pinecone weaviate chroma : VectorProvider

pub record VectorDocumentVerificationRequest : Type 0 where
  pub provider : VectorProvider
  pub document_id : Text
  pub index_name : Text
  pub namespace : Option Text
  pub host : Option Text
  pub metadata_subset : Option (List (Text × Scalar))
  pub expect_payload_sha256 : Option Text

pub record ObjectStorageVerificationRequest : Type 0 where
  pub bucket : Text
  pub key : Text
  pub endpoint : Option Text
  pub expect_size_bytes : Option Number
  pub expect_sha256 : Option Text
  pub expect_etag : Option Text

pub data HttpMethod : Type 0 where
  get post : HttpMethod

pub record HttpWitnessResolvedAssertion : Type 0 where
  pub json_pointer : Text
  pub value : Scalar

pub record HttpWitnessVerificationRequest : Type 0 where
  pub method : HttpMethod
  pub url : Text
  pub expected_status : Number
  pub assertions : Option (List HttpWitnessResolvedAssertion)

pub record MongoDocumentVerificationRequest : Type 0 where
  pub collection : Text
  pub filter : Fields
  pub required_fields : List (Text × Scalar)

pub data StateWitnessRequest : Type 0 where
  vector_document : VectorDocumentVerificationRequest → StateWitnessRequest
  object_storage_object : ObjectStorageVerificationRequest → StateWitnessRequest
  http_witness : HttpWitnessVerificationRequest → StateWitnessRequest
  mongo_document : MongoDocumentVerificationRequest → StateWitnessRequest

-- `none` is the source's `null`.
pub data StepVerificationRequest : Type 0 where
  none : StepVerificationRequest
  sql_row : VerificationRequest → StepVerificationRequest
  sql_row_absent : RowAbsentVerificationRequest → StepVerificationRequest
  sql_effects : List EffectPayload → StepVerificationRequest
  sql_relational : List ResolvedRelationalCheck → StepVerificationRequest
  state_witness : StateWitnessRequest → StepVerificationRequest

pub data StepStatus : Type 0 where
  verified missing inconsistent incomplete_verification partially_verified uncertain : StepStatus

pub data VerificationPolicy : Type 0 where
  strong : (window_ms poll_ms : Number) → VerificationPolicy
  eventual : (window_ms poll_ms : Number) → VerificationPolicy
  bounded : (window_ms poll_ms max_staleness_ms : Number) → VerificationPolicy

abbrev pub verification_window_ms : VerificationPolicy → Number
verification_window_ms (strong w p) = w
verification_window_ms (eventual w p) = w
verification_window_ms (bounded w p s) = w

abbrev pub poll_interval_ms : VerificationPolicy → Number
poll_interval_ms (strong w p) = p
poll_interval_ms (eventual w p) = p
poll_interval_ms (bounded w p s) = p

pub record Reason : Type 0 where
  pub code : Code
  pub message : Text
  pub field : Option Text

pub data FailureDiagnostic : Type 0 where
  workflow_execution verification_setup observation_uncertainty : FailureDiagnostic

pub data WorkflowStatus : Type 0 where
  complete incomplete inconsistent : WorkflowStatus

pub data EventSequenceIntegrity : Type 0 where
  normal : EventSequenceIntegrity
  irregular : List Reason → EventSequenceIntegrity
