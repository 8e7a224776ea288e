-- ===== src/Types/Registry.antt =====
-- types.ts: the entries of a tools registry. A spec has either a `const` or a `pointer`.
use agentskeptic.Prelude.{Bool, Option, List}
use agentskeptic.Js.{Text, Number}
use agentskeptic.Types.{Scalar, ExpectOp, AggregateFn, Side, VectorProvider, HttpMethod}

pub data RegistryStringSpec : Type 0 where
  const : Text → RegistryStringSpec
  pointer : Text → RegistryStringSpec

pub data RegistryScalarSpec : Type 0 where
  const : Scalar → RegistryScalarSpec
  pointer : Text → RegistryScalarSpec

pub data RegistryNumberOrPointerSpec : Type 0 where
  const : Number → RegistryNumberOrPointerSpec
  pointer : Text → RegistryNumberOrPointerSpec

pub record RegistryEqualityPair : Type 0 where
  pub column : RegistryStringSpec
  pub value : RegistryScalarSpec

-- `required_fields` is its pointer.
pub record SqlRowVerificationSpec : Type 0 where
  pub table : RegistryStringSpec
  pub identity_eq : List RegistryEqualityPair
  pub required_fields : Text

pub record SqlRowAbsentVerificationSpec : Type 0 where
  pub table : RegistryStringSpec
  pub identity_eq : List RegistryEqualityPair
  pub filter_eq : Option (List RegistryEqualityPair)

pub record RelationalExpectSpec : Type 0 where
  pub op : ExpectOp
  pub value : RegistryNumberOrPointerSpec

pub record AggregateSpec : Type 0 where
  pub id : Text
  pub table : RegistryStringSpec
  pub fn : AggregateFn
  pub sum_column : Option RegistryStringSpec
  pub where_eq : Option (List RegistryEqualityPair)
  pub expect : RelationalExpectSpec

pub record SidedEqualityPair : Type 0 where
  pub table_side : Side
  pub column : RegistryStringSpec
  pub value : RegistryScalarSpec

pub record JoinCountSpec : Type 0 where
  pub id : Text
  pub left_table : RegistryStringSpec
  pub right_table : RegistryStringSpec
  pub left_column : RegistryStringSpec
  pub right_column : RegistryStringSpec
  pub where_eq : Option (List SidedEqualityPair)
  pub expect : RelationalExpectSpec

pub record RelatedExistsSpec : Type 0 where
  pub id : Text
  pub child_table : RegistryStringSpec
  pub match_eq : List RegistryEqualityPair

pub record AntiJoinSpec : Type 0 where
  pub id : Text
  pub anchor_table : RegistryStringSpec
  pub lookup_table : RegistryStringSpec
  pub anchor_column : RegistryStringSpec
  pub lookup_column : RegistryStringSpec
  pub lookup_presence_column : RegistryStringSpec
  pub filter_eq_anchor : Option (List RegistryEqualityPair)
  pub filter_eq_lookup : Option (List RegistryEqualityPair)

pub data SqlRelationalCheckSpec : Type 0 where
  aggregate : AggregateSpec → SqlRelationalCheckSpec
  join_count : JoinCountSpec → SqlRelationalCheckSpec
  related_exists : RelatedExistsSpec → SqlRelationalCheckSpec
  anti_join : AntiJoinSpec → SqlRelationalCheckSpec

-- `spec.id`.
abbrev pub spec_id : SqlRelationalCheckSpec → Text
spec_id (aggregate s) = s.id
spec_id (join_count s) = s.id
spec_id (related_exists s) = s.id
spec_id (anti_join s) = s.id

pub record VectorDocumentVerificationSpec : Type 0 where
  pub provider : VectorProvider
  pub document_id : RegistryStringSpec
  pub index_name : RegistryStringSpec
  pub namespace : Option RegistryStringSpec
  pub host : Option RegistryStringSpec
  pub metadata_eq : Option Text
  pub expect_payload_sha256 : Option RegistryStringSpec

pub record ObjectStorageVerificationSpec : Type 0 where
  pub bucket : RegistryStringSpec
  pub key : RegistryStringSpec
  pub endpoint : Option RegistryStringSpec
  pub expect_size_bytes : Option RegistryNumberOrPointerSpec
  pub expect_sha256 : Option RegistryStringSpec
  pub expect_etag : Option RegistryStringSpec

pub record HttpWitnessAssertionSpec : Type 0 where
  pub json_pointer : Text
  pub value : RegistryScalarSpec

pub record HttpWitnessVerificationSpec : Type 0 where
  pub method : Option HttpMethod
  pub url : RegistryStringSpec
  pub expected_status : Option RegistryNumberOrPointerSpec
  pub assertions : Option (List HttpWitnessAssertionSpec)

pub record MongoDocumentVerificationSpec : Type 0 where
  pub collection : RegistryStringSpec
  pub filter_pointer : Text
  pub required_fields : Text

pub record EffectSpec : Type 0 where
  pub id : Text
  pub spec : SqlRowVerificationSpec

pub data ToolRegistryVerification : Type 0 where
  sql_row : SqlRowVerificationSpec → ToolRegistryVerification
  sql_row_absent : SqlRowAbsentVerificationSpec → ToolRegistryVerification
  sql_effects : List EffectSpec → ToolRegistryVerification
  sql_relational : List SqlRelationalCheckSpec → ToolRegistryVerification
  vector_document : VectorDocumentVerificationSpec → ToolRegistryVerification
  object_storage_object : ObjectStorageVerificationSpec → ToolRegistryVerification
  http_witness : HttpWitnessVerificationSpec → ToolRegistryVerification
  mongo_document : MongoDocumentVerificationSpec → ToolRegistryVerification

pub record ToolRegistryEntry : Type 0 where
  pub tool_id : Text
  pub effect_description_template : Text
  pub release_critical : Option Bool
  pub verification : ToolRegistryVerification
