-- ===== src/WireReasonCodes.antt =====
-- wireReasonCodes.ts: the reason codes of steps and of the resolver, with those of the other
-- reasons that a result carries, as enumerations. `code_text` is the text on the wire.
use agentskeptic.Prelude.{ℕ, Bool, true, false, ◌==◌}
use agentskeptic.Js.{Text, text}

-- Resolver and registry parameter failures.
pub data RegistryResolverCode : Type 0 where
  const_string_empty : RegistryResolverCode
  string_spec_pointer_missing : RegistryResolverCode
  string_spec_type : RegistryResolverCode
  string_spec_empty : RegistryResolverCode
  key_value_pointer_missing : RegistryResolverCode
  key_value_not_scalar : RegistryResolverCode
  key_value_spec_invalid : RegistryResolverCode
  table_pointer_invalid : RegistryResolverCode
  table_spec_invalid : RegistryResolverCode
  invalid_identifier : RegistryResolverCode
  required_fields_pointer_missing : RegistryResolverCode
  required_fields_not_object : RegistryResolverCode
  required_fields_value_undefined : RegistryResolverCode
  required_fields_value_not_scalar : RegistryResolverCode
  unsupported_verification_kind : RegistryResolverCode
  duplicate_effect_id : RegistryResolverCode
  relational_expect_value_invalid : RegistryResolverCode
  relational_sum_column_required : RegistryResolverCode
  equality_duplicate_column : RegistryResolverCode
  filter_eq_overlaps_identity : RegistryResolverCode
  relational_unsupported_dialect : RegistryResolverCode

-- Codes of reconciliation, of the policy executor and of the pipeline.
pub data SqlVerificationOutcomeCode : Type 0 where
  row_absent : SqlVerificationOutcomeCode
  duplicate_rows : SqlVerificationOutcomeCode
  row_shape_mismatch : SqlVerificationOutcomeCode
  unreadable_value : SqlVerificationOutcomeCode
  value_mismatch : SqlVerificationOutcomeCode
  connector_error : SqlVerificationOutcomeCode
  multi_effect_incomplete : SqlVerificationOutcomeCode
  multi_effect_all_failed : SqlVerificationOutcomeCode
  multi_effect_partial : SqlVerificationOutcomeCode
  row_not_observed_within_window : SqlVerificationOutcomeCode
  multi_effect_uncertain_within_window : SqlVerificationOutcomeCode
  unknown_tool : SqlVerificationOutcomeCode
  retry_observations_diverge : SqlVerificationOutcomeCode
  related_rows_absent : SqlVerificationOutcomeCode
  relational_expectation_mismatch : SqlVerificationOutcomeCode
  relational_scalar_unusable : SqlVerificationOutcomeCode
  row_present_when_forbidden : SqlVerificationOutcomeCode
  orphan_row_detected : SqlVerificationOutcomeCode
  forbidden_rows_still_present_within_window : SqlVerificationOutcomeCode
  state_witness_unavailable_in_sqlite_file_mode : SqlVerificationOutcomeCode
  state_witness_setup_error : SqlVerificationOutcomeCode
  vector_not_found : SqlVerificationOutcomeCode
  vector_metadata_mismatch : SqlVerificationOutcomeCode
  vector_payload_mismatch : SqlVerificationOutcomeCode
  vector_provider_error : SqlVerificationOutcomeCode
  object_missing : SqlVerificationOutcomeCode
  object_digest_mismatch : SqlVerificationOutcomeCode
  object_size_mismatch : SqlVerificationOutcomeCode
  object_metadata_mismatch : SqlVerificationOutcomeCode
  object_too_large_for_hash : SqlVerificationOutcomeCode
  http_witness_status_mismatch : SqlVerificationOutcomeCode
  http_witness_assertion_mismatch : SqlVerificationOutcomeCode
  http_witness_network_error : SqlVerificationOutcomeCode
  mongo_document_missing : SqlVerificationOutcomeCode
  mongo_value_mismatch : SqlVerificationOutcomeCode
  relational_unsupported_dialect : SqlVerificationOutcomeCode
  bounded_window_expired_without_observation : SqlVerificationOutcomeCode
  bounded_mode_unsupported_for_connector : SqlVerificationOutcomeCode
  connector_unsupported_in_scope : SqlVerificationOutcomeCode

-- failureCatalog.ts: `RUN_LEVEL_MESSAGES` and `EVENT_SEQUENCE_MESSAGES` with the timestamp code.
pub data RunLevelCode : Type 0 where
  malformed_event_line : RunLevelCode
  no_steps_for_workflow : RunLevelCode
  langgraph_checkpoint_trust_non_v3_tool_observed : RunLevelCode

pub data EventSequenceCode : Type 0 where
  capture_order_not_monotonic_in_seq : EventSequenceCode
  timestamp_not_monotonic_with_seq_sort_order : EventSequenceCode

-- planTransition.ts: `PLAN_RULE_CODES`.
pub data PlanRuleCode : Type 0 where
  row_kind_mismatch : PlanRuleCode
  forbidden_row : PlanRuleCode
  required_row_missing : PlanRuleCode
  allowlist_violation : PlanRuleCode
  rename_mismatch : PlanRuleCode

-- The `code` of a reason.
pub data Code : Type 0 where
  resolver : RegistryResolverCode → Code
  outcome : SqlVerificationOutcomeCode → Code
  run_level : RunLevelCode → Code
  event_sequence : EventSequenceCode → Code
  plan_rule : PlanRuleCode → Code

pub resolver_text : RegistryResolverCode → Text
resolver_text RegistryResolverCode.const_string_empty = text "CONST_STRING_EMPTY"
resolver_text RegistryResolverCode.string_spec_pointer_missing = text "STRING_SPEC_POINTER_MISSING"
resolver_text RegistryResolverCode.string_spec_type = text "STRING_SPEC_TYPE"
resolver_text RegistryResolverCode.string_spec_empty = text "STRING_SPEC_EMPTY"
resolver_text RegistryResolverCode.key_value_pointer_missing = text "KEY_VALUE_POINTER_MISSING"
resolver_text RegistryResolverCode.key_value_not_scalar = text "KEY_VALUE_NOT_SCALAR"
resolver_text RegistryResolverCode.key_value_spec_invalid = text "KEY_VALUE_SPEC_INVALID"
resolver_text RegistryResolverCode.table_pointer_invalid = text "TABLE_POINTER_INVALID"
resolver_text RegistryResolverCode.table_spec_invalid = text "TABLE_SPEC_INVALID"
resolver_text RegistryResolverCode.invalid_identifier = text "INVALID_IDENTIFIER"
resolver_text RegistryResolverCode.required_fields_pointer_missing =
    text "REQUIRED_FIELDS_POINTER_MISSING"
resolver_text RegistryResolverCode.required_fields_not_object = text "REQUIRED_FIELDS_NOT_OBJECT"
resolver_text RegistryResolverCode.required_fields_value_undefined =
    text "REQUIRED_FIELDS_VALUE_UNDEFINED"
resolver_text RegistryResolverCode.required_fields_value_not_scalar =
    text "REQUIRED_FIELDS_VALUE_NOT_SCALAR"
resolver_text RegistryResolverCode.unsupported_verification_kind =
    text "UNSUPPORTED_VERIFICATION_KIND"
resolver_text RegistryResolverCode.duplicate_effect_id = text "DUPLICATE_EFFECT_ID"
resolver_text RegistryResolverCode.relational_expect_value_invalid =
    text "RELATIONAL_EXPECT_VALUE_INVALID"
resolver_text RegistryResolverCode.relational_sum_column_required =
    text "RELATIONAL_SUM_COLUMN_REQUIRED"
resolver_text RegistryResolverCode.equality_duplicate_column = text "EQUALITY_DUPLICATE_COLUMN"
resolver_text RegistryResolverCode.filter_eq_overlaps_identity = text "FILTER_EQ_OVERLAPS_IDENTITY"
resolver_text RegistryResolverCode.relational_unsupported_dialect =
    text "RELATIONAL_UNSUPPORTED_DIALECT"

pub outcome_text : SqlVerificationOutcomeCode → Text
outcome_text SqlVerificationOutcomeCode.row_absent = text "ROW_ABSENT"
outcome_text SqlVerificationOutcomeCode.duplicate_rows = text "DUPLICATE_ROWS"
outcome_text SqlVerificationOutcomeCode.row_shape_mismatch = text "ROW_SHAPE_MISMATCH"
outcome_text SqlVerificationOutcomeCode.unreadable_value = text "UNREADABLE_VALUE"
outcome_text SqlVerificationOutcomeCode.value_mismatch = text "VALUE_MISMATCH"
outcome_text SqlVerificationOutcomeCode.connector_error = text "CONNECTOR_ERROR"
outcome_text SqlVerificationOutcomeCode.multi_effect_incomplete = text "MULTI_EFFECT_INCOMPLETE"
outcome_text SqlVerificationOutcomeCode.multi_effect_all_failed = text "MULTI_EFFECT_ALL_FAILED"
outcome_text SqlVerificationOutcomeCode.multi_effect_partial = text "MULTI_EFFECT_PARTIAL"
outcome_text SqlVerificationOutcomeCode.row_not_observed_within_window =
    text "ROW_NOT_OBSERVED_WITHIN_WINDOW"
outcome_text SqlVerificationOutcomeCode.multi_effect_uncertain_within_window =
    text "MULTI_EFFECT_UNCERTAIN_WITHIN_WINDOW"
outcome_text SqlVerificationOutcomeCode.unknown_tool = text "UNKNOWN_TOOL"
outcome_text SqlVerificationOutcomeCode.retry_observations_diverge =
    text "RETRY_OBSERVATIONS_DIVERGE"
outcome_text SqlVerificationOutcomeCode.related_rows_absent = text "RELATED_ROWS_ABSENT"
outcome_text SqlVerificationOutcomeCode.relational_expectation_mismatch =
    text "RELATIONAL_EXPECTATION_MISMATCH"
outcome_text SqlVerificationOutcomeCode.relational_scalar_unusable =
    text "RELATIONAL_SCALAR_UNUSABLE"
outcome_text SqlVerificationOutcomeCode.row_present_when_forbidden =
    text "ROW_PRESENT_WHEN_FORBIDDEN"
outcome_text SqlVerificationOutcomeCode.orphan_row_detected = text "ORPHAN_ROW_DETECTED"
outcome_text SqlVerificationOutcomeCode.forbidden_rows_still_present_within_window =
    text "FORBIDDEN_ROWS_STILL_PRESENT_WITHIN_WINDOW"
outcome_text SqlVerificationOutcomeCode.state_witness_unavailable_in_sqlite_file_mode =
    text "STATE_WITNESS_UNAVAILABLE_IN_SQLITE_FILE_MODE"
outcome_text SqlVerificationOutcomeCode.state_witness_setup_error = text "STATE_WITNESS_SETUP_ERROR"
outcome_text SqlVerificationOutcomeCode.vector_not_found = text "VECTOR_NOT_FOUND"
outcome_text SqlVerificationOutcomeCode.vector_metadata_mismatch = text "VECTOR_METADATA_MISMATCH"
outcome_text SqlVerificationOutcomeCode.vector_payload_mismatch = text "VECTOR_PAYLOAD_MISMATCH"
outcome_text SqlVerificationOutcomeCode.vector_provider_error = text "VECTOR_PROVIDER_ERROR"
outcome_text SqlVerificationOutcomeCode.object_missing = text "OBJECT_MISSING"
outcome_text SqlVerificationOutcomeCode.object_digest_mismatch = text "OBJECT_DIGEST_MISMATCH"
outcome_text SqlVerificationOutcomeCode.object_size_mismatch = text "OBJECT_SIZE_MISMATCH"
outcome_text SqlVerificationOutcomeCode.object_metadata_mismatch = text "OBJECT_METADATA_MISMATCH"
outcome_text SqlVerificationOutcomeCode.object_too_large_for_hash = text "OBJECT_TOO_LARGE_FOR_HASH"
outcome_text SqlVerificationOutcomeCode.http_witness_status_mismatch =
    text "HTTP_WITNESS_STATUS_MISMATCH"
outcome_text SqlVerificationOutcomeCode.http_witness_assertion_mismatch =
    text "HTTP_WITNESS_ASSERTION_MISMATCH"
outcome_text SqlVerificationOutcomeCode.http_witness_network_error =
    text "HTTP_WITNESS_NETWORK_ERROR"
outcome_text SqlVerificationOutcomeCode.mongo_document_missing = text "MONGO_DOCUMENT_MISSING"
outcome_text SqlVerificationOutcomeCode.mongo_value_mismatch = text "MONGO_VALUE_MISMATCH"
outcome_text SqlVerificationOutcomeCode.relational_unsupported_dialect =
    text "RELATIONAL_UNSUPPORTED_DIALECT"
outcome_text SqlVerificationOutcomeCode.bounded_window_expired_without_observation =
    text "BOUNDED_WINDOW_EXPIRED_WITHOUT_OBSERVATION"
outcome_text SqlVerificationOutcomeCode.bounded_mode_unsupported_for_connector =
    text "BOUNDED_MODE_UNSUPPORTED_FOR_CONNECTOR"
outcome_text SqlVerificationOutcomeCode.connector_unsupported_in_scope =
    text "CONNECTOR_UNSUPPORTED_IN_SCOPE"

run_level_text : RunLevelCode → Text
run_level_text malformed_event_line = text "MALFORMED_EVENT_LINE"
run_level_text no_steps_for_workflow = text "NO_STEPS_FOR_WORKFLOW"
run_level_text langgraph_checkpoint_trust_non_v3_tool_observed =
    text "LANGGRAPH_CHECKPOINT_TRUST_NON_V3_TOOL_OBSERVED"

event_sequence_text : EventSequenceCode → Text
event_sequence_text capture_order_not_monotonic_in_seq = text "CAPTURE_ORDER_NOT_MONOTONIC_IN_SEQ"
event_sequence_text timestamp_not_monotonic_with_seq_sort_order =
    text "TIMESTAMP_NOT_MONOTONIC_WITH_SEQ_SORT_ORDER"

plan_rule_text : PlanRuleCode → Text
plan_rule_text row_kind_mismatch = text "PLAN_RULE_ROW_KIND_MISMATCH"
plan_rule_text forbidden_row = text "PLAN_RULE_FORBIDDEN_ROW"
plan_rule_text required_row_missing = text "PLAN_RULE_REQUIRED_ROW_MISSING"
plan_rule_text allowlist_violation = text "PLAN_RULE_ALLOWLIST_VIOLATION"
plan_rule_text rename_mismatch = text "PLAN_RULE_RENAME_MISMATCH"

unfoldable pub code_text : Code → Text
unfolding resolver_text outcome_text run_level_text event_sequence_text plan_rule_text
code_text (resolver c) = resolver_text c
code_text (outcome c) = outcome_text c
code_text (run_level c) = run_level_text c
code_text (event_sequence c) = event_sequence_text c
code_text (plan_rule c) = plan_rule_text c

-- The position in the table, by which codes are compared.
abbrev tag : SqlVerificationOutcomeCode → ℕ
tag SqlVerificationOutcomeCode.row_absent = 0
tag SqlVerificationOutcomeCode.duplicate_rows = 1
tag SqlVerificationOutcomeCode.row_shape_mismatch = 2
tag SqlVerificationOutcomeCode.unreadable_value = 3
tag SqlVerificationOutcomeCode.value_mismatch = 4
tag SqlVerificationOutcomeCode.connector_error = 5
tag SqlVerificationOutcomeCode.multi_effect_incomplete = 6
tag SqlVerificationOutcomeCode.multi_effect_all_failed = 7
tag SqlVerificationOutcomeCode.multi_effect_partial = 8
tag SqlVerificationOutcomeCode.row_not_observed_within_window = 9
tag SqlVerificationOutcomeCode.multi_effect_uncertain_within_window = 10
tag SqlVerificationOutcomeCode.unknown_tool = 11
tag SqlVerificationOutcomeCode.retry_observations_diverge = 12
tag SqlVerificationOutcomeCode.related_rows_absent = 13
tag SqlVerificationOutcomeCode.relational_expectation_mismatch = 14
tag SqlVerificationOutcomeCode.relational_scalar_unusable = 15
tag SqlVerificationOutcomeCode.row_present_when_forbidden = 16
tag SqlVerificationOutcomeCode.orphan_row_detected = 17
tag SqlVerificationOutcomeCode.forbidden_rows_still_present_within_window = 18
tag SqlVerificationOutcomeCode.state_witness_unavailable_in_sqlite_file_mode = 19
tag SqlVerificationOutcomeCode.state_witness_setup_error = 20
tag SqlVerificationOutcomeCode.vector_not_found = 21
tag SqlVerificationOutcomeCode.vector_metadata_mismatch = 22
tag SqlVerificationOutcomeCode.vector_payload_mismatch = 23
tag SqlVerificationOutcomeCode.vector_provider_error = 24
tag SqlVerificationOutcomeCode.object_missing = 25
tag SqlVerificationOutcomeCode.object_digest_mismatch = 26
tag SqlVerificationOutcomeCode.object_size_mismatch = 27
tag SqlVerificationOutcomeCode.object_metadata_mismatch = 28
tag SqlVerificationOutcomeCode.object_too_large_for_hash = 29
tag SqlVerificationOutcomeCode.http_witness_status_mismatch = 30
tag SqlVerificationOutcomeCode.http_witness_assertion_mismatch = 31
tag SqlVerificationOutcomeCode.http_witness_network_error = 32
tag SqlVerificationOutcomeCode.mongo_document_missing = 33
tag SqlVerificationOutcomeCode.mongo_value_mismatch = 34
tag SqlVerificationOutcomeCode.relational_unsupported_dialect = 35
tag SqlVerificationOutcomeCode.bounded_window_expired_without_observation = 36
tag SqlVerificationOutcomeCode.bounded_mode_unsupported_for_connector = 37
tag SqlVerificationOutcomeCode.connector_unsupported_in_scope = 38

-- `code === SQL_VERIFICATION_OUTCOME_CODE.…`.
unfoldable pub is_outcome : SqlVerificationOutcomeCode → Code → Bool
is_outcome c (outcome d) = tag c == tag d
is_outcome c _ = false

-- `RESOLVE_FAILURE_CODES.has(code)`: the set holds each text of the resolver's table, one of which
-- is also an outcome's.
unfoldable pub is_resolve_failure : Code → Bool
is_resolve_failure (resolver c) = true
is_resolve_failure (outcome SqlVerificationOutcomeCode.relational_unsupported_dialect) = true
is_resolve_failure _ = false
