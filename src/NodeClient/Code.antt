-- ===== src/NodeClient/Code.antt =====
-- `casper_binary_port::ErrorCode`: the constructors that `Error::from_error_code` of rpc_sidecar/src/node_client.rs
-- lists, whose `match` has no catch-all.
pub data ErrorCode : Type 0 where
  function_disabled root_not_found failed_query switch_block_not_found : ErrorCode
  switch_block_parent_not_found unsupported_rewards_v1_request : ErrorCode
  command_header_version_mismatch purse_not_found invalid_deploy_chain_name : ErrorCode
  invalid_deploy_dependencies_no_longer_supported invalid_deploy_excessive_size : ErrorCode
  invalid_deploy_excessive_time_to_live invalid_deploy_timestamp_in_future : ErrorCode
  invalid_deploy_body_hash invalid_deploy_hash invalid_deploy_empty_approvals : ErrorCode
  invalid_deploy_approval invalid_deploy_excessive_session_args_length : ErrorCode
  invalid_deploy_excessive_payment_args_length invalid_deploy_missing_payment_amount : ErrorCode
  invalid_deploy_failed_to_parse_payment_amount : ErrorCode
  invalid_deploy_exceeded_block_gas_limit invalid_deploy_missing_transfer_amount : ErrorCode
  invalid_deploy_failed_to_parse_transfer_amount : ErrorCode
  invalid_deploy_insufficient_transfer_amount invalid_deploy_excessive_approvals : ErrorCode
  invalid_deploy_unable_to_calculate_gas_limit : ErrorCode
  invalid_deploy_unable_to_calculate_gas_cost invalid_deploy_unspecified : ErrorCode
  invalid_transaction_chain_name invalid_transaction_excessive_size : ErrorCode
  invalid_transaction_excessive_time_to_live invalid_transaction_timestamp_in_future : ErrorCode
  invalid_transaction_body_hash invalid_transaction_hash : ErrorCode
  invalid_transaction_empty_approvals invalid_transaction_invalid_approval : ErrorCode
  invalid_transaction_excessive_args_length invalid_transaction_excessive_approvals : ErrorCode
  invalid_transaction_exceeds_block_gas_limit invalid_transaction_missing_arg : ErrorCode
  invalid_transaction_unexpected_arg_type invalid_transaction_invalid_arg : ErrorCode
  invalid_transaction_insufficient_transfer_amount : ErrorCode
  invalid_transaction_entry_point_cannot_be_custom : ErrorCode
  invalid_transaction_entry_point_must_be_custom : ErrorCode
  invalid_transaction_empty_module_bytes invalid_transaction_gas_price_conversion : ErrorCode
  invalid_transaction_unable_to_calculate_gas_limit : ErrorCode
  invalid_transaction_unable_to_calculate_gas_cost invalid_transaction_pricing_mode : ErrorCode
  empty_blockchain expected_deploy expected_transaction transaction_expired : ErrorCode
  missing_or_incorrect_parameters no_such_addressable_entity : ErrorCode
  no_such_contract_at_hash no_such_entry_point no_such_package_at_hash : ErrorCode
  invalid_entity_at_version disabled_entity_at_version missing_entity_at_version : ErrorCode
  invalid_associated_keys insufficient_signature_weight insufficient_balance : ErrorCode
  unknown_balance deploy_invalid_payment_variant deploy_missing_payment_amount : ErrorCode
  deploy_failed_to_parse_payment_amount deploy_missing_transfer_target : ErrorCode
  deploy_missing_module_bytes invalid_transaction_entry_point_cannot_be_call : ErrorCode
  invalid_transaction_invalid_transaction_lane invalid_transaction_unspecified : ErrorCode
  invalid_transaction_or_deploy_unspecified expected_named_arguments : ErrorCode
  invalid_transaction_runtime invalid_transaction_no_lane_matches : ErrorCode
  invalid_transaction_entry_point_must_be_call : ErrorCode
  invalid_transaction_cannot_deserialize_field : ErrorCode
  invalid_transaction_cannot_calculate_fields_hash : ErrorCode
  invalid_transaction_unexpected_fields invalid_transaction_expected_bytes_arguments : ErrorCode
  invalid_transaction_missing_seed pricing_mode_not_supported : ErrorCode
  invalid_deploy_gas_limit_not_supported invalid_deploy_invalid_runtime : ErrorCode
  invalid_deploy_exceeded_wasm_lane_gas_limit invalid_deploy_invalid_payment_amount : ErrorCode
  invalid_transaction_insufficient_burn_amount : ErrorCode
  invalid_transaction_invalid_payment_amount invalid_reserved_slots : ErrorCode
  invalid_delegation_amount invalid_maximum_delegation_amount : ErrorCode
  invalid_minimum_delegation_amount insufficient_amount_arg_value : ErrorCode
  invalid_transaction_unexpected_entry_point request_throttled : ErrorCode
  malformed_information_request too_little_bytes_for_request_header_version : ErrorCode
  malformed_command_header_version transfer_record_malformed_key : ErrorCode
  malformed_command_header malformed_command wasm_preprocessing invalid_item_variant : ErrorCode
  not_found internal_error bad_request unsupported_request dictionary_uref_not_found : ErrorCode
  no_complete_blocks gas_price_tolerance_too_low received_v1_transaction : ErrorCode
  transaction_has_malformed_binary_representation no_error : ErrorCode
  unsupported_invocation_target : ErrorCode
