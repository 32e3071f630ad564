-- ===== src/NodeClient/FromCode/Inverse.antt =====
-- The code that an error of rpc_sidecar/src/node_client.rs stands for.
use casper_sidecar.Prelude.{if◌then◌else◌, str_eq}
use casper_sidecar.NodeClient.Code.{ErrorCode}
use casper_sidecar.NodeClient.Transaction.{InvalidTransactionOrDeploy}
use casper_sidecar.NodeClient.Error.{Error}
use casper_sidecar.NodeClient.FromCode.{Codes}

unfoldable pub code_of_transaction : InvalidTransactionOrDeploy → ErrorCode
code_of_transaction InvalidTransactionOrDeploy.deploy_chain_name =
    ErrorCode.invalid_deploy_chain_name
code_of_transaction InvalidTransactionOrDeploy.deploy_dependencies_no_longer_supported =
    ErrorCode.invalid_deploy_dependencies_no_longer_supported
code_of_transaction InvalidTransactionOrDeploy.deploy_excessive_size =
    ErrorCode.invalid_deploy_excessive_size
code_of_transaction InvalidTransactionOrDeploy.deploy_excessive_time_to_live =
    ErrorCode.invalid_deploy_excessive_time_to_live
code_of_transaction InvalidTransactionOrDeploy.deploy_timestamp_in_future =
    ErrorCode.invalid_deploy_timestamp_in_future
code_of_transaction InvalidTransactionOrDeploy.deploy_body_hash = ErrorCode.invalid_deploy_body_hash
code_of_transaction InvalidTransactionOrDeploy.deploy_hash = ErrorCode.invalid_deploy_hash
code_of_transaction InvalidTransactionOrDeploy.deploy_empty_approvals =
    ErrorCode.invalid_deploy_empty_approvals
code_of_transaction InvalidTransactionOrDeploy.deploy_approval = ErrorCode.invalid_deploy_approval
code_of_transaction InvalidTransactionOrDeploy.deploy_excessive_session_args_length =
    ErrorCode.invalid_deploy_excessive_session_args_length
code_of_transaction InvalidTransactionOrDeploy.deploy_excessive_payment_args_length =
    ErrorCode.invalid_deploy_excessive_payment_args_length
code_of_transaction InvalidTransactionOrDeploy.deploy_missing_payment_amount =
    ErrorCode.invalid_deploy_missing_payment_amount
code_of_transaction InvalidTransactionOrDeploy.deploy_failed_to_parse_payment_amount =
    ErrorCode.invalid_deploy_failed_to_parse_payment_amount
code_of_transaction InvalidTransactionOrDeploy.deploy_exceeded_block_gas_limit =
    ErrorCode.invalid_deploy_exceeded_block_gas_limit
code_of_transaction InvalidTransactionOrDeploy.deploy_missing_transfer_amount =
    ErrorCode.invalid_deploy_missing_transfer_amount
code_of_transaction InvalidTransactionOrDeploy.deploy_failed_to_parse_transfer_amount =
    ErrorCode.invalid_deploy_failed_to_parse_transfer_amount
code_of_transaction InvalidTransactionOrDeploy.deploy_insufficient_transfer_amount =
    ErrorCode.invalid_deploy_insufficient_transfer_amount
code_of_transaction InvalidTransactionOrDeploy.deploy_excessive_approvals =
    ErrorCode.invalid_deploy_excessive_approvals
code_of_transaction InvalidTransactionOrDeploy.deploy_unable_to_calculate_gas_limit =
    ErrorCode.invalid_deploy_unable_to_calculate_gas_limit
code_of_transaction InvalidTransactionOrDeploy.deploy_unable_to_calculate_gas_cost =
    ErrorCode.invalid_deploy_unable_to_calculate_gas_cost
code_of_transaction InvalidTransactionOrDeploy.deploy_unspecified =
    ErrorCode.invalid_deploy_unspecified
code_of_transaction InvalidTransactionOrDeploy.transaction_chain_name =
    ErrorCode.invalid_transaction_chain_name
code_of_transaction InvalidTransactionOrDeploy.transaction_excessive_size =
    ErrorCode.invalid_transaction_excessive_size
code_of_transaction InvalidTransactionOrDeploy.transaction_excessive_time_to_live =
    ErrorCode.invalid_transaction_excessive_time_to_live
code_of_transaction InvalidTransactionOrDeploy.transaction_timestamp_in_future =
    ErrorCode.invalid_transaction_timestamp_in_future
code_of_transaction InvalidTransactionOrDeploy.transaction_body_hash =
    ErrorCode.invalid_transaction_body_hash
code_of_transaction InvalidTransactionOrDeploy.transaction_hash = ErrorCode.invalid_transaction_hash
code_of_transaction InvalidTransactionOrDeploy.transaction_empty_approvals =
    ErrorCode.invalid_transaction_empty_approvals
code_of_transaction InvalidTransactionOrDeploy.transaction_invalid_approval =
    ErrorCode.invalid_transaction_invalid_approval
code_of_transaction InvalidTransactionOrDeploy.transaction_excessive_args_length =
    ErrorCode.invalid_transaction_excessive_args_length
code_of_transaction InvalidTransactionOrDeploy.transaction_excessive_approvals =
    ErrorCode.invalid_transaction_excessive_approvals
code_of_transaction InvalidTransactionOrDeploy.transaction_exceeds_block_gas_limit =
    ErrorCode.invalid_transaction_exceeds_block_gas_limit
code_of_transaction InvalidTransactionOrDeploy.transaction_missing_arg =
    ErrorCode.invalid_transaction_missing_arg
code_of_transaction InvalidTransactionOrDeploy.transaction_unexpected_arg_type =
    ErrorCode.invalid_transaction_unexpected_arg_type
code_of_transaction InvalidTransactionOrDeploy.transaction_invalid_arg =
    ErrorCode.invalid_transaction_invalid_arg
code_of_transaction InvalidTransactionOrDeploy.transaction_insufficient_transfer_amount =
    ErrorCode.invalid_transaction_insufficient_transfer_amount
code_of_transaction InvalidTransactionOrDeploy.transaction_entry_point_cannot_be_custom =
    ErrorCode.invalid_transaction_entry_point_cannot_be_custom
code_of_transaction InvalidTransactionOrDeploy.transaction_entry_point_must_be_custom =
    ErrorCode.invalid_transaction_entry_point_must_be_custom
code_of_transaction InvalidTransactionOrDeploy.transaction_empty_module_bytes =
    ErrorCode.invalid_transaction_empty_module_bytes
code_of_transaction InvalidTransactionOrDeploy.transaction_gas_price_conversion =
    ErrorCode.invalid_transaction_gas_price_conversion
code_of_transaction InvalidTransactionOrDeploy.transaction_unable_to_calculate_gas_limit =
    ErrorCode.invalid_transaction_unable_to_calculate_gas_limit
code_of_transaction InvalidTransactionOrDeploy.transaction_unable_to_calculate_gas_cost =
    ErrorCode.invalid_transaction_unable_to_calculate_gas_cost
code_of_transaction InvalidTransactionOrDeploy.transaction_pricing_mode =
    ErrorCode.invalid_transaction_pricing_mode
code_of_transaction InvalidTransactionOrDeploy.empty_blockchain = ErrorCode.empty_blockchain
code_of_transaction InvalidTransactionOrDeploy.expected_deploy = ErrorCode.expected_deploy
code_of_transaction InvalidTransactionOrDeploy.expected_transaction = ErrorCode.expected_transaction
code_of_transaction InvalidTransactionOrDeploy.transaction_expired = ErrorCode.transaction_expired
code_of_transaction InvalidTransactionOrDeploy.missing_or_incorrect_parameters =
    ErrorCode.missing_or_incorrect_parameters
code_of_transaction InvalidTransactionOrDeploy.no_such_addressable_entity =
    ErrorCode.no_such_addressable_entity
code_of_transaction InvalidTransactionOrDeploy.no_such_contract_at_hash =
    ErrorCode.no_such_contract_at_hash
code_of_transaction InvalidTransactionOrDeploy.no_such_entry_point = ErrorCode.no_such_entry_point
code_of_transaction InvalidTransactionOrDeploy.no_such_package_at_hash =
    ErrorCode.no_such_package_at_hash
code_of_transaction InvalidTransactionOrDeploy.invalid_entity_at_version =
    ErrorCode.invalid_entity_at_version
code_of_transaction InvalidTransactionOrDeploy.disabled_entity_at_version =
    ErrorCode.disabled_entity_at_version
code_of_transaction InvalidTransactionOrDeploy.missing_entity_at_version =
    ErrorCode.missing_entity_at_version
code_of_transaction InvalidTransactionOrDeploy.invalid_associated_keys =
    ErrorCode.invalid_associated_keys
code_of_transaction InvalidTransactionOrDeploy.insufficient_signature_weight =
    ErrorCode.insufficient_signature_weight
code_of_transaction InvalidTransactionOrDeploy.insufficient_balance = ErrorCode.insufficient_balance
code_of_transaction InvalidTransactionOrDeploy.unknown_balance = ErrorCode.unknown_balance
code_of_transaction InvalidTransactionOrDeploy.deploy_invalid_payment_variant =
    ErrorCode.deploy_invalid_payment_variant
code_of_transaction InvalidTransactionOrDeploy.deploy_missing_transfer_target =
    ErrorCode.deploy_missing_transfer_target
code_of_transaction InvalidTransactionOrDeploy.deploy_missing_module_bytes =
    ErrorCode.deploy_missing_module_bytes
code_of_transaction InvalidTransactionOrDeploy.invalid_transaction_entry_point_cannot_be_call =
    ErrorCode.invalid_transaction_entry_point_cannot_be_call
code_of_transaction InvalidTransactionOrDeploy.invalid_transaction_invalid_transaction_lane =
    ErrorCode.invalid_transaction_invalid_transaction_lane
code_of_transaction InvalidTransactionOrDeploy.transaction_unspecified =
    ErrorCode.invalid_transaction_unspecified
code_of_transaction InvalidTransactionOrDeploy.transaction_or_deploy_unspecified =
    ErrorCode.invalid_transaction_or_deploy_unspecified
code_of_transaction InvalidTransactionOrDeploy.expected_named_arguments =
    ErrorCode.expected_named_arguments
code_of_transaction InvalidTransactionOrDeploy.invalid_transaction_runtime =
    ErrorCode.invalid_transaction_runtime
code_of_transaction InvalidTransactionOrDeploy.invalid_transaction_no_lane_matches =
    ErrorCode.invalid_transaction_no_lane_matches
code_of_transaction InvalidTransactionOrDeploy.invalid_transaction_entry_point_must_be_call =
    ErrorCode.invalid_transaction_entry_point_must_be_call
code_of_transaction InvalidTransactionOrDeploy.invalid_transaction_cannot_deserialize_field =
    ErrorCode.invalid_transaction_cannot_deserialize_field
code_of_transaction InvalidTransactionOrDeploy.invalid_transaction_cannot_calculate_fields_hash =
    ErrorCode.invalid_transaction_cannot_calculate_fields_hash
code_of_transaction InvalidTransactionOrDeploy.invalid_transaction_unexpected_fields =
    ErrorCode.invalid_transaction_unexpected_fields
code_of_transaction InvalidTransactionOrDeploy.invalid_transaction_expected_bytes_arguments =
    ErrorCode.invalid_transaction_expected_bytes_arguments
code_of_transaction InvalidTransactionOrDeploy.invalid_transaction_missing_seed =
    ErrorCode.invalid_transaction_missing_seed
code_of_transaction InvalidTransactionOrDeploy.pricing_mode_not_supported =
    ErrorCode.pricing_mode_not_supported
code_of_transaction InvalidTransactionOrDeploy.invalid_deploy_gas_limit_not_supported =
    ErrorCode.invalid_deploy_gas_limit_not_supported
code_of_transaction InvalidTransactionOrDeploy.invalid_deploy_invalid_runtime =
    ErrorCode.invalid_deploy_invalid_runtime
code_of_transaction InvalidTransactionOrDeploy.invalid_deploy_exceeded_wasm_lane_gas_limit =
    ErrorCode.invalid_deploy_exceeded_wasm_lane_gas_limit
code_of_transaction InvalidTransactionOrDeploy.invalid_deploy_invalid_payment_amount =
    ErrorCode.invalid_deploy_invalid_payment_amount
code_of_transaction InvalidTransactionOrDeploy.invalid_transaction_insufficient_burn_amount =
    ErrorCode.invalid_transaction_insufficient_burn_amount
code_of_transaction InvalidTransactionOrDeploy.invalid_transaction_invalid_payment_amount =
    ErrorCode.invalid_transaction_invalid_payment_amount
code_of_transaction InvalidTransactionOrDeploy.invalid_transaction_unexpected_entry_point =
    ErrorCode.invalid_transaction_unexpected_entry_point
code_of_transaction InvalidTransactionOrDeploy.invalid_reserved_slots =
    ErrorCode.invalid_reserved_slots
code_of_transaction InvalidTransactionOrDeploy.invalid_delegation_amount =
    ErrorCode.invalid_delegation_amount
code_of_transaction InvalidTransactionOrDeploy.invalid_maximum_delegation_amount =
    ErrorCode.invalid_maximum_delegation_amount
code_of_transaction InvalidTransactionOrDeploy.invalid_minimum_delegation_amount =
    ErrorCode.invalid_minimum_delegation_amount
code_of_transaction InvalidTransactionOrDeploy.insufficient_amount_arg_value =
    ErrorCode.insufficient_amount_arg_value

-- Errors that no code becomes get the code `no_error`, as does the error of that code.
unfoldable pub code_of : Codes → Error → ErrorCode
unfolding code_of_transaction
code_of codes (Error.invalid_transaction t) = code_of_transaction t
code_of codes (Error.spec_execution_failed text) =
    if str_eq text (codes.to_string ErrorCode.wasm_preprocessing)
    then ErrorCode.wasm_preprocessing
    else ErrorCode.invalid_item_variant
code_of codes Error.function_is_disabled = ErrorCode.function_disabled
code_of codes Error.unknown_state_root_hash = ErrorCode.root_not_found
code_of codes Error.query_failed_to_execute = ErrorCode.failed_query
code_of codes Error.switch_block_not_found = ErrorCode.switch_block_not_found
code_of codes Error.switch_block_parent_not_found = ErrorCode.switch_block_parent_not_found
code_of codes Error.unsupported_rewards_v1_request = ErrorCode.unsupported_rewards_v1_request
code_of codes Error.command_header_version_mismatch = ErrorCode.command_header_version_mismatch
code_of codes Error.purse_not_found = ErrorCode.purse_not_found
code_of codes Error.request_throttled = ErrorCode.request_throttled
code_of codes Error.malformed_information_request = ErrorCode.malformed_information_request
code_of codes Error.too_little_bytes_for_request_header_version =
    ErrorCode.too_little_bytes_for_request_header_version
code_of codes Error.malformed_command_header_version = ErrorCode.malformed_command_header_version
code_of codes Error.transfer_record_malformed_key = ErrorCode.transfer_record_malformed_key
code_of codes Error.malformed_command_header = ErrorCode.malformed_command_header
code_of codes Error.malformed_command = ErrorCode.malformed_command
code_of codes Error.not_found = ErrorCode.not_found
code_of codes Error.internal_node_error = ErrorCode.internal_error
code_of codes Error.bad_request = ErrorCode.bad_request
code_of codes Error.unsupported_request = ErrorCode.unsupported_request
code_of codes Error.dictionary_uref_not_found = ErrorCode.dictionary_uref_not_found
code_of codes Error.no_complete_blocks = ErrorCode.no_complete_blocks
code_of codes Error.gas_price_tolerance_too_low = ErrorCode.gas_price_tolerance_too_low
code_of codes Error.received_v1_transaction = ErrorCode.received_v1_transaction
code_of codes Error.transaction_has_malformed_binary_representation =
    ErrorCode.transaction_has_malformed_binary_representation
code_of codes Error.unsupported_invocation_target = ErrorCode.unsupported_invocation_target
code_of codes _ = ErrorCode.no_error
