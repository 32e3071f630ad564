-- ===== src/NodeClient/Transaction.antt =====
-- `InvalidTransactionOrDeploy` of rpc_sidecar/src/node_client.rs, and how the codes of the node become it.
pub mod Display
use casper_sidecar.NodeClient.Code.{
  ErrorCode, invalid_deploy_chain_name, invalid_deploy_dependencies_no_longer_supported,
  invalid_deploy_excessive_size, invalid_deploy_excessive_time_to_live,
  invalid_deploy_timestamp_in_future, invalid_deploy_body_hash, invalid_deploy_hash,
  invalid_deploy_empty_approvals, invalid_deploy_approval,
  invalid_deploy_excessive_session_args_length, invalid_deploy_excessive_payment_args_length,
  invalid_deploy_missing_payment_amount, invalid_deploy_failed_to_parse_payment_amount,
  invalid_deploy_exceeded_block_gas_limit, invalid_deploy_missing_transfer_amount,
  invalid_deploy_failed_to_parse_transfer_amount, invalid_deploy_insufficient_transfer_amount,
  invalid_deploy_excessive_approvals, invalid_deploy_unable_to_calculate_gas_limit,
  invalid_deploy_unable_to_calculate_gas_cost, invalid_deploy_unspecified,
  invalid_transaction_chain_name, invalid_transaction_excessive_size,
  invalid_transaction_excessive_time_to_live, invalid_transaction_timestamp_in_future,
  invalid_transaction_body_hash, invalid_transaction_hash, invalid_transaction_empty_approvals,
  invalid_transaction_invalid_approval, invalid_transaction_excessive_args_length,
  invalid_transaction_excessive_approvals, invalid_transaction_exceeds_block_gas_limit,
  invalid_transaction_missing_arg, invalid_transaction_unexpected_arg_type,
  invalid_transaction_invalid_arg, invalid_transaction_insufficient_transfer_amount,
  invalid_transaction_entry_point_cannot_be_custom, invalid_transaction_entry_point_must_be_custom,
  invalid_transaction_empty_module_bytes, invalid_transaction_gas_price_conversion,
  invalid_transaction_unable_to_calculate_gas_limit,
  invalid_transaction_unable_to_calculate_gas_cost, invalid_transaction_pricing_mode,
  invalid_transaction_unspecified, invalid_transaction_or_deploy_unspecified,
}

pub data InvalidTransactionOrDeploy : Type 0 where
  deploy_chain_name deploy_dependencies_no_longer_supported : InvalidTransactionOrDeploy
  deploy_excessive_size deploy_excessive_time_to_live : InvalidTransactionOrDeploy
  deploy_timestamp_in_future deploy_body_hash deploy_hash : InvalidTransactionOrDeploy
  deploy_empty_approvals deploy_approval : InvalidTransactionOrDeploy
  deploy_excessive_session_args_length : InvalidTransactionOrDeploy
  deploy_excessive_payment_args_length : InvalidTransactionOrDeploy
  deploy_missing_payment_amount : InvalidTransactionOrDeploy
  deploy_failed_to_parse_payment_amount : InvalidTransactionOrDeploy
  deploy_exceeded_block_gas_limit deploy_missing_transfer_amount : InvalidTransactionOrDeploy
  deploy_failed_to_parse_transfer_amount : InvalidTransactionOrDeploy
  deploy_insufficient_transfer_amount deploy_excessive_approvals : InvalidTransactionOrDeploy
  deploy_unable_to_calculate_gas_limit : InvalidTransactionOrDeploy
  deploy_unable_to_calculate_gas_cost deploy_unspecified : InvalidTransactionOrDeploy
  transaction_chain_name transaction_excessive_size : InvalidTransactionOrDeploy
  transaction_excessive_time_to_live : InvalidTransactionOrDeploy
  transaction_timestamp_in_future transaction_body_hash : InvalidTransactionOrDeploy
  transaction_hash transaction_empty_approvals : InvalidTransactionOrDeploy
  transaction_invalid_approval transaction_excessive_args_length : InvalidTransactionOrDeploy
  transaction_excessive_approvals : InvalidTransactionOrDeploy
  transaction_exceeds_block_gas_limit transaction_missing_arg : InvalidTransactionOrDeploy
  transaction_unexpected_arg_type transaction_invalid_arg : InvalidTransactionOrDeploy
  transaction_insufficient_transfer_amount : InvalidTransactionOrDeploy
  transaction_entry_point_cannot_be_custom : InvalidTransactionOrDeploy
  transaction_entry_point_must_be_custom : InvalidTransactionOrDeploy
  transaction_empty_module_bytes transaction_gas_price_conversion : InvalidTransactionOrDeploy
  transaction_unable_to_calculate_gas_limit : InvalidTransactionOrDeploy
  transaction_unable_to_calculate_gas_cost transaction_pricing_mode : InvalidTransactionOrDeploy
  transaction_unspecified transaction_or_deploy_unspecified : InvalidTransactionOrDeploy
  empty_blockchain expected_deploy expected_transaction : InvalidTransactionOrDeploy
  transaction_expired missing_or_incorrect_parameters : InvalidTransactionOrDeploy
  no_such_addressable_entity no_such_contract_at_hash : InvalidTransactionOrDeploy
  no_such_entry_point no_such_package_at_hash : InvalidTransactionOrDeploy
  invalid_entity_at_version disabled_entity_at_version : InvalidTransactionOrDeploy
  missing_entity_at_version invalid_associated_keys : InvalidTransactionOrDeploy
  insufficient_signature_weight insufficient_balance : InvalidTransactionOrDeploy
  unknown_balance deploy_invalid_payment_variant : InvalidTransactionOrDeploy
  deploy_missing_transfer_target deploy_missing_module_bytes : InvalidTransactionOrDeploy
  invalid_transaction_entry_point_cannot_be_call : InvalidTransactionOrDeploy
  invalid_transaction_invalid_transaction_lane : InvalidTransactionOrDeploy
  expected_named_arguments invalid_transaction_runtime : InvalidTransactionOrDeploy
  invalid_transaction_no_lane_matches : InvalidTransactionOrDeploy
  invalid_transaction_entry_point_must_be_call : InvalidTransactionOrDeploy
  invalid_transaction_cannot_deserialize_field : InvalidTransactionOrDeploy
  invalid_transaction_cannot_calculate_fields_hash : InvalidTransactionOrDeploy
  invalid_transaction_unexpected_fields : InvalidTransactionOrDeploy
  invalid_transaction_expected_bytes_arguments : InvalidTransactionOrDeploy
  invalid_transaction_missing_seed pricing_mode_not_supported : InvalidTransactionOrDeploy
  invalid_deploy_gas_limit_not_supported : InvalidTransactionOrDeploy
  invalid_deploy_invalid_runtime : InvalidTransactionOrDeploy
  invalid_deploy_exceeded_wasm_lane_gas_limit : InvalidTransactionOrDeploy
  invalid_deploy_invalid_payment_amount : InvalidTransactionOrDeploy
  invalid_transaction_insufficient_burn_amount : InvalidTransactionOrDeploy
  invalid_transaction_invalid_payment_amount : InvalidTransactionOrDeploy
  invalid_transaction_unexpected_entry_point invalid_reserved_slots : InvalidTransactionOrDeploy
  invalid_delegation_amount invalid_maximum_delegation_amount : InvalidTransactionOrDeploy
  invalid_minimum_delegation_amount insufficient_amount_arg_value : InvalidTransactionOrDeploy

-- `From<ErrorCode>`
unfoldable pub from : ErrorCode → InvalidTransactionOrDeploy
from ErrorCode.invalid_deploy_chain_name = deploy_chain_name
from ErrorCode.invalid_deploy_dependencies_no_longer_supported =
    deploy_dependencies_no_longer_supported
from ErrorCode.invalid_deploy_excessive_size = deploy_excessive_size
from ErrorCode.invalid_deploy_excessive_time_to_live = deploy_excessive_time_to_live
from ErrorCode.invalid_deploy_timestamp_in_future = deploy_timestamp_in_future
from ErrorCode.invalid_deploy_body_hash = deploy_body_hash
from ErrorCode.invalid_deploy_hash = deploy_hash
from ErrorCode.invalid_deploy_empty_approvals = deploy_empty_approvals
from ErrorCode.invalid_deploy_approval = deploy_approval
from ErrorCode.invalid_deploy_excessive_session_args_length = deploy_excessive_session_args_length
from ErrorCode.invalid_deploy_excessive_payment_args_length = deploy_excessive_payment_args_length
from ErrorCode.invalid_deploy_missing_payment_amount = deploy_missing_payment_amount
from ErrorCode.invalid_deploy_failed_to_parse_payment_amount = deploy_failed_to_parse_payment_amount
from ErrorCode.invalid_deploy_exceeded_block_gas_limit = deploy_exceeded_block_gas_limit
from ErrorCode.invalid_deploy_missing_transfer_amount = deploy_missing_transfer_amount
from ErrorCode.invalid_deploy_failed_to_parse_transfer_amount =
    deploy_failed_to_parse_transfer_amount
from ErrorCode.invalid_deploy_insufficient_transfer_amount = deploy_insufficient_transfer_amount
from ErrorCode.invalid_deploy_excessive_approvals = deploy_excessive_approvals
from ErrorCode.invalid_deploy_unable_to_calculate_gas_limit = deploy_unable_to_calculate_gas_limit
from ErrorCode.invalid_deploy_unable_to_calculate_gas_cost = deploy_unable_to_calculate_gas_cost
from ErrorCode.invalid_deploy_unspecified = deploy_unspecified
from ErrorCode.invalid_transaction_chain_name = transaction_chain_name
from ErrorCode.invalid_transaction_excessive_size = transaction_excessive_size
from ErrorCode.invalid_transaction_excessive_time_to_live = transaction_excessive_time_to_live
from ErrorCode.invalid_transaction_timestamp_in_future = transaction_timestamp_in_future
from ErrorCode.invalid_transaction_body_hash = transaction_body_hash
from ErrorCode.invalid_transaction_hash = transaction_hash
from ErrorCode.invalid_transaction_empty_approvals = transaction_empty_approvals
from ErrorCode.invalid_transaction_invalid_approval = transaction_invalid_approval
from ErrorCode.invalid_transaction_excessive_args_length = transaction_excessive_args_length
from ErrorCode.invalid_transaction_excessive_approvals = transaction_excessive_approvals
from ErrorCode.invalid_transaction_exceeds_block_gas_limit = transaction_exceeds_block_gas_limit
from ErrorCode.invalid_transaction_missing_arg = transaction_missing_arg
from ErrorCode.invalid_transaction_unexpected_arg_type = transaction_unexpected_arg_type
from ErrorCode.invalid_transaction_invalid_arg = transaction_invalid_arg
from ErrorCode.invalid_transaction_insufficient_transfer_amount =
    transaction_insufficient_transfer_amount
from ErrorCode.invalid_transaction_entry_point_cannot_be_custom =
    transaction_entry_point_cannot_be_custom
from ErrorCode.invalid_transaction_entry_point_must_be_custom =
    transaction_entry_point_must_be_custom
from ErrorCode.invalid_transaction_empty_module_bytes = transaction_empty_module_bytes
from ErrorCode.invalid_transaction_gas_price_conversion = transaction_gas_price_conversion
from ErrorCode.invalid_transaction_unable_to_calculate_gas_limit =
    transaction_unable_to_calculate_gas_limit
from ErrorCode.invalid_transaction_unable_to_calculate_gas_cost =
    transaction_unable_to_calculate_gas_cost
from ErrorCode.invalid_transaction_pricing_mode = transaction_pricing_mode
from ErrorCode.empty_blockchain = empty_blockchain
from ErrorCode.expected_deploy = expected_deploy
from ErrorCode.expected_transaction = expected_transaction
from ErrorCode.transaction_expired = transaction_expired
from ErrorCode.missing_or_incorrect_parameters = missing_or_incorrect_parameters
from ErrorCode.no_such_addressable_entity = no_such_addressable_entity
from ErrorCode.no_such_contract_at_hash = no_such_contract_at_hash
from ErrorCode.no_such_entry_point = no_such_entry_point
from ErrorCode.no_such_package_at_hash = no_such_package_at_hash
from ErrorCode.invalid_entity_at_version = invalid_entity_at_version
from ErrorCode.disabled_entity_at_version = disabled_entity_at_version
from ErrorCode.missing_entity_at_version = missing_entity_at_version
from ErrorCode.invalid_associated_keys = invalid_associated_keys
from ErrorCode.insufficient_signature_weight = insufficient_signature_weight
from ErrorCode.insufficient_balance = insufficient_balance
from ErrorCode.unknown_balance = unknown_balance
from ErrorCode.deploy_invalid_payment_variant = deploy_invalid_payment_variant
from ErrorCode.deploy_missing_payment_amount = deploy_missing_payment_amount
from ErrorCode.deploy_failed_to_parse_payment_amount = deploy_failed_to_parse_payment_amount
from ErrorCode.deploy_missing_transfer_target = deploy_missing_transfer_target
from ErrorCode.deploy_missing_module_bytes = deploy_missing_module_bytes
from ErrorCode.invalid_transaction_entry_point_cannot_be_call =
    invalid_transaction_entry_point_cannot_be_call
from ErrorCode.invalid_transaction_invalid_transaction_lane =
    invalid_transaction_invalid_transaction_lane
from ErrorCode.invalid_transaction_unspecified = transaction_unspecified
from ErrorCode.invalid_transaction_or_deploy_unspecified = transaction_or_deploy_unspecified
from ErrorCode.expected_named_arguments = expected_named_arguments
from ErrorCode.invalid_transaction_runtime = invalid_transaction_runtime
from ErrorCode.invalid_transaction_no_lane_matches = invalid_transaction_no_lane_matches
from ErrorCode.invalid_transaction_entry_point_must_be_call =
    invalid_transaction_entry_point_must_be_call
from ErrorCode.invalid_transaction_cannot_deserialize_field =
    invalid_transaction_cannot_deserialize_field
from ErrorCode.invalid_transaction_cannot_calculate_fields_hash =
    invalid_transaction_cannot_calculate_fields_hash
from ErrorCode.invalid_transaction_unexpected_fields = invalid_transaction_unexpected_fields
from ErrorCode.invalid_transaction_expected_bytes_arguments =
    invalid_transaction_expected_bytes_arguments
from ErrorCode.invalid_transaction_missing_seed = invalid_transaction_missing_seed
from ErrorCode.pricing_mode_not_supported = pricing_mode_not_supported
from ErrorCode.invalid_deploy_gas_limit_not_supported = invalid_deploy_gas_limit_not_supported
from ErrorCode.invalid_deploy_invalid_runtime = invalid_deploy_invalid_runtime
from ErrorCode.invalid_deploy_exceeded_wasm_lane_gas_limit =
    invalid_deploy_exceeded_wasm_lane_gas_limit
from ErrorCode.invalid_deploy_invalid_payment_amount = invalid_deploy_invalid_payment_amount
from ErrorCode.invalid_transaction_insufficient_burn_amount =
    invalid_transaction_insufficient_burn_amount
from ErrorCode.invalid_transaction_invalid_payment_amount =
    invalid_transaction_invalid_payment_amount
from ErrorCode.invalid_transaction_unexpected_entry_point =
    invalid_transaction_unexpected_entry_point
from ErrorCode.invalid_reserved_slots = invalid_reserved_slots
from ErrorCode.invalid_delegation_amount = invalid_delegation_amount
from ErrorCode.invalid_maximum_delegation_amount = invalid_maximum_delegation_amount
from ErrorCode.invalid_minimum_delegation_amount = invalid_minimum_delegation_amount
from ErrorCode.insufficient_amount_arg_value = insufficient_amount_arg_value
from _ = transaction_or_deploy_unspecified
