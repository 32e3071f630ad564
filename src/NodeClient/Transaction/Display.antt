-- ===== src/NodeClient/Transaction/Display.antt =====
-- The texts of `InvalidTransactionOrDeploy` of rpc_sidecar/src/node_client.rs.
use Prim.Native.String.{String}
use casper_sidecar.NodeClient.Transaction.{
  InvalidTransactionOrDeploy, deploy_chain_name, deploy_dependencies_no_longer_supported,
  deploy_excessive_size, deploy_excessive_time_to_live, deploy_timestamp_in_future,
  deploy_body_hash, deploy_hash, deploy_empty_approvals, deploy_approval,
  deploy_excessive_session_args_length, deploy_excessive_payment_args_length,
  deploy_missing_payment_amount, deploy_failed_to_parse_payment_amount,
  deploy_exceeded_block_gas_limit, deploy_missing_transfer_amount,
  deploy_failed_to_parse_transfer_amount, deploy_insufficient_transfer_amount,
  deploy_excessive_approvals, deploy_unable_to_calculate_gas_limit,
  deploy_unable_to_calculate_gas_cost, deploy_unspecified, transaction_chain_name,
  transaction_excessive_size, transaction_excessive_time_to_live, transaction_timestamp_in_future,
  transaction_body_hash, transaction_hash, transaction_empty_approvals,
  transaction_invalid_approval, transaction_excessive_args_length, transaction_excessive_approvals,
  transaction_exceeds_block_gas_limit, transaction_missing_arg, transaction_unexpected_arg_type,
  transaction_invalid_arg, transaction_insufficient_transfer_amount,
  transaction_entry_point_cannot_be_custom, transaction_entry_point_must_be_custom,
  transaction_empty_module_bytes, transaction_gas_price_conversion,
  transaction_unable_to_calculate_gas_limit, transaction_unable_to_calculate_gas_cost,
  transaction_pricing_mode, transaction_unspecified, transaction_or_deploy_unspecified,
  empty_blockchain, expected_deploy, expected_transaction, transaction_expired,
  missing_or_incorrect_parameters, no_such_addressable_entity, no_such_contract_at_hash,
  no_such_entry_point, no_such_package_at_hash, invalid_entity_at_version,
  disabled_entity_at_version, missing_entity_at_version, invalid_associated_keys,
  insufficient_signature_weight, insufficient_balance, unknown_balance,
  deploy_invalid_payment_variant, deploy_missing_transfer_target, deploy_missing_module_bytes,
  invalid_transaction_entry_point_cannot_be_call, invalid_transaction_invalid_transaction_lane,
  expected_named_arguments, invalid_transaction_runtime, invalid_transaction_no_lane_matches,
  invalid_transaction_entry_point_must_be_call, invalid_transaction_cannot_deserialize_field,
  invalid_transaction_cannot_calculate_fields_hash, invalid_transaction_unexpected_fields,
  invalid_transaction_expected_bytes_arguments, invalid_transaction_missing_seed,
  pricing_mode_not_supported, invalid_deploy_gas_limit_not_supported,
  invalid_deploy_invalid_runtime, invalid_deploy_exceeded_wasm_lane_gas_limit,
  invalid_deploy_invalid_payment_amount, invalid_transaction_insufficient_burn_amount,
  invalid_transaction_invalid_payment_amount, invalid_transaction_unexpected_entry_point,
  invalid_reserved_slots, invalid_delegation_amount, invalid_maximum_delegation_amount,
  invalid_minimum_delegation_amount, insufficient_amount_arg_value,
}

unfoldable pub display : InvalidTransactionOrDeploy → String
display deploy_chain_name = "The deploy had an invalid chain name"
display deploy_dependencies_no_longer_supported =
    "The dependencies for this transaction are no longer supported"
display deploy_excessive_size = "The deploy had an excessive size"
display deploy_excessive_time_to_live = "The deploy had an excessive time to live"
display deploy_timestamp_in_future = "The deploys timestamp is in the future"
display deploy_body_hash = "The deploy had an invalid body hash"
display deploy_hash = "The deploy had an invalid deploy hash"
display deploy_empty_approvals = "The deploy had no approvals"
display deploy_approval = "The deploy had an invalid approval"
display deploy_excessive_session_args_length = "The deploy had an excessive session args length"
display deploy_excessive_payment_args_length = "The deploy had an excessive payment args length"
display deploy_missing_payment_amount = "The deploy had a missing payment amount"
display deploy_failed_to_parse_payment_amount =
    "The deploy sent to the network had a payment amount that was unable to be parsed"
display deploy_exceeded_block_gas_limit =
    "The deploy sent to the network exceeded the block gas limit"
display deploy_missing_transfer_amount =
    "The deploy sent to the network was missing a transfer amount"
display deploy_failed_to_parse_transfer_amount =
    "The deploy sent to the network had a transfer amount that was unable to be parsed"
display deploy_insufficient_transfer_amount =
    "The deploy sent to the network had an insufficient transfer amount"
display deploy_excessive_approvals = "The deploy sent to the network had excessive approvals"
display deploy_unable_to_calculate_gas_limit =
    "The network was unable to calculate the gas limit associated with the deploy"
display deploy_unable_to_calculate_gas_cost =
    "The network was unable to calculate the gas cost for the deploy"
display deploy_unspecified = "The deploy sent to the network was invalid for an unspecified reason"
display transaction_chain_name = "The transaction sent to the network had an invalid chain name"
display transaction_excessive_size = "The transaction sent to the network had an excessive size"
display transaction_excessive_time_to_live =
    "The transaction sent to the network had an excessive time to live"
display transaction_timestamp_in_future =
    "The transaction sent to the network had a timestamp that has not yet occurred"
display transaction_body_hash = "The transaction sent to the network had an invalid body hash"
display transaction_hash = "The transaction sent to the network had an invalid hash"
display transaction_empty_approvals = "The transaction sent to the network had no approvals"
display transaction_invalid_approval = "The transaction sent to the network had an invalid approval"
display transaction_excessive_args_length =
    "The transaction sent to the network had excessive args length"
display transaction_excessive_approvals =
    "The transaction sent to the network had excessive approvals"
display transaction_exceeds_block_gas_limit =
    "The transaction sent to the network exceeds the networks block gas limit"
display transaction_missing_arg = "The transaction sent to the network was missing an argument"
display transaction_unexpected_arg_type =
    "The transaction sent to the network had an unexpected argument type"
display transaction_invalid_arg = "The transaction sent to the network had an invalid argument"
display transaction_insufficient_transfer_amount =
    "The transaction sent to the network had an insufficient transfer amount"
display transaction_entry_point_cannot_be_custom =
    "The native transaction sent to the network should not have a custom entry point"
display transaction_entry_point_must_be_custom =
    "The non-native transaction sent to the network must have a custom entry point"
display transaction_empty_module_bytes =
    "The transaction sent to the network had empty module bytes"
display transaction_gas_price_conversion =
    "The transaction sent to the network had an invalid gas price conversion"
display transaction_unable_to_calculate_gas_limit =
    "The network was unable to calculate the gas limit for the transaction sent"
display transaction_unable_to_calculate_gas_cost =
    "The network was unable to calculate the gas cost for the transaction sent."
display transaction_pricing_mode = "The transaction sent to the network had an invalid pricing mode"
display transaction_unspecified =
    "The transaction sent to the network was invalid for an unspecified reason"
display transaction_or_deploy_unspecified =
    "The transaction or deploy sent to the network was invalid for an unspecified reason"
display empty_blockchain = "blockchain is empty"
display expected_deploy = "expected deploy, got transaction"
display expected_transaction = "expected transaction V1, got deploy"
display transaction_expired = "transaction has expired"
display missing_or_incorrect_parameters = "missing or incorrect transaction parameters"
display no_such_addressable_entity = "no such addressable entity"
display no_such_contract_at_hash = "no such contract at hash"
display no_such_entry_point = "no such entry point"
display no_such_package_at_hash = "no such package at hash"
display invalid_entity_at_version = "invalid entity at version"
display disabled_entity_at_version = "disabled entity at version"
display missing_entity_at_version = "missing entity at version"
display invalid_associated_keys = "invalid associated keys"
display insufficient_signature_weight = "insufficient signature weight"
display insufficient_balance = "insufficient balance"
display unknown_balance = "unknown balance"
display deploy_invalid_payment_variant = "invalid payment variant for deploy"
display deploy_missing_transfer_target = "missing transfer target for deploy"
display deploy_missing_module_bytes = "missing module bytes for deploy"
display invalid_transaction_entry_point_cannot_be_call = "entry point cannot be 'call'"
display invalid_transaction_invalid_transaction_lane = "invalid transaction lane"
display expected_named_arguments = "expected named arguments"
display invalid_transaction_runtime = "invalid transaction runtime"
display invalid_transaction_no_lane_matches =
    "couldn't associate a transaction lane with the transaction"
display invalid_transaction_entry_point_must_be_call = "entry point must be 'call'"
display invalid_transaction_cannot_deserialize_field =
    "One of the payloads field cannot be deserialized"
display invalid_transaction_cannot_calculate_fields_hash =
    "Can't calculate hash of the payload fields"
display invalid_transaction_unexpected_fields = "Unexpected fields in payload"
display invalid_transaction_expected_bytes_arguments = "expected bytes arguments"
display invalid_transaction_missing_seed = "Missing seed field in transaction"
display pricing_mode_not_supported = "Pricing mode not supported"
display invalid_deploy_gas_limit_not_supported = "Gas limit not supported"
display invalid_deploy_invalid_runtime = "Invalid runtime for Transaction::Deploy"
display invalid_deploy_exceeded_wasm_lane_gas_limit = "Transaction::Deploy exceeds lane gas limit"
display invalid_deploy_invalid_payment_amount = "Invalid payment amount for Transaction::Deploy"
display invalid_transaction_insufficient_burn_amount =
    "Insufficient burn amount for Transaction::V1"
display invalid_transaction_invalid_payment_amount = "Invalid payment amount for Transaction::V1"
display invalid_transaction_unexpected_entry_point = "Unexpected entry point for Transaction::V1"
display invalid_reserved_slots = "Invalid number of reserved slots"
display invalid_delegation_amount = "Invalid delegation amount"
display invalid_maximum_delegation_amount =
    "Using `version` for targeting contract version is not supported"
display invalid_minimum_delegation_amount = "Invalid minimum delegation"
display insufficient_amount_arg_value = "Insufficient amount arg value"
