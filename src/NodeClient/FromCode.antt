-- ===== src/NodeClient/FromCode.antt =====
-- `Error::from_error_code` of rpc_sidecar/src/node_client.rs. The numbers and the texts of the codes are those of
-- casper_binary_port.
pub mod Inverse
pub mod Laws
use casper_sidecar.Prelude.{ℕ, String}
use casper_sidecar.Prelude.Result.{Result, ok, err}
use casper_sidecar.NodeClient.Code.{
  ErrorCode, function_disabled, root_not_found, failed_query, switch_block_not_found,
  switch_block_parent_not_found, unsupported_rewards_v1_request, command_header_version_mismatch,
  purse_not_found, request_throttled, malformed_information_request,
  too_little_bytes_for_request_header_version, malformed_command_header_version,
  transfer_record_malformed_key, malformed_command_header, malformed_command, wasm_preprocessing,
  invalid_item_variant, not_found, internal_error, bad_request, unsupported_request,
  dictionary_uref_not_found, no_complete_blocks, gas_price_tolerance_too_low,
  received_v1_transaction, transaction_has_malformed_binary_representation, no_error,
  unsupported_invocation_target,
}
use casper_sidecar.NodeClient.Transaction.{from}
use casper_sidecar.NodeClient.Error.{
  Error, invalid_transaction, spec_execution_failed, unexpected_node_error, function_is_disabled,
  unknown_state_root_hash, query_failed_to_execute, internal_node_error,
}

-- What the crate says of its codes: `TryFrom<u16>` with the text of its error, `Display`, and
-- `ErrorCode::NoError as u16`.
pub record Codes : Type 0 where
  pub try_from : ℕ → Result ErrorCode String
  pub to_string : ErrorCode → String
  pub no_error_number : ℕ

module _ (codes : Codes) where
  -- The error of a code that the crate knows.
  unfoldable pub from_known : ErrorCode → Error
  unfolding from
  from_known ErrorCode.function_disabled = Error.function_is_disabled
  from_known ErrorCode.root_not_found = Error.unknown_state_root_hash
  from_known ErrorCode.failed_query = Error.query_failed_to_execute
  from_known ErrorCode.switch_block_not_found = Error.switch_block_not_found
  from_known ErrorCode.switch_block_parent_not_found = Error.switch_block_parent_not_found
  from_known ErrorCode.unsupported_rewards_v1_request = Error.unsupported_rewards_v1_request
  from_known ErrorCode.command_header_version_mismatch = Error.command_header_version_mismatch
  from_known ErrorCode.purse_not_found = Error.purse_not_found
  from_known ErrorCode.request_throttled = Error.request_throttled
  from_known ErrorCode.malformed_information_request = Error.malformed_information_request
  from_known ErrorCode.too_little_bytes_for_request_header_version =
      Error.too_little_bytes_for_request_header_version
  from_known ErrorCode.malformed_command_header_version = Error.malformed_command_header_version
  from_known ErrorCode.transfer_record_malformed_key = Error.transfer_record_malformed_key
  from_known ErrorCode.malformed_command_header = Error.malformed_command_header
  from_known ErrorCode.malformed_command = Error.malformed_command
  from_known ErrorCode.not_found = Error.not_found
  from_known ErrorCode.internal_error = Error.internal_node_error
  from_known ErrorCode.bad_request = Error.bad_request
  from_known ErrorCode.unsupported_request = Error.unsupported_request
  from_known ErrorCode.dictionary_uref_not_found = Error.dictionary_uref_not_found
  from_known ErrorCode.no_complete_blocks = Error.no_complete_blocks
  from_known ErrorCode.gas_price_tolerance_too_low = Error.gas_price_tolerance_too_low
  from_known ErrorCode.received_v1_transaction = Error.received_v1_transaction
  from_known ErrorCode.transaction_has_malformed_binary_representation =
      Error.transaction_has_malformed_binary_representation
  from_known ErrorCode.unsupported_invocation_target = Error.unsupported_invocation_target
  from_known ErrorCode.wasm_preprocessing =
      spec_execution_failed (codes.to_string ErrorCode.wasm_preprocessing)
  from_known ErrorCode.invalid_item_variant =
      spec_execution_failed (codes.to_string ErrorCode.invalid_item_variant)
  from_known ErrorCode.no_error =
      unexpected_node_error "Received unexpected 'NoError' error code" codes.no_error_number
  from_known code = invalid_transaction (from code)

  unfoldable pub from_error_code : ℕ → Error
  unfolding from_known
  from_error_code code = elim (codes.try_from code) [
    | ok known ↦ from_known known
    | err e ↦ unexpected_node_error e code
  ]
