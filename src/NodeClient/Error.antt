-- ===== src/NodeClient/Error.antt =====
-- The errors of the node client in rpc_sidecar/src/node_client.rs.
use casper_sidecar.Prelude.{ℕ, String, [], ◌∷◌}
use casper_sidecar.Prelude.Text.{format}
use casper_sidecar.Prelude.Decimal.{decimal}
use casper_sidecar.NodeClient.Transaction.{InvalidTransactionOrDeploy}
use casper_sidecar.NodeClient.Transaction.Display

pub data Error : Type 0 where
  request_failed : String → Error
  request_response_id_mismatch : (expected got : ℕ) → Error
  too_many_mismatched_responses : (max : ℕ) → Error
  original_request_deserialization : String → Error
  deserialization : String → Error
  serialization : String → Error
  unexpected_variant_received : ℕ → Error
  invalid_transaction : InvalidTransactionOrDeploy → Error
  spec_execution_failed : String → Error
  unexpected_node_error : (message : String) (code : ℕ) → Error
  envelope_deserialization no_response_body empty_envelope function_is_disabled : Error
  unknown_state_root_hash query_failed_to_execute switch_block_not_found : Error
  switch_block_parent_not_found unsupported_rewards_v1_request purse_not_found : Error
  command_header_version_mismatch request_throttled malformed_information_request : Error
  too_little_bytes_for_request_header_version malformed_command_header_version : Error
  transfer_record_malformed_key malformed_command_header malformed_command not_found : Error
  internal_node_error bad_request unsupported_request dictionary_uref_not_found : Error
  no_complete_blocks gas_price_tolerance_too_low received_v1_transaction connection_lost : Error
  transaction_has_malformed_binary_representation unsupported_invocation_target : Error

unfoldable pub display : Error → String
unfolding Display.display decimal format
display (request_failed e) = format ("request error: " ∷ e ∷ [])
display (request_response_id_mismatch expected got) =
    format ("request id mismatch: expected " ∷ decimal expected ∷ ", got " ∷ decimal got ∷ [])
display (too_many_mismatched_responses max) =
    format ("failed to get a response with correct id " ∷ decimal max ∷ " times, giving up" ∷ [])
display (original_request_deserialization e) =
    format ("failed to deserialize the original request provided with the response: " ∷ e ∷ [])
display envelope_deserialization = "failed to deserialize the envelope of a response"
display (deserialization e) = format ("failed to deserialize a response: " ∷ e ∷ [])
display (serialization e) = format ("failed to serialize a request: " ∷ e ∷ [])
display no_response_body = "unexpectedly received no response body"
display empty_envelope = "unexpectedly received an empty envelope"
display (unexpected_variant_received tag) =
    format ("unexpected payload variant received in the response: " ∷ decimal tag ∷ [])
display function_is_disabled = "attempted to use a function that's disabled on the node"
display unknown_state_root_hash = "could not find the provided state root hash"
display query_failed_to_execute = "the provided global state query failed to execute"
display (invalid_transaction e) =
    format ("could not execute the provided transaction: " ∷ Display.display e ∷ [])
display (spec_execution_failed e) = format ("speculative execution has failed: " ∷ e ∷ [])
display switch_block_not_found = "the switch block for the requested era was not found"
display switch_block_parent_not_found =
    "the parent of the switch block for the requested era was not found"
display unsupported_rewards_v1_request = "cannot serve rewards stored in V1 format"
display purse_not_found = "purse was not found for given identifier"
display (unexpected_node_error message code) =
    format ("received an unexpected node error: " ∷ message ∷ " (" ∷ decimal code ∷ ")" ∷ [])
display command_header_version_mismatch = "binary protocol version mismatch"
display request_throttled = "request was throttled by the node"
display malformed_information_request = "malformed information request"
display too_little_bytes_for_request_header_version = "malformed version bytes in command header"
display malformed_command_header_version = "malformed protocol version"
display transfer_record_malformed_key = "malformed transfer record key"
display malformed_command_header = "malformed command header"
display malformed_command = "malformed command"
display not_found = "not found"
display internal_node_error = "node reported internal error"
display bad_request = "bad request"
display unsupported_request = "unsupported request"
display dictionary_uref_not_found = "dictionary URef not found"
display no_complete_blocks = "no complete blocks"
display gas_price_tolerance_too_low = "gas price tolerance too low"
display received_v1_transaction = "received v1 transaction for speculative execution"
display connection_lost = "connection to node lost"
display transaction_has_malformed_binary_representation =
    "transaction has malformed binary representation"
display unsupported_invocation_target =
    "the transaction invocation target is unsupported under V2 runtime"
