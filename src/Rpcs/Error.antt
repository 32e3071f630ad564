-- ===== src/Rpcs/Error.antt =====
-- rpc_sidecar/src/rpcs/error.rs: the errors of the methods, and the JSON-RPC errors that they become.
pub mod Laws
use casper_sidecar.Prelude.{String, Option, none, some, [], ◌∷◌}
use casper_sidecar.Prelude.Text.{format}
use casper_sidecar.Prelude.Result.{Result, ok}
use casper_sidecar.JsonRpc.Json.{Value, string}
use casper_sidecar.JsonRpc.Error.{
  Error as RpcError, new_error, internal_error, ReservedErrorCode-code,
}
use casper_sidecar.NodeClient.Error
use casper_sidecar.NodeClient.Transaction.{InvalidTransactionOrDeploy, no_such_addressable_entity}
use casper_sidecar.NodeClient.Transaction.Display
use casper_sidecar.NodeClient.Port.{BinaryPort}
use casper_sidecar.NodeClient.Types.{PortTypes}
use casper_sidecar.Rpcs.Code.{
  ErrorCode, no_such_deploy, no_such_block, failed_to_parse_query_key, query_failed,
  query_failed_to_execute, failed_to_parse_get_balance_uref, failed_to_get_balance, no_such_account,
  failed_to_get_dictionary_uref, no_such_state_root, no_main_purse, no_such_transaction,
  variant_mismatch, node_request_failed, function_is_disabled, no_rewards_found,
  switch_block_not_found, switch_block_parent_not_found, unsupported_rewards_v1_request,
  purse_not_found, rpcs_code,
}

-- The other types of casper_types that errors hold, and the texts of all of them.
pub record ErrorTypes {port : BinaryPort} (types : PortTypes port) : Type 1 where
  pub DeployHash : Type 0
  pub URefFromStrError : Type 0
  pub BytesreprError : Type 0
  pub transaction_hash_to_string : types.TransactionHash → String
  pub deploy_hash_to_string : DeployHash → String
  pub uref_error_to_string : URefFromStrError → String
  pub key_tag_to_string : types.KeyTag → String
  pub bytesrepr_error_to_string : BytesreprError → String

module _ {port : BinaryPort} (types : PortTypes port) (more : ErrorTypes types) where
  pub data RpcsError : Type 0 where
    node_request : String → Error.Error → RpcsError
    no_block_found : Option types.BlockIdentifier → types.AvailableBlockRange → RpcsError
    no_transaction_with_hash : types.TransactionHash → RpcsError
    no_deploy_with_hash : more.DeployHash → RpcsError
    found_transaction_instead_of_deploy : RpcsError
    global_state_entry_not_found : RpcsError
    invalid_purse_uref : more.URefFromStrError → RpcsError
    invalid_dictionary_key : String → RpcsError
    invalid_type_under_dictionary_key : String → RpcsError
    dictionary_key_not_found : RpcsError
    dictionary_name_not_found : RpcsError
    main_purse_not_found : RpcsError
    account_not_found : RpcsError
    addressable_entity_not_found : RpcsError
    reward_not_found : RpcsError
    account_migrated_to_entity : RpcsError
    dictionary_value_is_not_a_uref : types.KeyTag → RpcsError
    dictionary_key_could_not_be_parsed : String → RpcsError
    invalid_transaction : InvalidTransactionOrDeploy → RpcsError
    invalid_deploy : InvalidTransactionOrDeploy → RpcsError
    invalid_purse_balance : RpcsError
    invalid_account_info : RpcsError
    invalid_addressable_entity : RpcsError
    invalid_auction_state : RpcsError
    invalid_named_keys : String → RpcsError
    invalid_entry_points : String → RpcsError
    spec_exec_returned_nothing : RpcsError
    bytesrepr_failure : more.BytesreprError → RpcsError

  unfoldable pub display : RpcsError → String
  unfolding Error.display Display.display format
  display (node_request a b) = format ("request for " ∷ a ∷ " has failed: " ∷ Error.display b ∷ [])
  display (no_block_found a b) = "no block found for the provided identifier"
  display (no_transaction_with_hash a) =
      format ("no transaction for hash " ∷ more.transaction_hash_to_string a ∷ [])
  display (no_deploy_with_hash a) =
      format ("no deploy for hash " ∷ more.deploy_hash_to_string a ∷ [])
  display found_transaction_instead_of_deploy = "found a transaction when searching for a deploy"
  display global_state_entry_not_found = "value was not found in the global state"
  display (invalid_purse_uref a) =
      format ("the requested purse URef was invalid: " ∷ more.uref_error_to_string a ∷ [])
  display (invalid_dictionary_key a) = format ("the provided dictionary key was invalid: " ∷ a ∷ [])
  display (invalid_type_under_dictionary_key a) =
      format ("the provided dictionary key points at an unexpected type: " ∷ a ∷ [])
  display dictionary_key_not_found = "the provided dictionary key doesn't exist"
  display dictionary_name_not_found = "the provided dictionary name doesn't exist"
  display main_purse_not_found = "the requested main purse was not found"
  display account_not_found = "the requested account was not found"
  display addressable_entity_not_found = "the requested addressable entity was not found"
  display reward_not_found = "the requested reward was not found"
  display account_migrated_to_entity =
      "the requested account has been migrated to an addressable entity"
  display (dictionary_value_is_not_a_uref a) =
      format
        ("the provided dictionary value is " ∷ more.key_tag_to_string a ∷ " instead of a URef" ∷ [])
  display (dictionary_key_could_not_be_parsed a) =
      format ("the provided dictionary key could not be parsed: " ∷ a ∷ [])
  display (invalid_transaction a) =
      format ("the transaction was invalid: " ∷ Display.display a ∷ [])
  display (invalid_deploy a) = format ("the deploy was invalid: " ∷ Display.display a ∷ [])
  display invalid_purse_balance = "the requested purse balance could not be parsed"
  display invalid_account_info = "the requested account info could not be parsed"
  display invalid_addressable_entity = "the requested addressable entity could not be parsed"
  display invalid_auction_state = "the auction state was invalid"
  display (invalid_named_keys a) = format ("the named keys were invalid: " ∷ a ∷ [])
  display (invalid_entry_points a) = format ("the entry points were invalid: " ∷ a ∷ [])
  display spec_exec_returned_nothing = "speculative execution returned nothing"
  display (bytesrepr_failure a) =
      format ("unexpected bytesrepr failure: " ∷ more.bytesrepr_error_to_string a ∷ [])

  unfoldable pub code : RpcsError → Option ErrorCode
  code (no_block_found _ _) = some ErrorCode.no_such_block
  code (no_transaction_with_hash _) = some ErrorCode.no_such_transaction
  code (no_deploy_with_hash _) = some ErrorCode.no_such_deploy
  code found_transaction_instead_of_deploy = some ErrorCode.variant_mismatch
  code (node_request _ Error.unknown_state_root_hash) = some ErrorCode.no_such_state_root
  code global_state_entry_not_found = some ErrorCode.query_failed
  code (node_request _ Error.query_failed_to_execute) = some ErrorCode.query_failed_to_execute
  code (node_request _ Error.function_is_disabled) = some ErrorCode.function_is_disabled
  code (node_request _ Error.switch_block_not_found) = some ErrorCode.switch_block_not_found
  code (node_request _ Error.switch_block_parent_not_found) =
      some ErrorCode.switch_block_parent_not_found
  code (node_request _ Error.unsupported_rewards_v1_request) =
      some ErrorCode.unsupported_rewards_v1_request
  code (node_request _ Error.purse_not_found) = some ErrorCode.purse_not_found
  code (invalid_purse_uref _) = some ErrorCode.failed_to_parse_get_balance_uref
  code (invalid_dictionary_key _) = some ErrorCode.failed_to_parse_query_key
  code main_purse_not_found = some ErrorCode.no_main_purse
  code account_not_found = some ErrorCode.no_such_account
  code addressable_entity_not_found = some ErrorCode.no_such_addressable_entity
  code reward_not_found = some ErrorCode.no_rewards_found
  code account_migrated_to_entity = some ErrorCode.account_migrated_to_entity
  code (invalid_type_under_dictionary_key _) = some ErrorCode.failed_to_get_dictionary_uref
  code dictionary_key_not_found = some ErrorCode.failed_to_get_dictionary_uref
  code dictionary_name_not_found = some ErrorCode.failed_to_get_dictionary_uref
  code (dictionary_value_is_not_a_uref _) = some ErrorCode.failed_to_get_dictionary_uref
  code (dictionary_key_could_not_be_parsed _) = some ErrorCode.failed_to_get_dictionary_uref
  code (invalid_transaction _) = some ErrorCode.invalid_transaction
  code (node_request _ (Error.spec_execution_failed _)) = some ErrorCode.invalid_deploy
  code (invalid_deploy _) = some ErrorCode.invalid_deploy
  code spec_exec_returned_nothing = some ErrorCode.invalid_deploy
  code (node_request _ _) = some ErrorCode.node_request_failed
  code invalid_purse_balance = some ErrorCode.failed_to_get_balance
  code invalid_account_info = none
  code invalid_addressable_entity = none
  code invalid_auction_state = none
  code (invalid_named_keys _) = none
  code (invalid_entry_points _) = none
  code (bytesrepr_failure _) = none

  -- The error for the client of a method. `to_value` is what serde makes of the text and the range
  -- of an `ErrorData::MissingBlockOrStateRoot`; a text becomes a string.
  module _ {N : Type 0}
      (to_value : (message : String) → types.AvailableBlockRange → Result (Value N) String) where
    with_code : Option ErrorCode → (message : String) → RpcError N
    unfolding new_error
    with_code (some c) message = new_error c (ok (string message))
    with_code none message = new_error internal_error (ok (string message))

    unfoldable pub into_rpc : RpcsError → RpcError N
    unfolding with_code new_error display code
    into_rpc (no_block_found identifier available_block_range) =
        new_error ErrorCode.no_such_block (
          to_value (display (no_block_found identifier available_block_range))
            available_block_range)
    into_rpc value = with_code (code value) (display value)
