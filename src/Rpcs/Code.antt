-- ===== src/Rpcs/Code.antt =====
-- The codes of rpc_sidecar/src/rpcs/error_code.rs.
use casper_sidecar.Prelude.{ℕ, String, false}
use casper_sidecar.Prelude.Int.{ℤ, neg}
use casper_sidecar.JsonRpc.Error

pub data ErrorCode : Type 0 where
  no_such_deploy no_such_block failed_to_parse_query_key query_failed : ErrorCode
  query_failed_to_execute failed_to_parse_get_balance_uref failed_to_get_balance : ErrorCode
  get_balance_failed_to_execute invalid_deploy no_such_account : ErrorCode
  failed_to_get_dictionary_uref failed_to_get_trie no_such_state_root no_main_purse : ErrorCode
  no_such_transaction variant_mismatch invalid_transaction invalid_block : ErrorCode
  node_request_failed function_is_disabled no_such_addressable_entity : ErrorCode
  account_migrated_to_entity no_rewards_found switch_block_not_found : ErrorCode
  switch_block_parent_not_found unsupported_rewards_v1_request purse_not_found : ErrorCode

-- The discriminants, below zero.
unfoldable pub discriminant : ErrorCode → ℕ
discriminant no_such_deploy = 32000
discriminant no_such_block = 32001
discriminant failed_to_parse_query_key = 32002
discriminant query_failed = 32003
discriminant query_failed_to_execute = 32004
discriminant failed_to_parse_get_balance_uref = 32005
discriminant failed_to_get_balance = 32006
discriminant get_balance_failed_to_execute = 32007
discriminant invalid_deploy = 32008
discriminant no_such_account = 32009
discriminant failed_to_get_dictionary_uref = 32010
discriminant failed_to_get_trie = 32011
discriminant no_such_state_root = 32012
discriminant no_main_purse = 32013
discriminant no_such_transaction = 32014
discriminant variant_mismatch = 32015
discriminant invalid_transaction = 32016
discriminant invalid_block = 32017
discriminant node_request_failed = 32018
discriminant function_is_disabled = 32019
discriminant no_such_addressable_entity = 32020
discriminant account_migrated_to_entity = 32021
discriminant no_rewards_found = 32022
discriminant switch_block_not_found = 32023
discriminant switch_block_parent_not_found = 32024
discriminant unsupported_rewards_v1_request = 32025
discriminant purse_not_found = 32026

unfoldable pub text : ErrorCode → String
text no_such_deploy = "No such deploy"
text no_such_block = "No such block"
text failed_to_parse_query_key = "Failed to parse query key"
text query_failed = "Query failed"
text query_failed_to_execute = "Query failed to execute"
text failed_to_parse_get_balance_uref = "Failed to parse get-balance URef"
text failed_to_get_balance = "Failed to get balance"
text get_balance_failed_to_execute = "get-balance failed to execute"
text invalid_deploy = "Invalid Deploy"
text no_such_account = "No such account"
text failed_to_get_dictionary_uref = "Failed to get dictionary URef"
text failed_to_get_trie = "Failed to get trie"
text no_such_state_root = "No such state root"
text no_main_purse = "Failed to get main purse"
text no_such_transaction = "No such transaction"
text variant_mismatch = "Variant mismatch internal error"
text invalid_transaction = "Invalid transaction"
text invalid_block = "Invalid block"
text node_request_failed = "Node request failure"
text function_is_disabled = "Function needed to execute this request is disabled"
text no_such_addressable_entity = "No such addressable entity"
text account_migrated_to_entity = "Account migrated to an addressable entity"
text no_rewards_found = "No rewards found"
text switch_block_not_found = "Switch block not found"
text switch_block_parent_not_found = "Switch block parent not found"
text unsupported_rewards_v1_request = "Cannot serve rewards stored in V1 format"
text purse_not_found = "Purse not found"

-- `From<ErrorCode> for (i64, &'static str)`
unfoldable pub code_into : ErrorCode → ℤ × String
unfolding discriminant text
code_into code = (neg (discriminant code), text code)

-- `impl ErrorCodeT for ErrorCode {}`, which keeps the default of `is_reserved`
instance abbrev pub rpcs_code : Error.ErrorCode ErrorCode
rpcs_code = record { into = code_into; is_reserved = false }
