-- ===== src/NodeClient/Types.antt =====
-- What the methods of `NodeClient` in rpc_sidecar/src/node_client.rs take from casper_binary_port and casper_types:
-- the requests, the values, and how they are read.
use casper_sidecar.Prelude.{ℕ, String, Bool, Option, List}
use casper_sidecar.Prelude.Result.{Result}
use casper_sidecar.NodeClient.Port.{Bytes, BinaryPort, PayloadEntity}

pub record PortTypes (port : BinaryPort) : Type 1 where
  -- the parts of requests
  pub RecordId : Type 0
  pub GetRequest : Type 0
  pub InformationRequest : Type 0
  pub GlobalStateRequest : Type 0
  pub GlobalStateEntityQualifier : Type 0
  pub GlobalStateIdentifier : Type 0
  pub Key : Type 0
  pub KeyTag : Type 0
  pub KeyPrefix : Type 0
  pub PurseIdentifier : Type 0
  pub DictionaryItemIdentifier : Type 0
  pub Digest : Type 0
  pub Transaction : Type 0
  pub BlockHash : Type 0
  pub BlockIdentifier : Type 0
  pub TransactionHash : Type 0
  pub EraIdentifier : Type 0
  pub PublicKey : Type 0
  pub DelegatorKind : Type 0
  pub PackageIdentifier : Type 0
  pub EntityIdentifier : Type 0
  -- what is read
  pub GlobalStateQueryResult : Type 0
  pub StoredValue : Type 0
  pub BalanceResponse : Type 0
  pub GetTrieFullResult : Type 0
  pub DictionaryQueryResult : Type 0
  pub SpeculativeExecutionResult : Type 0
  pub Transfer : Type 0
  pub BlockHeader : Type 0
  pub BlockWithSignatures : Type 0
  pub TransactionWithExecutionInfo : Type 0
  pub Peers : Type 0
  pub AvailableBlockRange : Type 0
  pub ChainspecRawBytes : Type 0
  pub ConsensusValidatorChanges : Type 0
  pub NodeStatus : Type 0
  pub RewardResponse : Type 0
  pub Package : Type 0
  pub ContractPackage : Type 0
  pub AddressableEntityInformation : Type 0
  pub AccountInformation : Type 0
  pub ContractInformation : Type 0
  -- the constructors of `Command` and `GetRequest`
  pub get_command : GetRequest → port.Command
  pub try_accept_transaction_command : Transaction → port.Command
  pub try_speculative_exec_command : Transaction → port.Command
  pub record_request : (record_type_tag : ℕ) (key : Bytes) → GetRequest
  pub state_request : GlobalStateRequest → GetRequest
  pub trie_request : Digest → GetRequest
  pub transfer_record : RecordId
  pub record_tag : RecordId → ℕ
  pub info_try_into : InformationRequest → Result GetRequest String
  -- those of `GlobalStateRequest` and its qualifier
  pub new_state_request :
      Option GlobalStateIdentifier → GlobalStateEntityQualifier → GlobalStateRequest
  pub item : Key → List String → GlobalStateEntityQualifier
  pub all_items : KeyTag → GlobalStateEntityQualifier
  pub items_by_prefix : KeyPrefix → GlobalStateEntityQualifier
  pub balance : PurseIdentifier → GlobalStateEntityQualifier
  pub dictionary_item : DictionaryItemIdentifier → GlobalStateEntityQualifier
  -- those of `InformationRequest`
  pub block_header_info : Option BlockIdentifier → InformationRequest
  pub block_with_signatures_info : Option BlockIdentifier → InformationRequest
  pub transaction_info : TransactionHash → (with_finalized_approvals : Bool) → InformationRequest
  pub peers_info : InformationRequest
  pub available_block_range_info : InformationRequest
  pub chainspec_raw_bytes_info : InformationRequest
  pub consensus_validator_changes_info : InformationRequest
  pub latest_switch_block_header_info : InformationRequest
  pub node_status_info : InformationRequest
  pub reward_info : Option EraIdentifier → PublicKey → Option DelegatorKind → InformationRequest
  pub package_info : Option GlobalStateIdentifier → PackageIdentifier → InformationRequest
  pub entity_info :
      Option GlobalStateIdentifier
      → EntityIdentifier
      → (include_bytecode : Bool) → InformationRequest
  pub delegator_public_key : PublicKey → DelegatorKind
  pub height_identifier : ℕ → BlockIdentifier
  -- what is done with values
  pub trie_into_inner : GetTrieFullResult → Option Bytes
  pub hash_to_bytes : BlockHash → Result Bytes String
  pub block_height : BlockWithSignatures → ℕ
  pub chainspec_name : NodeStatus → String
  -- the types of responses
  pub contract_package_tag : ℕ
  pub contract_information_tag : ℕ
  pub account_information_tag : ℕ
  pub query_result : PayloadEntity GlobalStateQueryResult
  pub stored_values : PayloadEntity (List StoredValue)
  pub balance_response : PayloadEntity BalanceResponse
  pub trie_result : PayloadEntity GetTrieFullResult
  pub dictionary_result : PayloadEntity DictionaryQueryResult
  pub speculative_result : PayloadEntity SpeculativeExecutionResult
  pub transfers : PayloadEntity (List Transfer)
  pub block_header : PayloadEntity BlockHeader
  pub block_with_signatures : PayloadEntity BlockWithSignatures
  pub transaction_with_info : PayloadEntity TransactionWithExecutionInfo
  pub peers : PayloadEntity Peers
  pub available_block_range : PayloadEntity AvailableBlockRange
  pub chainspec_raw_bytes : PayloadEntity ChainspecRawBytes
  pub validator_changes : PayloadEntity ConsensusValidatorChanges
  pub node_status : PayloadEntity NodeStatus
  pub reward_response : PayloadEntity RewardResponse
  pub package_value : PayloadEntity Package
  pub contract_package : PayloadEntity ContractPackage
  pub addressable_entity : PayloadEntity AddressableEntityInformation
  pub account : PayloadEntity AccountInformation
  pub contract : PayloadEntity ContractInformation
