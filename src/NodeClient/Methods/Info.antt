-- ===== src/NodeClient/Methods/Info.antt =====
-- The methods of the trait `NodeClient` of rpc_sidecar/src/node_client.rs that read information.
use casper_sidecar.Prelude.{◌==◌, if◌then◌else◌, ℕ, String, Bool, false, Option, none, some, List}
use casper_sidecar.Prelude.Result.{Result, ok, err}
use casper_sidecar.NodeClient.FromCode.{Codes}
use casper_sidecar.NodeClient.Port.{Bytes, BinaryPort, PayloadEntity, parse_response}
use casper_sidecar.NodeClient.Call.{Call, ◌>>=◌, returns, panic}
use casper_sidecar.NodeClient.Types.{PortTypes}
use casper_sidecar.NodeClient.Methods.{parse, parse_or_empty, read_record, read_info}
use mathlib.Core.Option

module _ {port : BinaryPort} (types : PortTypes port) where
  pub data EntityResponse : Type 0 where
    entity : types.AddressableEntityInformation → EntityResponse
    account : types.AccountInformation → EntityResponse
    contract : types.ContractInformation → EntityResponse

  -- The constructor `Package` of the source is `plain_package`.
  pub data PackageResponse : Type 0 where
    plain_package : types.Package → PackageResponse
    contract_package : types.ContractPackage → PackageResponse

module _ {S : Type 0} {port : BinaryPort} (codes : Codes) (types : PortTypes port)
    (send_request : port.Command → Call S port.Response) where
  -- A method that reads one kind of information, and may find none.
  abbrev pub read_maybe :
      {A : Type 0} → types.InformationRequest → PayloadEntity A → Call S (Option A)
  read_maybe req payload = do
    resp ← read_info codes types send_request req
    parse codes types send_request payload resp

  -- The same where none is an error.
  abbrev pub read_always : {A : Type 0} → types.InformationRequest → PayloadEntity A → Call S A
  read_always req payload = do
    resp ← read_info codes types send_request req
    parse_or_empty codes types send_request payload resp

  -- A hash that cannot be serialized is a panic.
  transfers_of : Result Bytes String → Call S (Option (List types.Transfer))
  unfolding read_record parse_response
  transfers_of (err _) = panic
  transfers_of (ok key) = do
    resp ← read_record codes types send_request types.transfer_record key
    parse codes types send_request types.transfers resp

  unfoldable pub read_block_transfers : types.BlockHash → Call S (Option (List types.Transfer))
  unfolding transfers_of
  read_block_transfers hash = transfers_of (types.hash_to_bytes hash)

  unfoldable pub read_block_header :
      Option types.BlockIdentifier → Call S (Option types.BlockHeader)
  unfolding read_info parse_response
  read_block_header block_identifier =
      read_maybe (types.block_header_info block_identifier) types.block_header

  unfoldable pub read_block_with_signatures :
      Option types.BlockIdentifier → Call S (Option types.BlockWithSignatures)
  unfolding read_info parse_response
  read_block_with_signatures block_identifier =
      read_maybe (types.block_with_signatures_info block_identifier) types.block_with_signatures

  unfoldable pub read_transaction_with_execution_info :
      types.TransactionHash
      → (with_finalized_approvals : Bool) → Call S (Option types.TransactionWithExecutionInfo)
  unfolding read_info parse_response
  read_transaction_with_execution_info hash with_finalized_approvals =
      read_maybe (types.transaction_info hash with_finalized_approvals) types.transaction_with_info

  unfoldable pub read_peers : Call S types.Peers
  unfolding read_info parse_response
  read_peers = read_always types.peers_info types.peers

  unfoldable pub read_available_block_range : Call S types.AvailableBlockRange
  unfolding read_info parse_response
  read_available_block_range =
      read_always types.available_block_range_info types.available_block_range

  unfoldable pub read_chainspec_bytes : Call S types.ChainspecRawBytes
  unfolding read_info parse_response
  read_chainspec_bytes = read_always types.chainspec_raw_bytes_info types.chainspec_raw_bytes

  unfoldable pub read_validator_changes : Call S types.ConsensusValidatorChanges
  unfolding read_info parse_response
  read_validator_changes =
      read_always types.consensus_validator_changes_info types.validator_changes

  unfoldable pub read_latest_switch_block_header : Call S (Option types.BlockHeader)
  unfolding read_info parse_response
  read_latest_switch_block_header =
      read_maybe types.latest_switch_block_header_info types.block_header

  unfoldable pub read_node_status : Call S types.NodeStatus
  unfolding read_info parse_response
  read_node_status = read_always types.node_status_info types.node_status

  unfoldable pub read_reward :
      Option types.EraIdentifier
      → types.PublicKey
      → Option types.PublicKey
      → Call S (Option types.RewardResponse)
  unfolding read_info parse_response
  read_reward era_identifier validator delegator =
      read_maybe
        (types.reward_info era_identifier validator
          (Option.map types.delegator_public_key delegator))
        types.reward_response

  -- `parse_response::<A>(&resp)?.map(make)`
  abbrev parse_as :
      {A B : Type 0} → (make : A → B) → PayloadEntity A → port.Response → Call S (Option B)
  parse_as make payload resp = do
    value ← parse codes types send_request payload resp
    returns (ok (Option.map make value))

  has_tag : ℕ → Option ℕ → Bool
  has_tag tag none = false
  has_tag tag (some found) = found == tag

  -- The `match` on the tag of the type, in `read_package` and in `read_entity`.
  package_of : Option ℕ → port.Response → Call S (Option (PackageResponse types))
  unfolding parse_response has_tag
  package_of tag resp =
      if has_tag types.contract_package_tag tag
      then parse_as contract_package types.contract_package resp
      else parse_as plain_package types.package_value resp

  entity_of : Option ℕ → port.Response → Call S (Option (EntityResponse types))
  unfolding parse_response has_tag
  entity_of tag resp =
      if has_tag types.contract_information_tag tag
      then parse_as contract types.contract resp
      else if has_tag types.account_information_tag tag
      then parse_as account types.account resp
      else parse_as entity types.addressable_entity resp

  unfoldable pub read_package :
      Option types.GlobalStateIdentifier
      → types.PackageIdentifier
      → Call S (Option (PackageResponse types))
  unfolding read_info package_of
  read_package state_identifier identifier = do
    resp ← read_info codes types send_request (types.package_info state_identifier identifier)
    package_of (port.returned_data_type_tag (port.response resp)) resp

  unfoldable pub read_entity :
      Option types.GlobalStateIdentifier
      → types.EntityIdentifier
      → (include_bytecode : Bool) → Call S (Option (EntityResponse types))
  unfolding read_info entity_of
  read_entity state_identifier identifier include_bytecode = do
    resp ←
        read_info codes types send_request
          (types.entity_info state_identifier identifier include_bytecode)
    entity_of (port.returned_data_type_tag (port.response resp)) resp
