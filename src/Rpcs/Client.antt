-- ===== src/Rpcs/Client.antt =====
-- The trait `NodeClient` of rpc_sidecar/src/node_client.rs as the methods of rpc_sidecar/src/rpcs use it, and what
-- they take from casper_types.
use casper_sidecar.Prelude.{String, Bool, Option, List}
use casper_sidecar.Prelude.Result.{Result}
use casper_sidecar.NodeClient.Call.{Call}
use casper_sidecar.NodeClient.FromCode.{Codes}
use casper_sidecar.NodeClient.Port.{Bytes, BinaryPort}
use casper_sidecar.NodeClient.Types.{PortTypes}
use casper_sidecar.NodeClient.Methods
use casper_sidecar.NodeClient.Methods.Info
use casper_sidecar.Rpcs.Error.{ErrorTypes}

pub record NodeClient (S : Type 0) {port : BinaryPort} (types : PortTypes port) : Type 0 where
  pub read_block_with_signatures :
      Option types.BlockIdentifier → Call S (Option types.BlockWithSignatures)
  pub read_available_block_range : Call S types.AvailableBlockRange
  pub read_block_header : Option types.BlockIdentifier → Call S (Option types.BlockHeader)
  pub read_latest_switch_block_header : Call S (Option types.BlockHeader)
  pub read_block_transfers : types.BlockHash → Call S (Option (List types.Transfer))
  pub query_global_state :
      Option types.GlobalStateIdentifier
      → types.Key
      → List String
      → Call S (Option types.GlobalStateQueryResult)
  pub query_global_state_by_prefix :
      Option types.GlobalStateIdentifier → types.KeyPrefix → Call S (List types.StoredValue)
  pub try_accept_transaction : types.Transaction → Call S (Unit {0})

-- A client that has the methods that the trait defines.
unfoldable pub default_client :
    {S : Type 0} {port : BinaryPort} (codes : Codes) (types : PortTypes port)
    → (port.Command → Call S port.Response)
    → NodeClient S types
unfolding Info.read_block_with_signatures Info.read_available_block_range Info.read_block_header
    Info.read_latest_switch_block_header Info.read_block_transfers Methods.query_global_state
    Methods.query_global_state_by_prefix Methods.try_accept_transaction
default_client codes types send = record {
  read_block_with_signatures = Info.read_block_with_signatures codes types send;
  read_available_block_range = Info.read_available_block_range codes types send;
  read_block_header = Info.read_block_header codes types send;
  read_latest_switch_block_header = Info.read_latest_switch_block_header codes types send;
  read_block_transfers = Info.read_block_transfers codes types send;
  query_global_state = Methods.query_global_state codes types send;
  query_global_state_by_prefix = Methods.query_global_state_by_prefix codes types send;
  try_accept_transaction = Methods.try_accept_transaction codes types send;
}

-- What the methods take from casper_types; `as_named_key` and `as_entry_point` are the matches on
-- a constructor of `StoredValue`.
pub record ValueTypes {port : BinaryPort} (types : PortTypes port) (more : ErrorTypes types)
    : Type 1 where
  pub EntityAddr : Type 0
  pub NamedKeyValue : Type 0
  pub EntryPointValue : Type 0
  pub NamedKeys : Type 0
  pub EraId : Type 0
  pub Proof : Type 0
  pub Deploy : Type 0
  pub named_keys_by_entity : EntityAddr → types.KeyPrefix
  pub entry_points_v1_by_entity : EntityAddr → types.KeyPrefix
  pub entry_points_v2_by_entity : EntityAddr → types.KeyPrefix
  pub as_named_key : types.StoredValue → Option NamedKeyValue
  pub as_entry_point : types.StoredValue → Option EntryPointValue
  pub type_name : types.StoredValue → String
  pub get_key : NamedKeyValue → Result types.Key String
  pub get_name : NamedKeyValue → Result String String
  -- `NamedKeys::from` of the `BTreeMap` that is collected from the pairs
  pub named_keys_from : List (String × types.Key) → NamedKeys
  pub block_hash : types.BlockHeader → types.BlockHash
  pub era_id : types.BlockHeader → EraId
  pub state_root_hash : types.BlockHeader → types.Digest
  pub is_switch_block : types.BlockHeader → Bool
  pub state_root_identifier : types.Digest → types.GlobalStateIdentifier
  pub era_summary_key : types.Key
  pub era_info_key : EraId → types.Key
  pub into_inner : types.GlobalStateQueryResult → types.StoredValue × Proof
  pub proof_to_bytes : Proof → Result Bytes more.BytesreprError
  pub encode_lower : Bytes → String
  pub deploy_hash : Deploy → more.DeployHash
  pub deploy_into : Deploy → types.Transaction
  pub transaction_hash : types.Transaction → types.TransactionHash
