-- ===== src/Rpcs/Chain.antt =====
-- rpc_sidecar/src/rpcs/chain.rs: the methods on blocks and eras. The version of the API is a constant of every
-- result, and is left out of it. The errors become those of JSON-RPC by `into_rpc` of Rpcs/Error.antt.
pub mod Laws
use casper_sidecar.Prelude.{String, Bool, true, false, Option, none, some, List, []}
use casper_sidecar.Prelude.Result.{Result, ok, err}
use casper_sidecar.Prelude.Result
use casper_sidecar.NodeClient.Call.{◌>>=◌, ◌>>◌, returns}
use casper_sidecar.NodeClient.Port.{BinaryPort}
use casper_sidecar.NodeClient.Types.{PortTypes}
use casper_sidecar.Rpcs.Error.{ErrorTypes, RpcsError, global_state_entry_not_found}
use casper_sidecar.Rpcs.Client.{NodeClient, ValueTypes}
use casper_sidecar.Rpcs.Common.{
  Method, request, get_block_with_signatures, get_block_header, get_latest_switch_block_header,
  encode_proof,
}

module _ {S : Type 0} {port : BinaryPort} {types : PortTypes port} {more : ErrorTypes types}
    (values : ValueTypes types more) (node_client : NodeClient S types) where
  -- "chain_get_block"; the JSON form of the block with its signatures is left out.
  unfoldable pub get_block :
      (block_identifier : Option types.BlockIdentifier)
      → Method values node_client (Option types.BlockWithSignatures)
  unfolding get_block_with_signatures
  get_block block_identifier = do
    block ← get_block_with_signatures values node_client block_identifier
    returns (ok (some block))

  pub record GetBlockTransfersResult : Type 0 where
    pub block_hash : Option types.BlockHash
    pub transfers : Option (List types.Transfer)

  unfoldable pub get_block_transfers :
      (block_identifier : Option types.BlockIdentifier)
      → Method values node_client GetBlockTransfersResult
  unfolding get_block_header
  get_block_transfers block_identifier = do
    header ← get_block_header values node_client block_identifier
    transfers ←
        request values node_client "block transfers"
          (node_client.read_block_transfers (values.block_hash header))
    returns (ok (record { block_hash = some (values.block_hash header); transfers = transfers }))

  unfoldable pub get_state_root_hash :
      (block_identifier : Option types.BlockIdentifier)
      → Method values node_client (Option types.Digest)
  unfolding get_block_header
  get_state_root_hash block_identifier = do
    block_header ← get_block_header values node_client block_identifier
    returns (ok (some (values.state_root_hash block_header)))

  -- `EraSummary` of rpcs/chain/era_summary.rs
  pub record EraSummary : Type 0 where
    pub block_hash : types.BlockHash
    pub era_id : values.EraId
    pub stored_value : types.StoredValue
    pub state_root_hash : types.Digest
    pub merkle_proof : String

  unfoldable pub create_era_summary :
      types.BlockHeader → types.GlobalStateQueryResult → Result EraSummary (RpcsError types more)
  unfolding encode_proof
  create_era_summary block_header result =
      let (value, proof) = values.into_inner result in
      Result.◌>>=◌ (encode_proof values node_client proof) λ merkle_proof. ok (record {
        block_hash = values.block_hash block_header;
        era_id = values.era_id block_header;
        stored_value = value;
        state_root_hash = values.state_root_hash block_header;
        merkle_proof = merkle_proof;
      })

  or_not_found :
      Option types.GlobalStateQueryResult
      → Result types.GlobalStateQueryResult (RpcsError types more)
  or_not_found none = err global_state_entry_not_found
  or_not_found (some result) = ok result

  -- What is done with the entry for the era summary: without one, the entry for the era is read.
  era_summary_or_info :
      types.BlockHeader → Option types.GlobalStateQueryResult → Method values node_client EraSummary
  unfolding create_era_summary or_not_found
  era_summary_or_info block_header (some result) = returns (create_era_summary block_header result)
  era_summary_or_info block_header none = do
    found ← request values node_client "era info" (
        node_client.query_global_state
          (some (values.state_root_identifier (values.state_root_hash block_header)))
          (values.era_info_key (values.era_id block_header)) [])
    result ← returns (or_not_found found)
    returns (create_era_summary block_header result)

  unfoldable pub get_era_summary_by_block : types.BlockHeader → Method values node_client EraSummary
  unfolding era_summary_or_info
  get_era_summary_by_block block_header = do
    result ← request values node_client "era summary" (
        node_client.query_global_state
          (some (values.state_root_identifier (values.state_root_hash block_header)))
          values.era_summary_key [])
    era_summary_or_info block_header result

  -- The block that is asked for, or the latest switch block.
  block_or_latest_switch :
      Option types.BlockIdentifier → Method values node_client types.BlockHeader
  unfolding get_block_header get_latest_switch_block_header
  block_or_latest_switch (some block_identifier) =
      get_block_header values node_client (some block_identifier)
  block_or_latest_switch none = get_latest_switch_block_header values node_client

  summary_of_switch_block :
      (is_switch_block : Bool) → types.BlockHeader → Method values node_client (Option EraSummary)
  unfolding get_era_summary_by_block
  summary_of_switch_block true block_header = do
    era_summary ← get_era_summary_by_block block_header
    returns (ok (some era_summary))
  summary_of_switch_block false block_header = returns (ok none)

  unfoldable pub get_era_info_by_switch_block :
      (block_identifier : Option types.BlockIdentifier)
      → Method values node_client (Option EraSummary)
  unfolding block_or_latest_switch summary_of_switch_block
  get_era_info_by_switch_block block_identifier = do
    block_header ← block_or_latest_switch block_identifier
    summary_of_switch_block (values.is_switch_block block_header) block_header

  unfoldable pub get_era_summary :
      (block_identifier : Option types.BlockIdentifier) → Method values node_client EraSummary
  unfolding block_or_latest_switch get_era_summary_by_block
  get_era_summary block_identifier = do
    block_header ← block_or_latest_switch block_identifier
    get_era_summary_by_block block_header
