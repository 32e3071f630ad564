-- ===== src/Rpcs/Chain/Laws.antt =====
-- What the methods of rpc_sidecar/src/rpcs/chain.rs answer for a block that the node does not have.
use casper_sidecar.Prelude.{◌≡◌, ap, ◌∙◌, Option, none, some, []}
use casper_sidecar.Prelude.Result.{Result, ok, err}
use casper_sidecar.NodeClient.Call.{after_call, failing_with, returns}
use casper_sidecar.NodeClient.Port.{BinaryPort}
use casper_sidecar.NodeClient.Types.{PortTypes}
use casper_sidecar.Rpcs.Error.{ErrorTypes, RpcsError, node_request, global_state_entry_not_found}
use casper_sidecar.Rpcs.Client.{NodeClient, ValueTypes}
use casper_sidecar.Rpcs.Common.{Method, request, get_block_header}
use casper_sidecar.Rpcs.Common.Laws.{missing, get_block_header-missing}
use casper_sidecar.Rpcs.Chain.{
  get_block_transfers, get_state_root_hash, EraSummary, create_era_summary, or_not_found,
  era_summary_or_info, get_era_summary_by_block, block_or_latest_switch, summary_of_switch_block,
  get_era_info_by_switch_block, get_era_summary,
}

module _ {S : Type 0} {port : BinaryPort} {types : PortTypes port} {more : ErrorTypes types}
    (values : ValueTypes types more) (node_client : NodeClient S types) where
  transfers-missing :
      (identifier : Option types.BlockIdentifier) (range : types.AvailableBlockRange) (s s2 : S)
      → get_block_header values node_client identifier s
        ≡ missing values node_client identifier range s2
      → get_block_transfers values node_client identifier s
        ≡ missing values node_client identifier range s2
  unfolding get_block_transfers
  transfers-missing identifier range s s2 h =
      ap
        (after_call λ header s.
          after_call
            (λ transfers.
              returns (
                ok
                  (record { block_hash = some (values.block_hash header); transfers = transfers })))
            (request values node_client "block transfers"
              (node_client.read_block_transfers (values.block_hash header)) s))
        h

  state_root_hash-missing :
      (identifier : Option types.BlockIdentifier) (range : types.AvailableBlockRange) (s s2 : S)
      → get_block_header values node_client identifier s
        ≡ missing values node_client identifier range s2
      → get_state_root_hash values node_client identifier s
        ≡ missing values node_client identifier range s2
  unfolding get_state_root_hash
  state_root_hash-missing identifier range s s2 h =
      ap (after_call λ header. returns (ok (some (values.state_root_hash header)))) h

  era_summary-missing :
      (identifier other : Option types.BlockIdentifier) (range : types.AvailableBlockRange)
      (s s2 : S)
      → block_or_latest_switch values node_client identifier s
        ≡ missing values node_client other range s2
      → get_era_summary values node_client identifier s ≡ missing values node_client other range s2
  unfolding get_era_summary
  era_summary-missing identifier other range s s2 h =
      ap (after_call λ header. get_era_summary_by_block values node_client header) h

  era_info-missing :
      (identifier other : Option types.BlockIdentifier) (range : types.AvailableBlockRange)
      (s s2 : S)
      → block_or_latest_switch values node_client identifier s
        ≡ missing values node_client other range s2
      → get_era_info_by_switch_block values node_client identifier s
        ≡ missing values node_client other range s2
  unfolding get_era_info_by_switch_block
  era_info-missing identifier other range s s2 h =
      ap
        (after_call λ header.
          summary_of_switch_block values node_client (values.is_switch_block header) header)
        h

  -- A block that the node does not have is answered in the same way by the methods for its
  -- transfers, its state root hash, its era summary and its era info: with the error that no
  -- block was found, which carries the identifier and the range of blocks that the node has. For
  -- this, the node says that it has no header for the identifier, and then what its range is.
  pub missing_block-answers :
      (block : types.BlockIdentifier) (range : types.AvailableBlockRange) (s s1 s2 : S)
      → node_client.read_block_header (some block) s ≡ (some (ok none), s1)
      → node_client.read_available_block_range s1 ≡ (some (ok range), s2)
      → (get_block_transfers values node_client (some block) s
          ≡ missing values node_client (some block) range s2)
        × (get_state_root_hash values node_client (some block) s
            ≡ missing values node_client (some block) range s2)
        × (get_era_summary values node_client (some block) s
            ≡ missing values node_client (some block) range s2)
        × (get_era_info_by_switch_block values node_client (some block) s
            ≡ missing values node_client (some block) range s2)
  unfolding block_or_latest_switch
  missing_block-answers block range s s1 s2 h hr =
      let header = get_block_header-missing values node_client (some block) range s s1 s2 h hr in
      (
        transfers-missing (some block) range s s2 header,
        state_root_hash-missing (some block) range s s2 header,
        era_summary-missing (some block) (some block) range s s2 header,
        era_info-missing (some block) (some block) range s s2 header,
      )

  -- What is answered for the entry with the info of an era.
  abbrev pub of_info :
      types.BlockHeader
      → Option types.GlobalStateQueryResult
      → Result (EraSummary values node_client) (RpcsError types more)
  of_info header none = err global_state_entry_not_found
  of_info header (some result) = create_era_summary values node_client header result

  after_info :
      types.BlockHeader
      → Option types.GlobalStateQueryResult
      → Method values node_client (EraSummary values node_client)
  unfolding or_not_found
  after_info header found s =
      after_call (λ result. returns (create_era_summary values node_client header result))
        (returns (or_not_found values node_client found) s)

  -- The summary of an era is read at the state root of the block. If there is no entry for era
  -- summaries, it is the entry for the info of the block's era, and if there is none either, the
  -- error that there is no entry. The node answers both queries.
  pub era_summary-falls_back :
      (header : types.BlockHeader) (s s1 s2 : S) (found : Option types.GlobalStateQueryResult)
      → node_client.query_global_state
          (some (values.state_root_identifier (values.state_root_hash header)))
          values.era_summary_key
          []
          s
        ≡ (some (ok none), s1)
      → node_client.query_global_state
          (some (values.state_root_identifier (values.state_root_hash header)))
          (values.era_info_key (values.era_id header))
          []
          s1
        ≡ (some (ok found), s2)
      → get_era_summary_by_block values node_client header s ≡ (some (of_info header found), s2)
  unfolding get_era_summary_by_block era_summary_or_info or_not_found after_info
  era_summary-falls_back header s s1 s2 none h hi =
      ap
        (λ x.
          after_call (era_summary_or_info values node_client header)
            (failing_with (node_request "era summary") x))
        h
      ∙ ap (λ x. after_call (after_info header) (failing_with (node_request "era info") x)) hi
  era_summary-falls_back header s s1 s2 (some r) h hi =
      ap
        (λ x.
          after_call (era_summary_or_info values node_client header)
            (failing_with (node_request "era summary") x))
        h
      ∙ ap (λ x. after_call (after_info header) (failing_with (node_request "era info") x)) hi
