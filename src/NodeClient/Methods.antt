-- ===== src/NodeClient/Methods.antt =====
-- The methods that the trait `NodeClient` of rpc_sidecar/src/node_client.rs defines over `send_request`.
pub mod Info
use casper_sidecar.Prelude.{if◌then◌else◌, String, Option, none, some, List}
use casper_sidecar.Prelude.Result.{Result, ok, err}
use casper_sidecar.NodeClient.Error.{Error, empty_envelope}
use casper_sidecar.NodeClient.FromCode.{Codes, from_error_code}
use casper_sidecar.NodeClient.Port.{Bytes, BinaryPort, PayloadEntity, parse_response}
use casper_sidecar.NodeClient.Call.{Call, ◌>>=◌, ◌>>◌, returns, panic}
use casper_sidecar.NodeClient.Types.{PortTypes}

-- `resp.ok_or(Error::EmptyEnvelope)`
abbrev pub or_empty_envelope : {A : Type 0} → Option A → Result A Error
or_empty_envelope none = err empty_envelope
or_empty_envelope (some a) = ok a

module _ {S : Type 0} {port : BinaryPort} (codes : Codes) (types : PortTypes port)
    (send_request : port.Command → Call S port.Response) where
  -- `parse_response::<A>(&resp.into())`
  abbrev pub parse : {A : Type 0} → PayloadEntity A → port.Response → Call S (Option A)
  parse entity resp = returns (parse_response port codes entity (port.response resp))

  abbrev pub parse_or_empty : {A : Type 0} → PayloadEntity A → port.Response → Call S A
  parse_or_empty entity resp = do value ← parse entity resp; returns (or_empty_envelope value)

  unfoldable pub read_record : types.RecordId → (key : Bytes) → Call S port.Response
  read_record record_id key =
      send_request (types.get_command (types.record_request (types.record_tag record_id) key))

  -- A request that is no `GetRequest` is a panic.
  unfoldable pub send_info : Result types.GetRequest String → Call S port.Response
  send_info (ok get) = send_request (types.get_command get)
  send_info (err _) = panic

  unfoldable pub read_info : types.InformationRequest → Call S port.Response
  unfolding send_info
  read_info req = send_info (types.info_try_into req)

  unfoldable pub read_state :
      Option types.GlobalStateIdentifier → types.GlobalStateEntityQualifier → Call S port.Response
  read_state state_identifier qualifier =
      send_request (
        types.get_command
          (types.state_request (types.new_state_request state_identifier qualifier)))

  unfoldable pub query_global_state :
      Option types.GlobalStateIdentifier
      → types.Key
      → List String
      → Call S (Option types.GlobalStateQueryResult)
  unfolding read_state parse_response
  query_global_state state_identifier base_key path = do
    resp ← read_state state_identifier (types.item base_key path)
    parse types.query_result resp

  unfoldable pub query_global_state_by_tag :
      Option types.GlobalStateIdentifier → types.KeyTag → Call S (List types.StoredValue)
  unfolding read_state parse_response
  query_global_state_by_tag state_identifier key_tag = do
    resp ← read_state state_identifier (types.all_items key_tag)
    parse_or_empty types.stored_values resp

  unfoldable pub query_global_state_by_prefix :
      Option types.GlobalStateIdentifier → types.KeyPrefix → Call S (List types.StoredValue)
  unfolding read_state parse_response
  query_global_state_by_prefix state_identifier key_prefix = do
    resp ← read_state state_identifier (types.items_by_prefix key_prefix)
    parse_or_empty types.stored_values resp

  unfoldable pub read_balance :
      Option types.GlobalStateIdentifier → types.PurseIdentifier → Call S types.BalanceResponse
  unfolding read_state parse_response
  read_balance state_identifier purse_identifier = do
    resp ← read_state state_identifier (types.balance purse_identifier)
    parse_or_empty types.balance_response resp

  unfoldable pub read_trie_bytes : types.Digest → Call S (Option Bytes)
  unfolding parse_response
  read_trie_bytes trie_key = do
    resp ← send_request (types.get_command (types.trie_request trie_key))
    res ← parse_or_empty types.trie_result resp
    returns (ok (types.trie_into_inner res))

  unfoldable pub query_dictionary_item :
      Option types.GlobalStateIdentifier
      → types.DictionaryItemIdentifier
      → Call S (Option types.DictionaryQueryResult)
  unfolding read_state parse_response
  query_dictionary_item state_identifier identifier = do
    resp ← read_state state_identifier (types.dictionary_item identifier)
    parse types.dictionary_result resp

  unfoldable pub try_accept_transaction : types.Transaction → Call S (Unit {0})
  unfolding from_error_code
  try_accept_transaction transaction = do
    response ← send_request (types.try_accept_transaction_command transaction)
    let resp = port.response response
    returns
        (if port.is_success resp then ok tt else err (from_error_code codes (port.error_code resp)))

  unfoldable pub exec_speculatively : types.Transaction → Call S types.SpeculativeExecutionResult
  unfolding parse_response
  exec_speculatively transaction = do
    resp ← send_request (types.try_speculative_exec_command transaction)
    parse_or_empty types.speculative_result resp
