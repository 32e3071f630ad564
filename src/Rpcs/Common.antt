-- ===== src/Rpcs/Common.antt =====
-- rpc_sidecar/src/rpcs/common.rs: what several methods ask of a node.
pub mod Laws
use casper_sidecar.Prelude.{String, Option, none, some, List, [], ◌∷◌, ◌++◌, map}
use casper_sidecar.Prelude.Text.{format}
use casper_sidecar.Prelude.Result.{Result, ok, err, map_err}
use casper_sidecar.Prelude.Result
use casper_sidecar.NodeClient.Call.{Attempt, Call, ◌>>=◌, ◌>>◌, map_call_err, returns}
use casper_sidecar.NodeClient.Port.{BinaryPort}
use casper_sidecar.NodeClient.Types.{PortTypes}
use casper_sidecar.Rpcs.Error.{
  ErrorTypes, RpcsError, node_request, no_block_found, invalid_named_keys, bytesrepr_failure,
}
use casper_sidecar.Rpcs.Client.{NodeClient, ValueTypes}

-- `collect` into a `Result`: the first error, or all values.
abbrev pub collect : {A E : Type 0} → List (Result A E) → Result (List A) E
collect [] = ok []
collect (r ∷ rest) = Result.◌>>=◌ r (λ a. Result.◌>>=◌ (collect rest) (λ l. ok (a ∷ l)))

module _ {S : Type 0} {port : BinaryPort} {types : PortTypes port} {more : ErrorTypes types}
    (values : ValueTypes types more) (node_client : NodeClient S types) where
  abbrev pub Method : Type 0 → Type 0
  Method A = Attempt S (RpcsError types more) A

  -- `call.await.map_err(|err| Error::NodeRequest(label, err))`
  abbrev pub request : {A : Type 0} → (label : String) → Call S A → Method A
  request label call = map_call_err (node_request label) call

  -- What was found, or the error with the range of blocks that the node has.
  found_or_range : {A : Type 0} → Option types.BlockIdentifier → Option A → Method A
  found_or_range identifier (some a) = returns (ok a)
  found_or_range identifier none = do
    available_range ← request "available block range" node_client.read_available_block_range
    returns (err (no_block_found identifier available_range))

  unfoldable pub get_block_with_signatures :
      Option types.BlockIdentifier → Method types.BlockWithSignatures
  unfolding found_or_range
  get_block_with_signatures maybe_identifier = do
    found ←
        request "block with signatures" (node_client.read_block_with_signatures maybe_identifier)
    found_or_range maybe_identifier found

  unfoldable pub get_block_header : Option types.BlockIdentifier → Method types.BlockHeader
  unfolding found_or_range
  get_block_header identifier = do
    found ← request "block header" (node_client.read_block_header identifier)
    found_or_range identifier found

  unfoldable pub get_latest_switch_block_header : Method types.BlockHeader
  unfolding found_or_range
  get_latest_switch_block_header = do
    found ← request "latest switch block header" node_client.read_latest_switch_block_header
    found_or_range none found

  unexpected_value : types.StoredValue → RpcsError types more
  unfolding format
  unexpected_value value =
      invalid_named_keys (format ("unexpected stored value: " ∷ values.type_name value ∷ []))

  -- A name with its key; the key is read first.
  name_and_key :
      types.StoredValue
      → Option values.NamedKeyValue
      → Result (String × types.Key) (RpcsError types more)
  unfolding unexpected_value
  name_and_key stored_value none = err (unexpected_value stored_value)
  name_and_key stored_value (some named_key) =
      Result.◌>>=◌ (map_err invalid_named_keys (values.get_key named_key)) λ key.
        Result.◌>>=◌ (map_err invalid_named_keys (values.get_name named_key)) λ name. ok (name, key)

  named_key_of : types.StoredValue → Result (String × types.Key) (RpcsError types more)
  unfolding name_and_key
  named_key_of stored_value = name_and_key stored_value (values.as_named_key stored_value)

  unfoldable pub get_entity_named_keys :
      values.EntityAddr → Option types.GlobalStateIdentifier → Method values.NamedKeys
  unfolding named_key_of
  get_entity_named_keys entity_addr state_identifier = do
    stored_values ← request "entity named keys" (
        node_client.query_global_state_by_prefix state_identifier
          (values.named_keys_by_entity entity_addr))
    named_keys ← returns (collect (map named_key_of stored_values))
    returns (ok (values.named_keys_from named_keys))

  entry_point_of :
      types.StoredValue
      → Option values.EntryPointValue
      → Result values.EntryPointValue (RpcsError types more)
  unfolding unexpected_value
  entry_point_of stored_value none = err (unexpected_value stored_value)
  entry_point_of stored_value (some entry_point) = ok entry_point

  unfoldable pub get_entity_entry_points :
      values.EntityAddr → Option types.GlobalStateIdentifier → Method (List values.EntryPointValue)
  unfolding entry_point_of
  get_entity_entry_points entity_addr state_identifier = do
    stored_values_v1 ← request "entity named keys" (
        node_client.query_global_state_by_prefix state_identifier
          (values.entry_points_v1_by_entity entity_addr))
    stored_values_v2 ← request "entity named keys" (
        node_client.query_global_state_by_prefix state_identifier
          (values.entry_points_v2_by_entity entity_addr))
    returns (
        collect (
          map (λ v. entry_point_of v (values.as_entry_point v))
            (stored_values_v1 ++ stored_values_v2)))

  unfoldable pub encode_proof : values.Proof → Result String (RpcsError types more)
  encode_proof proof =
      Result.◌>>=◌ (map_err bytesrepr_failure (values.proof_to_bytes proof))
        λ bytes. ok (values.encode_lower bytes)
