-- ===== src/Types/Legacy/Execution.antt =====
-- types/src/legacy_sse_data/translate_execution_result.rs
pub mod Laws
use casper_sidecar.Prelude.{String, Option, none, some, List, [], ◌∷◌, ◌++◌}
use casper_sidecar.Types.Casper.{
  Casper, StoredValue, cl_value, account, contract_wasm, contract, contract_package, transfer,
  deploy_info, era_info, bid, withdraw, unbonding, named_key, TransformKindV2, identity, write,
  add_int32, add_uint64, add_uint128, add_uint256, add_uint512, add_keys, prune, failure,
  TransformKindV1, write_cl_value, write_account, write_contract_wasm, write_contract,
  write_contract_package, write_transfer, write_deploy_info, write_era_info, write_bid,
  write_withdraw, write_unbonding, TransformV2, TransformV1, ExecutionEffect, ExecutionResultV1,
  success, ExecutionResultV2,
}

-- The `for` of `handle_named_keys`, over any type of keys with a printer.
abbrev pub formatted_keys : {K : Type 0} → (K → String) → List (String × K) → List (String × String)
formatted_keys show [] = []
formatted_keys show ((name, key) ∷ rest) = (name, show key) ∷ formatted_keys show rest

module _ {c : Casper} where
  unfoldable pub handle_named_keys : List (String × c.Key) → TransformKindV1 c
  handle_named_keys keys = TransformKindV1.add_keys (formatted_keys c.to_formatted_string keys)

  -- The `if let (Ok(key), Ok(name))`.
  abbrev both : Option c.Key → Option String → Option (TransformKindV1 c)
  both (some key) (some name) = some (TransformKindV1.add_keys ((name, c.key_to_string key) ∷ []))
  both _ _ = none

  unfoldable pub maybe_tanslate_stored_value : StoredValue c → Option (TransformKindV1 c)
  maybe_tanslate_stored_value (cl_value v) = some (write_cl_value v)
  maybe_tanslate_stored_value (account a) = some (write_account (c.account_hash a))
  maybe_tanslate_stored_value (contract_wasm _) = some write_contract_wasm
  maybe_tanslate_stored_value (contract _) = some write_contract
  maybe_tanslate_stored_value (contract_package _) = some write_contract_package
  maybe_tanslate_stored_value (transfer t) = some (write_transfer t)
  maybe_tanslate_stored_value (deploy_info d) = some (write_deploy_info d)
  maybe_tanslate_stored_value (era_info e) = some (write_era_info e)
  maybe_tanslate_stored_value (bid b) = some (write_bid b)
  maybe_tanslate_stored_value (withdraw w) = some (write_withdraw w)
  maybe_tanslate_stored_value (unbonding u) = some (write_unbonding u)
  maybe_tanslate_stored_value (named_key k) = both (c.get_key k) (c.get_name k)
  maybe_tanslate_stored_value _ = none

  unfoldable pub map_transform_v2 : TransformKindV2 c → Option (TransformKindV1 c)
  unfolding maybe_tanslate_stored_value handle_named_keys
  map_transform_v2 TransformKindV2.identity = some TransformKindV1.identity
  map_transform_v2 (write v) = maybe_tanslate_stored_value v
  map_transform_v2 (TransformKindV2.add_int32 v) = some (TransformKindV1.add_int32 v)
  map_transform_v2 (TransformKindV2.add_uint64 v) = some (TransformKindV1.add_uint64 v)
  map_transform_v2 (TransformKindV2.add_uint128 v) = some (TransformKindV1.add_uint128 v)
  map_transform_v2 (TransformKindV2.add_uint256 v) = some (TransformKindV1.add_uint256 v)
  map_transform_v2 (TransformKindV2.add_uint512 v) = some (TransformKindV1.add_uint512 v)
  map_transform_v2 (TransformKindV2.add_keys keys) = some (handle_named_keys keys)
  map_transform_v2 (TransformKindV2.prune key) = some (TransformKindV1.prune key)
  map_transform_v2 (TransformKindV2.failure e) =
      some (TransformKindV1.failure (c.error_to_string e))

  -- The `for` over the transforms: the list so far, cleared and left at the first that has no
  -- translation.
  effects_loop : List (TransformV1 c) → List (TransformV2 c) → List (TransformV1 c)
  effects_loop transforms [] = transforms
  effects_loop transforms (effect ∷ rest) = elim (map_transform_v2 effect.kind) [
    | some kind ↦
        effects_loop
          (transforms ++ record { key = c.to_formatted_string effect.key; transform = kind } ∷ [])
          rest
    | none ↦ []
  ]

  -- `DefaultExecutionEffectsTranslator`
  unfoldable pub translate_effects : List (TransformV2 c) → Option (ExecutionEffect c)
  unfolding effects_loop
  translate_effects effects =
      some (record { operations = []; transforms = effects_loop [] effects })

  abbrev with_effect : ExecutionEffect c → Option String → (cost : c.Number) → ExecutionResultV1 c
  with_effect effect (some msg) cost = ExecutionResultV1.failure effect [] cost msg
  with_effect effect none cost = ExecutionResultV1.success effect [] cost

  -- `DefaultExecutionResultV2Translator`
  unfoldable pub translate_execution_result : ExecutionResultV2 c → Option (ExecutionResultV1 c)
  translate_execution_result result = elim (translate_effects result.effects) [
    | some effect ↦ some (with_effect effect result.error_message result.cost)
    | none ↦ none
  ]
