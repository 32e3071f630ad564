-- ===== src/Rpcs/Tests.antt =====
-- The theorems on the methods at a small node, whose values are numbers, and tests.
use casper_sidecar.Prelude.{
  ℕ, zero, suc, String, ◌≡◌, refl, ◌↔◌, true, Option, none, some, List, [], ◌∷◌, ◌++◌, map,
}
use casper_sidecar.Prelude.Result.{ok}
use casper_sidecar.JsonRpc.Json.{Value, string}
use casper_sidecar.NodeClient.Instance.{small_types}
use casper_sidecar.Rpcs.Code.{rpcs_code}
use casper_sidecar.Rpcs.Error.{ErrorTypes, RpcsError, no_block_found, code, into_rpc}
use casper_sidecar.Rpcs.Error.Laws.{code_or_internal, text_or_internal, info, into_rpc-keeps}
use casper_sidecar.JsonRpc.Error.Laws.{carried}
use casper_sidecar.Rpcs.Client.{NodeClient, ValueTypes}
use casper_sidecar.Rpcs.Common.{get_entity_entry_points}
use casper_sidecar.Rpcs.Common.Laws.{missing, get_entity_entry_points_iff}
use casper_sidecar.Rpcs.Chain.{
  get_block_transfers, get_state_root_hash, get_era_summary_by_block, get_era_info_by_switch_block,
  get_era_summary,
}
use casper_sidecar.Rpcs.Chain.Laws.{missing_block-answers, of_info, era_summary-falls_back}

abbrev small_errors : ErrorTypes small_types
small_errors = record {
  DeployHash = ℕ;
  URefFromStrError = ℕ;
  BytesreprError = ℕ;
  transaction_hash_to_string = λ h. "transaction";
  deploy_hash_to_string = λ h. "deploy";
  uref_error_to_string = λ e. "uref";
  key_tag_to_string = λ t. "key";
  bytesrepr_error_to_string = λ e. "bytes";
}

abbrev entry_point_of_number : ℕ → Option ℕ
entry_point_of_number zero = none
entry_point_of_number (suc n) = some n

abbrev small_values : ValueTypes small_types small_errors
small_values = record {
  EntityAddr = ℕ;
  NamedKeyValue = ℕ;
  EntryPointValue = ℕ;
  NamedKeys = List (String × ℕ);
  EraId = ℕ;
  Proof = ℕ;
  Deploy = ℕ;
  named_keys_by_entity = λ e. 0;
  entry_points_v1_by_entity = λ e. 1;
  entry_points_v2_by_entity = λ e. 2;
  as_named_key = λ v. none;
  as_entry_point = entry_point_of_number;
  type_name = λ v. "Account";
  get_key = λ k. ok k;
  get_name = λ k. ok "name";
  named_keys_from = λ l. l;
  block_hash = λ h. h;
  era_id = λ h. h;
  state_root_hash = λ h. h;
  is_switch_block = λ h. true;
  state_root_identifier = λ d. d;
  era_summary_key = 0;
  era_info_key = λ era. suc era;
  into_inner = λ r. (r, r);
  proof_to_bytes = λ p. ok (p ∷ []);
  encode_lower = λ b. "0e";
  deploy_hash = λ d. d;
  deploy_into = λ d. d;
  transaction_hash = λ t. t;
}

abbrev entry_at : ℕ → Option ℕ
entry_at zero = none
entry_at (suc n) = some n

-- A node without blocks, whose state holds the key of a query as its value; its state counts the calls.
abbrev small_node : NodeClient ℕ small_types
small_node = record {
  read_block_with_signatures = λ identifier s. (some (ok none), suc s);
  read_available_block_range = λ s. (some (ok 9), suc s);
  read_block_header = λ identifier s. (some (ok none), suc s);
  read_latest_switch_block_header = λ s. (some (ok none), suc s);
  read_block_transfers = λ hash s. (some (ok none), suc s);
  query_global_state = λ state key path s. (some (ok (entry_at key)), suc s);
  query_global_state_by_prefix = λ state prefix s. (some (ok (prefix ∷ 3 ∷ [])), suc s);
  try_accept_transaction = λ transaction s. (some (ok tt), suc s);
}

abbrev not_found : RpcsError small_types small_errors
not_found = no_block_found (some 4) 9

abbrev as_text : (message : String) → ℕ → Value ℕ
as_text message range = string message

into_rpc-keeps_example :
    into_rpc small_types small_errors {N = ℕ}
      (λ message range. ok (as_text message range))
      not_found
    ≡ record {
      code = code_or_internal (code small_types small_errors not_found);
      message = text_or_internal (code small_types small_errors not_found);
      data_field = carried (
          info small_types small_errors
            (λ message range. ok (as_text message range))
            as_text
            not_found);
    }
into_rpc-keeps_example =
    into_rpc-keeps small_types small_errors (λ message range. ok (as_text message range)) as_text
      not_found (λ message range. refl)

get_entity_entry_points_iff_example :
    (get_entity_entry_points small_values small_node 5 none 0 ≡ (some (ok (0 ∷ 2 ∷ 1 ∷ 2 ∷ [])), 2))
    ↔ (map entry_point_of_number ((1 ∷ 3 ∷ []) ++ (2 ∷ 3 ∷ [])) ≡ map some (0 ∷ 2 ∷ 1 ∷ 2 ∷ []))
get_entity_entry_points_iff_example =
    get_entity_entry_points_iff small_values small_node 5 none (1 ∷ 3 ∷ []) (2 ∷ 3 ∷ []) 0 1 2
      (0 ∷ 2 ∷ 1 ∷ 2 ∷ []) refl refl

missing_block-answers_example :
    (get_block_transfers small_values small_node (some 4) 0
      ≡ missing small_values small_node (some 4) 9 2)
    × (get_state_root_hash small_values small_node (some 4) 0
        ≡ missing small_values small_node (some 4) 9 2)
    × (get_era_summary small_values small_node (some 4) 0
        ≡ missing small_values small_node (some 4) 9 2)
    × (get_era_info_by_switch_block small_values small_node (some 4) 0
        ≡ missing small_values small_node (some 4) 9 2)
missing_block-answers_example = missing_block-answers small_values small_node 4 9 0 1 2 refl refl

era_summary-falls_back_example :
    get_era_summary_by_block small_values small_node 6 0
    ≡ (some (of_info small_values small_node 6 (some 6)), 2)
era_summary-falls_back_example =
    era_summary-falls_back small_values small_node 6 0 1 2 (some 6) refl refl
