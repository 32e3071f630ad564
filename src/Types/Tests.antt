-- ===== src/Types/Tests.antt =====
-- The theorems on types/src at concrete events.
use mathlib.Core.List.{Perm}
use casper_sidecar.Prelude.{ℕ, ◌<◌, ◌^◌, arith, ◌≡◌, refl, true, some, List, [], ◌∷◌, ◌++◌}
use casper_sidecar.Types.Casper.{
  Casper, block_v2, TransactionHash, deploy_hash, v1_hash, EraEndV2, BlockBodyV2, BlockV2,
  TransformKindV2, TransformV2,
}
use casper_sidecar.Types.SseData.{SseData}
use casper_sidecar.Types.Legacy.{legacy_from}
use casper_sidecar.Types.Legacy.Laws.{is_some, legacy_from_lem}
use casper_sidecar.Types.Legacy.Structs.{LegacyBlock}
use casper_sidecar.Types.Legacy.Deploys.{deploys_only, translate_standard, translate_transfers}
use casper_sidecar.Types.Legacy.Deploys.Laws.{all_hashes, translate_deploys-Perm}
use casper_sidecar.Types.Legacy.BlockAdded.{sum, translate_block_v2}
use casper_sidecar.Types.Legacy.BlockAdded.Laws.{NonePanics, kept_end, translate_block_v2_lem}
use casper_sidecar.Types.Legacy.Execution.{translate_effects}
use casper_sidecar.Types.Legacy.Execution.Laws.{translate_all, after, translate_effects_lem}

-- Every leaf type is the type of numbers.
abbrev pub plain : Casper
plain = record {
  ProtocolVersion = ℕ;
  BlockHash = ℕ;
  Digest = ℕ;
  DeployHash = ℕ;
  TransactionV1Hash = ℕ;
  Deploy = ℕ;
  TransactionV1 = ℕ;
  PublicKey = ℕ;
  AccountHash = ℕ;
  Signature = ℕ;
  ChainNameDigest = ℕ;
  Timestamp = ℕ;
  TimeDiff = ℕ;
  EraId = ℕ;
  Messages = ℕ;
  RawValue = ℕ;
  Transfer = ℕ;
  Operation = ℕ;
  Number = ℕ;
  Key = ℕ;
  TransformError = ℕ;
  ClValue = ℕ;
  Stored = ℕ;
  NamedKeyValue = ℕ;
  to_formatted_string = λ k. "key-1";
  key_to_string = λ k. "1";
  error_to_string = λ e. "error";
  get_key = λ v. some v;
  get_name = λ v. some "name";
  account_hash = λ v. v;
  mint_lane_id = 0;
}

abbrev transfers : List (TransactionHash plain)
transfers = deploy_hash 1 ∷ v1_hash 2 ∷ []

abbrev block_body : BlockBodyV2 plain
block_body = record {
  transactions = (3, deploy_hash 5 ∷ deploy_hash 6 ∷ []) ∷ (0, transfers) ∷ [];
  mint = transfers;
}

translate_deploys-Perm_example :
    Perm
      (translate_standard block_body ++ translate_transfers block_body)
      (deploys_only (all_hashes block_body.transactions))
translate_deploys-Perm_example = translate_deploys-Perm block_body refl

abbrev era_end : EraEndV2 plain
era_end = record {
  equivocators = [];
  rewards = (7, 10 ∷ 20 ∷ []) ∷ [];
  inactive_validators = 8 ∷ [];
  next_era_validator_weights = (7, 100) ∷ [];
}

abbrev switch_block : BlockV2 plain
switch_block = record {
  hash = 11;
  header = record {
    parent_hash = 10;
    state_root_hash = 1;
    body_hash = 2;
    random_bit = true;
    accumulated_seed = 3;
    era_end = some era_end;
    timestamp = 99;
    era_id = 4;
    height = 1000;
    protocol_version = 2;
    proposer = 7;
  };
  body = block_body;
}

thirty_fits : sum (10 ∷ 20 ∷ []) < 2 ^ 512
unfolding sum
thirty_fits = omega arith

translate_block_v2_lem_example :
    NonePanics {K = ℕ} ((7, 10 ∷ 20 ∷ []) ∷ [])
    × (r : LegacyBlock plain) × (translate_block_v2 switch_block ≡ some r)
    × (r.hash ≡ 11)
    × (r.header.height ≡ 1000)
    × (r.header.era_end ≡ kept_end (some era_end))
translate_block_v2_lem_example = translate_block_v2_lem switch_block (thirty_fits, tt)

abbrev effects : List (TransformV2 plain)
effects =
    record { key = 1; kind = TransformKindV2.identity }
    ∷ record { key = 2; kind = TransformKindV2.add_uint64 5 }
    ∷ []

translate_effects_lem_example :
    translate_effects effects
    ≡ some (record { operations = []; transforms = after [] (translate_all effects) })
translate_effects_lem_example = translate_effects_lem effects

abbrev switched : SseData plain
switched = SseData.block_added 11 (block_v2 switch_block)

legacy_from_lem_example :
    NonePanics {K = ℕ} ((7, 10 ∷ 20 ∷ []) ∷ []) × (is_some (legacy_from switched) ≡ true)
legacy_from_lem_example = legacy_from_lem switched (thirty_fits, tt)
