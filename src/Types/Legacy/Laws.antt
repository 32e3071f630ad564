-- ===== src/Types/Legacy/Laws.antt =====
-- Which events `LegacySseData::from` of types/src/legacy_sse_data/mod.rs keeps.
use casper_sidecar.Prelude.{ℕ, List, [], ◌≡◌, refl, Bool, true, false, Option, none, some}
use casper_sidecar.Types.Casper.{
  Casper, deploy_hash, v1_hash, deploy, v1_transaction, InitiatorAddr, signature_v1, signature_v2,
  block_v1, block_v2, result_v1, result_v2,
}
use casper_sidecar.Types.SseData.{
  SseData, transaction_accepted, transaction_processed, transaction_expired, step,
}
use casper_sidecar.Types.Legacy.{legacy_from}
use casper_sidecar.Types.Legacy.Execution.{translate_effects, translate_execution_result}
use casper_sidecar.Types.Legacy.BlockAdded.{translate_block_v2}
use casper_sidecar.Types.Legacy.BlockAdded.Laws.{
  FitU512, NonePanics, rewards-NonePanics, rewards_of,
}

abbrev pub is_some : {A : Type 0} → Option A → Bool
is_some none = false
is_some (some a) = true

module _ {c : Casper} where
  -- Is the event no step, no shutdown, and no transaction but a deploy, which a public key signed?
  abbrev pub is_translated : SseData c → Bool
  is_translated (transaction_accepted (v1_transaction _)) = false
  is_translated (transaction_processed (v1_hash _) _ _ _ _ _ _) = false
  is_translated (transaction_processed (deploy_hash _) (InitiatorAddr.account_hash _) _ _ _ _ _) =
      false
  is_translated (transaction_expired (v1_hash _)) = false
  is_translated (step _ _) = false
  is_translated SseData.shutdown = false
  is_translated _ = true

  -- The rewards that the event's block has, which are summed.
  abbrev pub rewards_in : SseData c → List (c.PublicKey × List ℕ)
  rewards_in (SseData.block_added _ (block_v2 b)) = rewards_of b.header.era_end
  rewards_in _ = []

  has_legacy : (d : SseData c) → is_some (legacy_from d) ≡ is_translated d
  unfolding legacy_from translate_block_v2 translate_execution_result translate_effects
  has_legacy (SseData.api_version _) = refl
  has_legacy (SseData.block_added _ (block_v1 _)) = refl
  has_legacy (SseData.block_added _ (block_v2 _)) = refl
  has_legacy (transaction_accepted (deploy _)) = refl
  has_legacy (transaction_accepted (v1_transaction _)) = refl
  has_legacy (transaction_processed (v1_hash _) _ _ _ _ _ _) = refl
  has_legacy (transaction_processed (deploy_hash _) (InitiatorAddr.account_hash _) _ _ _ _ _) = refl
  has_legacy
        (transaction_processed (deploy_hash _) (InitiatorAddr.public_key _) _ _ _ (result_v1 _) _) =
      refl
  has_legacy
        (transaction_processed (deploy_hash _) (InitiatorAddr.public_key _) _ _ _ (result_v2 r) _) =
      refl
  has_legacy (transaction_expired (v1_hash _)) = refl
  has_legacy (transaction_expired (deploy_hash _)) = refl
  has_legacy (SseData.fault _ _ _) = refl
  has_legacy (SseData.finality_signature (signature_v1 _)) = refl
  has_legacy (SseData.finality_signature (signature_v2 _ _)) = refl
  has_legacy (step _ _) = refl
  has_legacy SseData.shutdown = refl

  -- An event whose rewards, if it has any, each sum up to less than 2^512 is translated without a
  -- panic, and has a legacy form exactly if it is no step, no shutdown, no transaction of the new
  -- kind, and no deploy processed for an account hash.
  pub legacy_from_lem :
      (d : SseData c)
      → FitU512 (rewards_in d)
      → NonePanics (rewards_in d) × (is_some (legacy_from d) ≡ is_translated d)
  legacy_from_lem d h = (rewards-NonePanics (rewards_in d) h, has_legacy d)
