-- ===== src/Types/Legacy/Deploys.antt =====
-- types/src/legacy_sse_data/translate_deploy_hashes.rs
pub mod Laws
use casper_sidecar.Prelude.{◌==◌, if◌then◌else◌, ℕ, List, [], ◌∷◌, ◌++◌}
use casper_sidecar.Types.Casper.{Casper, TransactionHash, deploy_hash, v1_hash, BlockBodyV2}

module _ {c : Casper} where
  -- The `filter_map` that keeps the hashes of deploys.
  unfoldable pub deploys_only : List (TransactionHash c) → List c.DeployHash
  deploys_only [] = []
  deploys_only (deploy_hash h ∷ hs) = h ∷ deploys_only hs
  deploys_only (v1_hash _ ∷ hs) = deploys_only hs

  standard_lanes : List (ℕ × List (TransactionHash c)) → List c.DeployHash
  unfolding deploys_only
  standard_lanes [] = []
  standard_lanes ((lane, hashes) ∷ lanes) =
      if lane == c.mint_lane_id
      then standard_lanes lanes
      else deploys_only hashes ++ standard_lanes lanes

  -- `StandardDeployHashesTranslator`
  unfoldable pub translate_standard : BlockBodyV2 c → List c.DeployHash
  unfolding standard_lanes
  translate_standard body = standard_lanes body.transactions

  -- `TransferDeployHashesTranslator`
  unfoldable pub translate_transfers : BlockBodyV2 c → List c.DeployHash
  unfolding deploys_only
  translate_transfers body = deploys_only body.mint
