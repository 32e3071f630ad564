-- ===== src/Types/Legacy.antt =====
-- types/src/legacy_sse_data/mod.rs: the events in the format of 1.x nodes.
pub mod Structs
pub mod Deploys
pub mod BlockAdded
pub mod Execution
pub mod Laws
use casper_sidecar.Prelude.{Option, none, some, List, []}
use casper_sidecar.Types.Casper.{
  Casper, TransactionHash, deploy_hash, v1_hash, Transaction, deploy, v1_transaction, InitiatorAddr,
  SignatureParts, FinalitySignature, signature_v1, signature_v2, Block, block_v1, block_v2, account,
  ExecutionResultV1, ExecutionResult, result_v1, result_v2,
}
use casper_sidecar.Types.SseData.{
  SseData, transaction_accepted, transaction_processed, transaction_expired, step, shutdown,
}
use casper_sidecar.Types.Legacy.Structs.{LegacyBlock, legacy_block_from}
use casper_sidecar.Types.Legacy.BlockAdded.{translate_block_v2}
use casper_sidecar.Types.Legacy.Execution.{translate_execution_result}

pub record LegacyFinalitySignature (c : Casper) : Type 0 where
  pub block_hash : c.BlockHash
  pub era_id : c.EraId
  pub signature : c.Signature
  pub public_key : c.PublicKey

pub data LegacySseData (c : Casper) : Type 0 where
  api_version : c.ProtocolVersion → LegacySseData c
  deploy_accepted : c.Deploy → LegacySseData c
  deploy_processed :
      c.DeployHash
      → (account : c.PublicKey) → (timestamp : c.Timestamp) → (ttl : c.TimeDiff)
      → (dependencies : List c.DeployHash) → (block_hash : c.BlockHash) → ExecutionResultV1 c
      → LegacySseData c
  deploy_expired : c.DeployHash → LegacySseData c
  block_added : (block_hash : c.BlockHash) → LegacyBlock c → LegacySseData c
  fault : c.EraId → c.PublicKey → c.Timestamp → LegacySseData c
  finality_signature : LegacyFinalitySignature c → LegacySseData c

module _ {c : Casper} where
  -- `from_v1` and `from_v2`, which read the same four getters.
  from_parts : SignatureParts c → LegacyFinalitySignature c
  from_parts p = record {
    block_hash = p.signed_block;
    era_id = p.signed_era;
    signature = p.signature;
    public_key = p.signer;
  }

  unfoldable pub translate_finality_signature : FinalitySignature c → LegacySseData c
  unfolding from_parts
  translate_finality_signature (signature_v1 p) = LegacySseData.finality_signature (from_parts p)
  translate_finality_signature (signature_v2 _ p) = LegacySseData.finality_signature (from_parts p)

  unfoldable pub maybe_translate_deploy_expired : TransactionHash c → Option (LegacySseData c)
  maybe_translate_deploy_expired (deploy_hash h) = some (deploy_expired h)
  maybe_translate_deploy_expired (v1_hash _) = none

  -- The `match` on `execution_result`.
  abbrev pub result_of : ExecutionResult c → Option (ExecutionResultV1 c)
  result_of (result_v1 r) = some r
  result_of (result_v2 r) = translate_execution_result r

  unfoldable pub maybe_translate_transaction_processed :
      TransactionHash c
      → InitiatorAddr c
      → (timestamp : c.Timestamp) → (ttl : c.TimeDiff) → (block_hash : c.BlockHash)
      → ExecutionResult c
      → Option (LegacySseData c)
  maybe_translate_transaction_processed (deploy_hash h) (InitiatorAddr.public_key signer) time ttl
        block result =
      elim (result_of result) [
        | none ↦ none
        | some r ↦ some (deploy_processed h signer time ttl [] block r)
      ]
  maybe_translate_transaction_processed (deploy_hash h) (InitiatorAddr.account_hash _) time ttl
        block result =
      none
  maybe_translate_transaction_processed (v1_hash _) _ time ttl block result = none

  unfoldable pub maybe_translate_transaction_accepted : Transaction c → Option (LegacySseData c)
  maybe_translate_transaction_accepted (deploy d) = some (deploy_accepted d)
  maybe_translate_transaction_accepted (v1_transaction _) = none

  -- `BlockAddedTranslator::translate`
  unfoldable pub translate_block_added : c.BlockHash → Block c → Option (LegacySseData c)
  unfolding legacy_block_from
  translate_block_added hash (block_v1 b) =
      some (LegacySseData.block_added hash (legacy_block_from b.hash b.header b.body))
  translate_block_added hash (block_v2 b) = elim (translate_block_v2 b) [
    | none ↦ none
    | some block ↦ some (LegacySseData.block_added hash block)
  ]

  -- `LegacySseData::from`
  unfoldable pub legacy_from : SseData c → Option (LegacySseData c)
  unfolding translate_finality_signature maybe_translate_deploy_expired
      maybe_translate_transaction_processed maybe_translate_transaction_accepted
      translate_block_added
  legacy_from (SseData.api_version v) = some (LegacySseData.api_version v)
  legacy_from shutdown = none
  legacy_from (step _ _) = none
  legacy_from (SseData.block_added hash block) = translate_block_added hash block
  legacy_from (transaction_accepted t) = maybe_translate_transaction_accepted t
  legacy_from (transaction_processed h addr time ttl block result _) =
      maybe_translate_transaction_processed h addr time ttl block result
  legacy_from (transaction_expired h) = maybe_translate_deploy_expired h
  legacy_from (SseData.fault era key time) = some (LegacySseData.fault era key time)
  legacy_from (SseData.finality_signature fs) = some (translate_finality_signature fs)
