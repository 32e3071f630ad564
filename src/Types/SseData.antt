-- ===== src/Types/SseData.antt =====
-- types/src/filter.rs and types/src/sse_data.rs: the events, and which filter lets them through.
use casper_sidecar.Prelude.{◌==◌, ℕ, String, Bool, true, false, ◌||◌, List, [], ◌∷◌}
use casper_sidecar.Types.Casper.{
  Casper, TransactionHash, Transaction, InitiatorAddr, FinalitySignature, Block, ExecutionResult,
}

-- The endpoints of a node.
pub data Filter : Type 0 where
  events : Filter

pub data EventFilter : Type 0 where
  api_version_filter block_added_filter transaction_accepted_filter : EventFilter
  transaction_processed_filter transaction_expired_filter fault_filter : EventFilter
  finality_signature_filter step_filter : EventFilter

pub data SseData (c : Casper) : Type 0 where
  api_version : c.ProtocolVersion → SseData c
  block_added : (block_hash : c.BlockHash) → Block c → SseData c
  transaction_accepted : Transaction c → SseData c
  transaction_processed :
      TransactionHash c
      → InitiatorAddr c
      → (timestamp : c.Timestamp) → (ttl : c.TimeDiff) → (block_hash : c.BlockHash)
      → ExecutionResult c
      → c.Messages
      → SseData c
  transaction_expired : TransactionHash c → SseData c
  fault : c.EraId → c.PublicKey → c.Timestamp → SseData c
  finality_signature : FinalitySignature c → SseData c
  step : c.EraId → (execution_effects : c.RawValue) → SseData c
  shutdown : SseData c

-- A number for each filter, to compare them by.
abbrev rank : EventFilter → ℕ
rank api_version_filter = 0
rank block_added_filter = 1
rank transaction_accepted_filter = 2
rank transaction_processed_filter = 3
rank transaction_expired_filter = 4
rank fault_filter = 5
rank finality_signature_filter = 6
rank step_filter = 7

-- `<[EventFilter]>::contains`
unfoldable pub contains : List EventFilter → EventFilter → Bool
contains [] f = false
contains (g ∷ gs) f = rank g == rank f || contains gs f

module _ {c : Casper} where
  unfoldable pub type_label : SseData c → String
  type_label (api_version _) = "ApiVersion"
  type_label (block_added _ _) = "BlockAdded"
  type_label (transaction_accepted _) = "TransactionAccepted"
  type_label (transaction_processed _ _ _ _ _ _ _) = "TransactionProcessed"
  type_label (transaction_expired _) = "TransactionExpired"
  type_label (fault _ _ _) = "Fault"
  type_label (finality_signature _) = "FinalitySignature"
  type_label (step _ _) = "Step"
  type_label shutdown = "Shutdown"

  unfoldable pub should_include : SseData c → List EventFilter → Bool
  unfolding contains
  should_include shutdown filter = true
  should_include (api_version _) filter = contains filter api_version_filter
  should_include (block_added _ _) filter = contains filter block_added_filter
  should_include (transaction_accepted _) filter = contains filter transaction_accepted_filter
  should_include (transaction_processed _ _ _ _ _ _ _) filter =
      contains filter transaction_processed_filter
  should_include (transaction_expired _) filter = contains filter transaction_expired_filter
  should_include (fault _ _ _) filter = contains filter fault_filter
  should_include (finality_signature _) filter = contains filter finality_signature_filter
  should_include (step _ _) filter = contains filter step_filter
