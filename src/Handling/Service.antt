-- ===== src/Handling/Service.antt =====
-- event_sidecar/src/event_handling_service.rs, and the events of listener/src/types.rs.
use casper_sidecar.Prelude.{ltb, if◌then◌else◌, ℕ, String, Option, none, some, List, [], ◌∷◌, ◌++◌}
use casper_sidecar.Prelude.Result.{Result, ok, err}
use casper_sidecar.Types.Casper.{
  Casper, TransactionHash, Transaction, InitiatorAddr, FinalitySignature, Block, block_v1, block_v2,
  ExecutionResult,
}
use casper_sidecar.Types.SseData.{Filter, SseData}

-- An event with where it comes from; `source` is the text of its URL.
pub record SseEvent (c : Casper) : Type 0 where
  pub id : ℕ
  pub sse_data : SseData c
  pub source : String
  pub inbound_filter : Filter
  pub api_version_of : String
  pub network_name : String

pub data DatabaseWriteError : Type 0 where
  serialisation sql_construction unique_constraint : String → DatabaseWriteError
  database_error unhandled : String → DatabaseWriteError

-- The trait `EventHandlingService`, on a state `S`.
pub record EventHandlingService (c : Casper) (S : Type 0) : Type 0 where
  pub handle_api_version : c.ProtocolVersion → Filter → S → S
  pub handle_block_added : c.BlockHash → Block c → SseEvent c → S → S
  pub handle_transaction_accepted : Transaction c → SseEvent c → S → S
  pub handle_transaction_expired : TransactionHash c → SseEvent c → S → S
  pub handle_transaction_processed :
      TransactionHash c
      → InitiatorAddr c
      → c.Timestamp
      → c.TimeDiff
      → c.BlockHash
      → ExecutionResult c
      → c.Messages
      → SseEvent c
      → S
      → S
  pub handle_fault : c.EraId → c.Timestamp → c.PublicKey → SseEvent c → S → S
  pub handle_step : c.EraId → c.RawValue → SseEvent c → S → S
  pub handle_finality_signature : FinalitySignature c → SseEvent c → S → S
  pub handle_shutdown : SseEvent c → S → S

-- What was observed for the metrics.
pub data Observation : Type 0 where
  db_save_error : (entity_name : String) → Observation
  contract_messages : (label : String) → (messages_len : ℕ) → Observation

-- What a service has sent and observed. Without a sender of sidecar events there is no list of them.
pub record Sent (c : Casper) : Type 0 where
  pub outbound : List (SseData c × Option Filter)
  pub sidecar_events : Option (List (c.BlockHash × ℕ))
  pub observed : List Observation

module _ {c : Casper} where
  unfoldable pub send : SseData c → Filter → Sent c → Sent c
  send d filter s = record {
    outbound = s.outbound ++ (d, some filter) ∷ [];
    sidecar_events = s.sidecar_events;
    observed = s.observed;
  }

  unfoldable pub observe : Observation → Sent c → Sent c
  observe o s = record {
    outbound = s.outbound;
    sidecar_events = s.sidecar_events;
    observed = s.observed ++ o ∷ [];
  }

  unfoldable pub height_of : Block c → ℕ
  height_of (block_v1 b) = b.header.height
  height_of (block_v2 b) = b.header.height

  -- `sender.send(SidecarEvent::BlockAdded { .. })`, if there is a sender.
  unfoldable pub send_block_added : c.BlockHash → Block c → Sent c → Sent c
  unfolding height_of
  send_block_added hash block s = record {
    outbound = s.outbound;
    sidecar_events = elim s.sidecar_events [
      | none ↦ none
      | some sent ↦ some (sent ++ (hash, height_of block) ∷ [])
    ];
    observed = s.observed;
  }

  unfoldable pub handle_database_save_result :
      (entity_name : String)
      → Result (Unit {0}) DatabaseWriteError
      → Filter
      → SseData c
      → Sent c
      → Sent c
  unfolding send observe
  handle_database_save_result entity_name (ok _) inbound_filter d s = send d inbound_filter s
  handle_database_save_result entity_name (err (unique_constraint _)) inbound_filter d s = s
  handle_database_save_result entity_name (err _) inbound_filter d s =
      observe (db_save_error entity_name) s

  -- `observe_contract_messages`, for what is not empty.
  unfoldable pub observe_messages : (label : String) → (messages_len : ℕ) → Sent c → Sent c
  unfolding observe
  observe_messages label messages_len s =
      if ltb 0 messages_len then observe (contract_messages label messages_len) s else s
