-- ===== src/Handling/Saving.antt =====
-- event_sidecar/src/event_handling_service/db_saving_event_handling_service.rs: an event is passed on if it is
-- saved. The DatabaseWriter is a record; Handling/Writer.antt fills it.
use casper_sidecar.Prelude.{if◌then◌else◌, ℕ, String, Bool, true, false}
use casper_sidecar.Prelude.Result.{Result, ok, err}
use casper_sidecar.Types.Casper.{
  Casper, TransactionHash, Transaction, InitiatorAddr, FinalitySignature, Block, ExecutionResult,
}
use casper_sidecar.Types.SseData.{Filter, api_version, shutdown}
use casper_sidecar.Handling.Service.{
  SseEvent, DatabaseWriteError, unique_constraint, EventHandlingService, db_save_error, Sent, send,
  observe, send_block_added, handle_database_save_result, observe_messages,
}

-- The arguments that each save has besides the entity.
pub record Origin : Type 0 where
  pub id : ℕ
  pub source : String
  pub api_version_of : String
  pub network_name : String

abbrev pub Save : (Db : Type 0) → Type 0
Save Db = Origin → Db → Result (Unit {0}) DatabaseWriteError × Db

-- The trait `DatabaseWriter`, as far as the service calls it.
pub record DatabaseWriter (c : Casper) (Db : Type 0) : Type 0 where
  pub save_block_added : c.BlockHash → Block c → Save Db
  pub save_transaction_accepted : Transaction c → Save Db
  pub save_transaction_expired : TransactionHash c → Save Db
  pub save_transaction_processed :
      TransactionHash c
      → InitiatorAddr c
      → c.Timestamp
      → c.TimeDiff
      → c.BlockHash
      → ExecutionResult c
      → c.Messages
      → Save Db
  pub save_fault : c.EraId → c.PublicKey → c.Timestamp → Save Db
  pub save_step : c.EraId → c.RawValue → Save Db
  pub save_finality_signature : FinalitySignature c → Save Db
  pub save_shutdown : Save Db

abbrev pub is_ok : Result (Unit {0}) DatabaseWriteError → Bool
is_ok (ok _) = true
is_ok (err _) = false

module _ {c : Casper} where
  abbrev pub origin : SseEvent c → Origin
  origin event = record {
    id = event.id;
    source = event.source;
    api_version_of = event.api_version_of;
    network_name = event.network_name;
  }

  -- The end of most handlers, with what has happened to the rest of the state before.
  abbrev pub finish :
      {Db : Type 0}
      → (entity_name : String) → SseEvent c
      → (prepare : Result (Unit {0}) DatabaseWriteError → Sent c → Sent c)
      → Result (Unit {0}) DatabaseWriteError × Db
      → Sent c
      → Db × Sent c
  finish entity_name event prepare (res, db) s = (
    db,
    handle_database_save_result entity_name res event.inbound_filter event.sse_data (prepare res s),
  )

  -- A shutdown is passed on even if it is not new.
  unfoldable pub finish_shutdown : Filter → Result (Unit {0}) DatabaseWriteError → Sent c → Sent c
  unfolding send observe
  finish_shutdown filter (ok _) s = send shutdown filter s
  finish_shutdown filter (err (unique_constraint _)) s = send shutdown filter s
  finish_shutdown filter (err _) s = observe (db_save_error "shutdown") s

module _ {c : Casper} {Db : Type 0} (writer : DatabaseWriter c Db) (len : c.Messages → ℕ) where
  -- `DbSavingEventHandlingService`
  abbrev pub db_service : EventHandlingService c (Db × Sent c)
  db_service = record {
    handle_api_version = λ v filter (db, s). (db, send (api_version v) filter s);
    handle_block_added = λ hash block event (db, s).
        finish "BlockAdded" event (λ res s. if is_ok res then send_block_added hash block s else s)
          (writer.save_block_added hash block (origin event) db) s;
    handle_transaction_accepted = λ t event (db, s).
        finish "TransactionAccepted" event (λ res s. s)
          (writer.save_transaction_accepted t (origin event) db) s;
    handle_transaction_expired = λ hash event (db, s).
        finish "TransactionExpired" event (λ res s. s)
          (writer.save_transaction_expired hash (origin event) db) s;
    handle_transaction_processed = λ hash addr time ttl block result messages event (db, s).
        finish "TransactionProcessed" event
          (λ res s.
            let counted = observe_messages "all" (len messages) s in
            if is_ok res then observe_messages "unique" (len messages) counted else counted)
          (writer.save_transaction_processed hash addr time ttl block result messages (origin event)
            db)
          s;
    handle_fault = λ era time key event (db, s).
        finish "Fault" event (λ res s. s) (writer.save_fault era key time (origin event) db) s;
    handle_step = λ era effects event (db, s).
        finish "Step" event (λ res s. s) (writer.save_step era effects (origin event) db) s;
    handle_finality_signature = λ fs event (db, s).
        finish "FinalitySignature" event (λ res s. s)
          (writer.save_finality_signature fs (origin event) db) s;
    handle_shutdown = λ event (db, s).
        let (res, db') = writer.save_shutdown (origin event) db in
        (db', finish_shutdown event.inbound_filter res s);
  }
