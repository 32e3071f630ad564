-- ===== src/Handling/Passing.antt =====
-- event_sidecar/src/event_handling_service/no_db_event_handling_service.rs: every event is passed on.
pub mod Laws
use casper_sidecar.Prelude.{ℕ, String}
use casper_sidecar.Prelude.Result.{ok}
use casper_sidecar.Types.Casper.{Casper}
use casper_sidecar.Types.SseData.{api_version, shutdown}
use casper_sidecar.Handling.Service.{
  SseEvent, EventHandlingService, Sent, send, send_block_added, handle_database_save_result,
  observe_messages,
}

module _ {c : Casper} (len : c.Messages → ℕ) where
  -- The end of most handlers: the result is always `Ok(())`.
  abbrev pub pass : (entity_name : String) → SseEvent c → Sent c → Sent c
  pass entity_name event s =
      handle_database_save_result entity_name (ok tt) event.inbound_filter event.sse_data s

  -- `NoDbEventHandlingService`
  abbrev pub no_db_service : EventHandlingService c (Sent c)
  no_db_service = record {
    handle_api_version = λ v filter s. send (api_version v) filter s;
    handle_block_added =
        λ hash block event s. pass "BlockAdded" event (send_block_added hash block s);
    handle_transaction_accepted = λ t event s. pass "TransactionAccepted" event s;
    handle_transaction_expired = λ hash event s. pass "TransactionExpired" event s;
    handle_transaction_processed = λ hash addr time ttl block result messages event s.
        pass "TransactionProcessed" event (observe_messages "all" (len messages) s);
    handle_fault = λ era time key event s. pass "Fault" event s;
    handle_step = λ era effects event s. pass "Step" event s;
    handle_finality_signature = λ fs event s. pass "FinalitySignature" event s;
    handle_shutdown = λ event s. send shutdown event.inbound_filter s;
  }
