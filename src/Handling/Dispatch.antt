-- ===== src/Handling/Dispatch.antt =====
-- `handle_single_event` and `handle_api_version` of event_sidecar/src/lib.rs.
pub mod Laws
pub mod Once
use casper_sidecar.Prelude.{if◌then◌else◌, Bool}
use casper_sidecar.Types.Casper.{Casper}
use casper_sidecar.Types.SseData.{
  Filter, SseData, api_version, block_added, transaction_accepted, transaction_processed,
  transaction_expired, fault, finality_signature, step, shutdown,
}
use casper_sidecar.Handling.Service.{SseEvent, EventHandlingService}
use casper_sidecar.Handling.Version.{ApiVersionManager, store_version}

module _ {c : Casper} {S : Type 0} (gt : c.ProtocolVersion → c.ProtocolVersion → Bool)
    (service : EventHandlingService c S) where
  abbrev pub Manager : Type 0
  Manager = ApiVersionManager c.ProtocolVersion

  unfoldable pub handle_api_version : c.ProtocolVersion → Manager → Filter → S → Manager × S
  unfolding store_version
  handle_api_version version manager inbound_filter s =
      let (changed_newest_version, later) = store_version gt version manager in
      (
        later,
        if changed_newest_version then service.handle_api_version version inbound_filter s else s,
      )

  -- The `match` on the data of the event.
  unfoldable pub handle_data : SseData c → SseEvent c → Manager → S → Manager × S
  unfolding handle_api_version
  handle_data (api_version version) event m s = handle_api_version version m event.inbound_filter s
  handle_data (block_added hash block) event m s =
      (m, service.handle_block_added hash block event s)
  handle_data (transaction_accepted t) event m s =
      (m, service.handle_transaction_accepted t event s)
  handle_data (transaction_expired hash) event m s =
      (m, service.handle_transaction_expired hash event s)
  handle_data (transaction_processed hash addr time ttl block result messages) event m s =
      (m, service.handle_transaction_processed hash addr time ttl block result messages event s)
  handle_data (fault era key time) event m s = (m, service.handle_fault era time key event s)
  handle_data (finality_signature fs) event m s = (m, service.handle_finality_signature fs event s)
  handle_data (step era effects) event m s = (m, service.handle_step era effects event s)
  handle_data shutdown event m s = (m, service.handle_shutdown event s)

  unfoldable pub handle_single_event : SseEvent c → Manager → S → Manager × S
  unfolding handle_data
  handle_single_event event m s = handle_data event.sse_data event m s
