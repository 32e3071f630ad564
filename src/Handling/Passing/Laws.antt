-- ===== src/Handling/Passing/Laws.antt =====
-- Without a database every event is passed on, by event_handling_service/no_db_event_handling_service.rs of event_sidecar/src.
use casper_sidecar.Prelude.{ℕ, ◌≡◌, refl, ap, Bool, false, some, [], ◌∷◌, ◌++◌}
use casper_sidecar.Types.Casper.{Casper}
use casper_sidecar.Types.SseData.{
  SseData, api_version, block_added, transaction_accepted, transaction_processed,
  transaction_expired, fault, finality_signature, step, shutdown,
}
use casper_sidecar.EventStream.Event.{is_api_version}
use casper_sidecar.Handling.Service.{
  SseEvent, Sent, send, send_block_added, handle_database_save_result,
}
use casper_sidecar.Handling.Passing.{no_db_service}
use casper_sidecar.Handling.Version.{ApiVersionManager}
use casper_sidecar.Handling.Dispatch.{handle_data, handle_single_event}
use casper_sidecar.Handling.Dispatch.Laws.{observed-outbound}

module _ {c : Casper} (gt : c.ProtocolVersion → c.ProtocolVersion → Bool)
    (len : c.Messages → ℕ) where
  passes_on :
      (d : SseData c) (event : SseEvent c) (m : ApiVersionManager c.ProtocolVersion) (s : Sent c)
      → d ≡ event.sse_data
      → is_api_version d ≡ false
      → (handle_data gt (no_db_service len) d event m s).1.outbound
        ≡ s.outbound ++ (event.sse_data, some event.inbound_filter) ∷ []
  unfolding handle_data handle_database_save_result send send_block_added
  passes_on (api_version v) event m s e h = cc
  passes_on (block_added hash block) event m s e h = refl
  passes_on (transaction_accepted t) event m s e h = refl
  passes_on (transaction_expired hash) event m s e h = refl
  passes_on (transaction_processed hash addr time ttl block result messages) event m s e h =
      ap (λ all. all ++ (event.sse_data, some event.inbound_filter) ∷ [])
        (observed-outbound "all" (len messages) s)
  passes_on (fault era key time) event m s e h = refl
  passes_on (finality_signature fs) event m s e h = refl
  passes_on (step era effects) event m s e h = refl
  passes_on shutdown event m s e h = ap (λ d. s.outbound ++ (d, some event.inbound_filter) ∷ []) e

  -- Without a database, every event that is no `ApiVersion` is passed on, unchanged and under the filter it
  -- came from.
  pub handle_single_event-passes :
      (event : SseEvent c) (m : ApiVersionManager c.ProtocolVersion) (s : Sent c)
      → is_api_version event.sse_data ≡ false
      → (handle_single_event gt (no_db_service len) event m s).1.outbound
        ≡ s.outbound ++ (event.sse_data, some event.inbound_filter) ∷ []
  unfolding handle_single_event
  handle_single_event-passes event m s h = passes_on event.sse_data event m s refl h
