-- ===== src/EventStream/Event.antt =====
-- The messages of event_sidecar/src/event_stream_server/sse_server.rs and the endpoints of endpoint.rs.
use casper_sidecar.Prelude.{ℕ, String, Bool, true, false, Option, none, some, List, [], ◌∷◌}
use casper_sidecar.Types.Casper.{Casper}
use casper_sidecar.Types.SseData.{
  Filter, EventFilter, api_version_filter, block_added_filter, transaction_accepted_filter,
  transaction_processed_filter, transaction_expired_filter, fault_filter, finality_signature_filter,
  step_filter, SseData, api_version,
}

pub data Endpoint : Type 0 where
  events main deploys sigs : Endpoint

abbrev pub events_filter : List EventFilter
events_filter =
    api_version_filter ∷ block_added_filter ∷ transaction_accepted_filter
    ∷ transaction_processed_filter ∷ transaction_expired_filter ∷ fault_filter
    ∷ finality_signature_filter ∷ step_filter ∷ []

abbrev pub main_filter : List EventFilter
main_filter =
    api_version_filter ∷ block_added_filter ∷ transaction_processed_filter
    ∷ transaction_expired_filter ∷ fault_filter ∷ step_filter ∷ []

abbrev pub deploys_filter : List EventFilter
deploys_filter = api_version_filter ∷ transaction_accepted_filter ∷ []

abbrev pub signatures_filter : List EventFilter
signatures_filter = api_version_filter ∷ finality_signature_filter ∷ []

abbrev pub legacy_endpoint_notice : String
legacy_endpoint_notice =
    "This endpoint is NOT a 1 to 1 representation of events coming off of the node. Some events are not transformable to legacy format. Please consult the documentation for details. This endpoint is deprecated and will be removed in a future release. Please migrate to the /events endpoint instead."

pub record ServerSentEvent (c : Casper) : Type 0 where
  pub id : Option ℕ
  pub sse_data : Option (SseData c)
  pub comment : Option String
  pub inbound_filter : Option Filter

pub data BroadcastChannelMessage (c : Casper) : Type 0 where
  server_sent_event : ServerSentEvent c → BroadcastChannelMessage c
  shutdown : BroadcastChannelMessage c

-- `tokio::sync::broadcast::error::RecvError`
pub data RecvError : Type 0 where
  closed : RecvError
  lagged : (amount : ℕ) → RecvError

module _ {c : Casper} where
  unfoldable pub initial_event : c.ProtocolVersion → ServerSentEvent c
  initial_event client_api_version = record {
    id = none;
    sse_data = some (api_version client_api_version);
    comment = none;
    inbound_filter = none;
  }

  unfoldable pub legacy_comment_event : ServerSentEvent c
  legacy_comment_event = record {
    id = none;
    sse_data = none;
    comment = some legacy_endpoint_notice;
    inbound_filter = none;
  }

  -- `matches!(data, SseData::ApiVersion { .. })`
  abbrev pub is_api_version : SseData c → Bool
  is_api_version (api_version _) = true
  is_api_version _ = false
