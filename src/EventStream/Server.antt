-- ===== src/EventStream/Server.antt =====
-- event_sidecar/src/event_stream_server.rs and the loop of event_stream_server/http_server.rs: from the events
-- that the sidecar broadcasts to the buffer and to the channel that clients listen to.
pub mod Laws
use casper_sidecar.Prelude.{
  if◌then◌else◌, ℕ, ◌+◌, ◌*◌, ◌/◌, ◌%◌, ◌^◌, Option, none, some, List, [], ◌∷◌, ◌++◌,
}
use casper_sidecar.Types.Casper.{Casper}
use casper_sidecar.Types.SseData.{Filter, SseData, api_version}
use casper_sidecar.EventStream.Event.{
  ServerSentEvent, BroadcastChannelMessage, server_sent_event, initial_event, is_api_version,
}
use casper_sidecar.EventStream.Replay.{WheelBuf, repeat, Item}
use casper_sidecar.EventStream.Indexer.{EventIndexer, new, next_index}

abbrev pub additional_percent_for_broadcast_channel_size : ℕ
additional_percent_for_broadcast_channel_size = 20

-- The products are of 32 bits.
unfoldable pub get_broadcast_channel_size : (event_stream_buffer_length : ℕ) → ℕ
get_broadcast_channel_size event_stream_buffer_length =
    event_stream_buffer_length
    * (100 + additional_percent_for_broadcast_channel_size)
    % 2 ^ 32
    / 100

-- The messages of the channel between them.
abbrev pub InboundData : Casper → Type 0
InboundData c = Option ℕ × SseData c × Option Filter

-- `EventStreamServer`, with what it has sent and not yet been received.
pub record EventStreamServer (c : Casper) : Type 0 where
  pub sse_data_sender : List (InboundData c)
  pub event_indexer : EventIndexer

module _ {c : Casper} where
  unfoldable pub broadcast :
      SseData c → (inbound_filter : Option Filter) → EventStreamServer c → EventStreamServer c
  unfolding next_index
  broadcast d inbound_filter server =
      let (index, indexer) = next_index server.event_indexer in
      if is_api_version d
      then record {
        sse_data_sender = server.sse_data_sender ++ (none, d, inbound_filter) ∷ [];
        event_indexer = server.event_indexer;
      }
      else record {
        sse_data_sender = server.sse_data_sender ++ (some index, d, inbound_filter) ∷ [];
        event_indexer = indexer;
      }

  module _ (wheel : WheelBuf (Item c)) where
    -- The variables of the loop of `run`, and what was sent to the broadcast channel.
    pub record HttpServer : Type 0 where
      pub latest_protocol_version : Option c.ProtocolVersion
      pub buffer : wheel.Buf
      pub broadcaster : List (BroadcastChannelMessage c)

    -- `build_buffer`, with the zero version
    unfoldable pub build_buffer :
        (zero_version : c.ProtocolVersion) → (event_stream_buffer_length : ℕ) → wheel.Buf
    unfolding initial_event
    build_buffer zero_version event_stream_buffer_length =
        wheel.new (repeat (zero_version, initial_event zero_version) event_stream_buffer_length)

    abbrev pub push_if_version :
        Option c.ProtocolVersion → ServerSentEvent c → wheel.Buf → wheel.Buf
    push_if_version none event buffer = buffer
    push_if_version (some v) event buffer = wheel.push (v, event) buffer

    -- The `match data` of `handle_incoming_data`: the latest version and the buffer after it.
    unfoldable pub record_data :
        SseData c
        → ServerSentEvent c
        → Option c.ProtocolVersion
        → wheel.Buf
        → Option c.ProtocolVersion × wheel.Buf
    record_data (api_version v) event latest buffer = (some v, buffer)
    record_data _ event latest buffer = (latest, push_if_version latest event buffer)

    -- `none` is the error that ends the loop.
    unfoldable pub handle_incoming_data : Option (InboundData c) → HttpServer → Option HttpServer
    unfolding record_data
    handle_incoming_data none server = none
    handle_incoming_data (some (maybe_event_index, d, inbound_filter)) server =
        let event : ServerSentEvent c = record {
          id = maybe_event_index;
          sse_data = some d;
          comment = none;
          inbound_filter = inbound_filter;
        } in
        let (latest, buffer) = record_data d event server.latest_protocol_version server.buffer in
        some (record {
          latest_protocol_version = latest;
          buffer = buffer;
          broadcaster = server.broadcaster ++ server_sent_event event ∷ [];
        })
