-- ===== src/EventStream/Tests.antt =====
-- The theorems on event_sidecar/src/event_stream_server at concrete events and requests.
use casper_sidecar.Prelude.{
  ◌==◌, if◌then◌else◌, ==_iff, All, ℕ, ◌+◌, ◌%◌, ◌^◌, ◌≤◌, ◌<◌, String, ◌≡◌, refl, ◌≢◌, true, false,
  none, some, List, [], ◌∷◌, ◌++◌, arith,
}
use casper_sidecar.Prelude.Result.{ok}
use casper_sidecar.Types.SseData.{SseData, should_include}
use casper_sidecar.Types.Tests.{plain}
use casper_sidecar.EventStream.Event.{Endpoint, events_filter, ServerSentEvent}
use casper_sidecar.EventStream.Outbound.{Wire, filter_map_server_sent_event}
use casper_sidecar.EventStream.Outbound.Laws.{from_input, rendered, numbered, filter_map_lem}
use casper_sidecar.EventStream.Subscribe.{serve_sse_response_handler}
use casper_sidecar.EventStream.Subscribe.Laws.{Answer, serve_sse_response_handler-Answer}
use casper_sidecar.EventStream.Stream.{has_id, filter_map, insert_ids, map_result, stream_to_client}
use casper_sidecar.EventStream.Stream.Laws.{delivered, oks, stream_to_client-once}
use casper_sidecar.EventStream.Replay.{
  WheelBuf, NewSubscriberInfo, Item, requested, send_items, register_new_subscriber,
}
use casper_sidecar.EventStream.Replay.Laws.{
  attribute, send_items_lem, notice, StartsWithVersion, register_new_subscriber-version,
}
use casper_sidecar.EventStream.Replay.Laws.Range.{requested-drop_first}
use casper_sidecar.EventStream.Indexer.{EventIndexer, new, drop}
use casper_sidecar.EventStream.Indexer.Laws.{next_indices, consecutive, restart_lem}
use casper_sidecar.EventStream.Server.{
  get_broadcast_channel_size, broadcast, HttpServer, handle_incoming_data,
}
use casper_sidecar.EventStream.Server.Laws.{
  keep_last, get_broadcast_channel_size-ge, InputFits, Replayable, broadcast-InputFits,
  handle_incoming_data-Replayable,
}

abbrev faulty : SseData plain
faulty = SseData.fault 3 7 99

abbrev event : ℕ → ServerSentEvent plain
event i = record { id = some i; sse_data = some faulty; comment = none; inbound_filter = none }

-- Events on the wire are texts.
abbrev wire : Wire plain
wire = record {
  Event = String;
  Json = String;
  default = "";
  json_data = λ d e. some "data";
  json_legacy = λ d e. some "legacy";
  to_value = λ d. "json";
  json_value = λ v e. some v;
  set_id = λ id e. id;
  set_comment = λ text e. text;
}

stream_to_client-once_example :
    stream_to_client wire
      (event 4 ∷ event 5 ∷ [])
      (delivered (event 5 ∷ event 6 ∷ []))
      Endpoint.events
      events_filter
      false
    ≡ filter_map
        (map_result wire Endpoint.events events_filter false)
        (oks (event 4 ∷ event 5 ∷ event 6 ∷ []))
unfolding insert_ids has_id
stream_to_client-once_example =
    stream_to_client-once wire (event 4 ∷ []) (event 5 ∷ []) (event 6 ∷ []) Endpoint.events
      events_filter false ((5, refl), tt) (refl, tt)

faulty_not_shutdown : faulty ≢ SseData.shutdown
faulty_not_shutdown e = cc

filter_map_lem_example :
    filter_map_server_sent_event wire
      (from_input (some 4) faulty none)
      Endpoint.events
      events_filter
      false
    ≡ (if should_include faulty events_filter
        then numbered wire 4 (rendered wire false faulty)
        else none)
filter_map_lem_example =
    filter_map_lem wire 4 faulty none Endpoint.events events_filter false refl faulty_not_shutdown

serve_sse_response_handler-Answer_example :
    Answer
      (λ text. some 12)
      (some "main")
      (("start_from", "12") ∷ [])
      3
      100
      true
      (serve_sse_response_handler
        (λ text. some 12)
        (some "main")
        (("start_from", "12") ∷ [])
        3
        100
        true)
serve_sse_response_handler-Answer_example =
    serve_sse_response_handler-Answer (λ text. some 12) (some "main") (("start_from", "12") ∷ []) 3
      100 true

-- A buffer whose ids wrap round.
abbrev items : List (Item plain)
items = (2, event 4294967294) ∷ (2, event 4294967295) ∷ (2, event 0) ∷ (2, event 1) ∷ []

requested-drop_first_example :
    requested 5 ((4294967294 + 2) % 2 ^ 32) items ≡ (2, event 0) ∷ (2, event 1) ∷ []
requested-drop_first_example =
    requested-drop_first 4294967294 5 2 items (refl, (refl, (refl, (refl, tt)))) (omega arith)
      (omega arith) (omega arith) (omega arith)

==-sound : (v w : ℕ) → (v == w) ≡ true → v ≡ w
==-sound v w h = (==_iff v w).0 h

send_items_lem_example :
    attribute none (send_items {c = plain} (λ v w. v == w) none ((1, event 8) ∷ (2, event 9) ∷ []))
    ≡ (some 1, event 8) ∷ (some 2, event 9) ∷ []
send_items_lem_example =
    send_items_lem (λ v w. v == w) ==-sound none ((1, event 8) ∷ (2, event 9) ∷ [])
      (refl, (refl, tt))

restart_lem_example :
    (restarted : EventIndexer) × (new (
        drop
          (next_indices 2 (record { index = 4294967295 })).1
          (record { can_create_dir = true; cached = none; can_write = true }))
      ≡ ok restarted)
    × ((next_indices 2 (record { index = 4294967295 })).0 ++ (next_indices 3 restarted).0
        ≡ consecutive 4294967295 (2 + 3))
restart_lem_example =
    restart_lem 2 3 (record { index = 4294967295 })
      (record { can_create_dir = true; cached = none; can_write = true }) (omega arith) refl refl

-- A wheel of two items.
abbrev wheel : WheelBuf (Item plain)
wheel = record {
  Buf = List (Item plain);
  new = λ xs. [];
  capacity = λ buf. 2;
  iter = λ buf. buf;
  push = λ item buf. keep_last 2 (buf ++ item ∷ []);
}

abbrev server : HttpServer wheel
server = record {
  latest_protocol_version = some 2;
  buffer = (2, event 8) ∷ (2, event 9) ∷ [];
  broadcaster = [];
}

handle_incoming_data-Replayable_example :
    (later : HttpServer wheel) × (handle_incoming_data wheel (some (some 10, faulty, none)) server
      ≡ some later)
    × All Replayable (wheel.iter later.buffer)
handle_incoming_data-Replayable_example =
    handle_incoming_data-Replayable wheel (λ item buf. refl) (some 10, faulty, none) server refl
      ((8, faulty, refl, refl, refl), ((9, faulty, refl, refl, refl), tt))

broadcast-InputFits_example :
    All InputFits
      (broadcast faulty none
        (record { sse_data_sender = []; event_indexer = record { index = 4 } })).sse_data_sender
broadcast-InputFits_example =
    broadcast-InputFits faulty none
      (record { sse_data_sender = []; event_indexer = record { index = 4 } }) tt

get_broadcast_channel_size-ge_example :
    (5000 ≤ get_broadcast_channel_size 5000) × (5 ≤ 5000 → 5000 < get_broadcast_channel_size 5000)
get_broadcast_channel_size-ge_example = get_broadcast_channel_size-ge 5000 (omega arith)

-- The product wraps round for a buffer this long.
channel_size_wraps : get_broadcast_channel_size 35791395 ≡ 1
unfolding get_broadcast_channel_size
channel_size_wraps = refl

abbrev subscriber : NewSubscriberInfo
subscriber = record { start_from = some 0; enable_legacy_filters = true }

register_new_subscriber-version_example :
    (rest : List (ServerSentEvent plain)) × (register_new_subscriber
        (λ v w. v == w)
        subscriber
        5
        items
        (some 2)
      ≡ notice subscriber ++ rest)
    × StartsWithVersion rest
register_new_subscriber-version_example =
    register_new_subscriber-version (λ v w. v == w) subscriber 5 items 2
