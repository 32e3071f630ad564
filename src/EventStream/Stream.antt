-- ===== src/EventStream/Stream.antt =====
-- `stream_to_client` of event_sidecar/src/event_stream_server/sse_server.rs: the initial events, then the ongoing ones.
-- A stream is the list of the items it yields; what the channels deliver are lists.
pub mod Laws
use casper_sidecar.Prelude.{
  ◌==◌, if◌then◌else◌, ℕ, Bool, true, false, not, ◌||◌, Option, none, some, List, [], ◌∷◌, ◌++◌,
  map,
}
use casper_sidecar.Prelude.Result.{Result, ok, err}
use casper_sidecar.Types.Casper.{Casper}
use casper_sidecar.Types.SseData.{EventFilter, shutdown}
use casper_sidecar.EventStream.Event.{
  Endpoint, ServerSentEvent, BroadcastChannelMessage, server_sent_event, RecvError, closed,
}
use casper_sidecar.EventStream.Outbound.{Wire, filter_map_server_sent_event}

-- `BroadcastStreamRecvError`
pub data BroadcastStreamRecvError : Type 0 where
  lagged : (amount : ℕ) → BroadcastStreamRecvError

-- The set of ids, as the list of its insertions.
unfoldable pub has_id : List ℕ → ℕ → Bool
has_id [] id = false
has_id (i ∷ ids) id = i == id || has_id ids id

-- `StreamExt::filter_map`
unfoldable pub filter_map {ℓ κ} : {A : Type ℓ} {B : Type κ} → (A → Option B) → List A → List B
filter_map f [] = []
filter_map f (x ∷ xs) = elim (f x) [ none ↦ filter_map f xs | some y ↦ y ∷ filter_map f xs ]

-- `StreamExt::take_while`
unfoldable pub take_while {ℓ} : {A : Type ℓ} → (A → Bool) → List A → List A
take_while p [] = []
take_while p (x ∷ xs) = let rest = take_while p xs in if p x then x ∷ rest else []

abbrev pub is_closed {ℓ} : {A : Type ℓ} → Result A RecvError → Bool
is_closed (err closed) = true
is_closed _ = false

module _ {c : Casper} where
  unfoldable pub handle_lagged : (amount : ℕ) → Result (ServerSentEvent c) RecvError
  handle_lagged amount = err (RecvError.lagged amount)

  unfoldable pub handle_sse_event :
      ServerSentEvent c → (initial_ids : List ℕ) → Option (Result (ServerSentEvent c) RecvError)
  unfolding has_id
  handle_sse_event event initial_ids = elim event.id [
    | none ↦ some (ok event)
    | some id ↦ if has_id initial_ids id then none else some (ok event)
  ]

  -- The closure that maps what the broadcast channel delivers.
  unfoldable pub map_broadcast :
      (initial_ids : List ℕ)
      → Result (BroadcastChannelMessage c) BroadcastStreamRecvError
      → Option (Result (ServerSentEvent c) RecvError)
  unfolding handle_sse_event handle_lagged
  map_broadcast initial_ids (ok (server_sent_event event)) = handle_sse_event event initial_ids
  map_broadcast initial_ids (ok BroadcastChannelMessage.shutdown) = some (err closed)
  map_broadcast initial_ids (err (BroadcastStreamRecvError.lagged amount)) =
      some (handle_lagged amount)

  unfoldable pub ongoing_stream :
      (initial_ids : List ℕ)
      → List (Result (BroadcastChannelMessage c) BroadcastStreamRecvError)
      → List (Result (ServerSentEvent c) RecvError)
  unfolding map_broadcast filter_map take_while
  ongoing_stream initial_ids ongoing_events =
      take_while (λ result. not (is_closed result))
        (filter_map (map_broadcast initial_ids) ongoing_events)

  -- The ids inserted into the shared set while the initial events are passed on.
  unfoldable pub insert_ids : List (ServerSentEvent c) → List ℕ
  insert_ids [] = []
  insert_ids (event ∷ rest) = elim event.id [
    | none ↦ insert_ids rest
    | some id ↦ id ∷ insert_ids rest
  ]

  -- The results before the last `filter_map`: the ongoing stream is polled only when the initial
  -- events are exhausted, so that every id is in the set by then.
  unfoldable pub chained :
      (initial_events : List (ServerSentEvent c))
      → (ongoing_events : List (Result (BroadcastChannelMessage c) BroadcastStreamRecvError))
      → List (Result (ServerSentEvent c) RecvError)
  unfolding ongoing_stream insert_ids
  chained initial_events ongoing_events =
      map (λ event. ok event) initial_events
      ++ ongoing_stream (insert_ids initial_events) ongoing_events

  module _ (wire : Wire c) where
    -- The closure of the last `filter_map`.
    unfoldable pub map_result :
        Endpoint
        → List EventFilter
        → (is_legacy_filter : Bool) → Result (ServerSentEvent c) RecvError
        → Option (Result wire.Event RecvError)
    unfolding filter_map_server_sent_event
    map_result stream_filter event_filter is_legacy_filter (ok event) =
        filter_map_server_sent_event wire event stream_filter event_filter is_legacy_filter
    map_result stream_filter event_filter is_legacy_filter (err e) = some (err e)

    -- `stream_to_client` with `build_combined_events_stream`
    unfoldable pub stream_to_client :
        (initial_events : List (ServerSentEvent c))
        → (ongoing_events : List (Result (BroadcastChannelMessage c) BroadcastStreamRecvError))
        → Endpoint
        → List EventFilter
        → (is_legacy_filter : Bool) → List (Result wire.Event RecvError)
    unfolding chained filter_map map_result
    stream_to_client initial_events ongoing_events stream_filter event_filter is_legacy_filter =
        filter_map (map_result stream_filter event_filter is_legacy_filter)
          (chained initial_events ongoing_events)
