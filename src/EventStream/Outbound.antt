-- ===== src/EventStream/Outbound.antt =====
-- From a broadcast event to what a client receives, in event_sidecar/src/event_stream_server/sse_server.rs.
-- The event builder of the `warp` crate is a parameter.
pub mod Laws
use mathlib.Core.Option
use casper_sidecar.Prelude.{
  if◌then◌else◌, String, Bool, true, false, not, Option, none, some, List, map,
}
use casper_sidecar.Prelude.Result.{Result, ok}
use casper_sidecar.Prelude.Decimal.{decimal}
use casper_sidecar.Types.Casper.{Casper}
use casper_sidecar.Types.SseData.{EventFilter, SseData, api_version, shutdown, should_include}
use casper_sidecar.Types.Legacy.{LegacySseData, legacy_from}
use casper_sidecar.EventStream.Event.{Endpoint, ServerSentEvent, RecvError, is_api_version}

-- `warp::sse::Event`: its builders, of which those of JSON can fail.
pub record Wire (c : Casper) : Type 1 where
  pub Event : Type 0
  pub Json : Type 0
  pub default : Event
  pub json_data : SseData c → Event → Option Event
  pub json_legacy : LegacySseData c → Event → Option Event
  pub to_value : SseData c → Json
  pub json_value : Json → Event → Option Event
  pub set_id : String → Event → Event
  pub set_comment : String → Event → Event

abbrev pub unwrap_or {ℓ} : {A : Type ℓ} → A → Option A → A
unwrap_or a none = a
unwrap_or a (some b) = b

module _ {c : Casper} where
  unfoldable pub should_skip_event :
      ServerSentEvent c → List EventFilter → (is_legacy_filter : Bool) → Bool
  unfolding should_include
  should_skip_event event event_filter is_legacy_filter =
      if not (elim event.sse_data [ none ↦ true | some d ↦ should_include d event_filter ])
      then true
      else (if not (elim event.comment [ none ↦ true | some _ ↦ is_legacy_filter ])
          then true
          else false)

  unfoldable pub should_send_shutdown : ServerSentEvent c → Endpoint → Bool
  should_send_shutdown event stream_filter = elim event.inbound_filter [
    | some _ ↦ true
    | none ↦ false
  ]

  unfoldable pub determine_id : ServerSentEvent c → SseData c → Option String
  unfolding decimal
  determine_id event d = elim event.id [
    | some id ↦ if is_api_version d then none else some (decimal id)
    | none ↦ if not (is_api_version d) then none else some ""
  ]

  module _ (wire : Wire c) where
    abbrev pub with_id : Option String → wire.Event → wire.Event
    with_id none event = event
    with_id (some id) event = wire.set_id id event

    unfoldable pub event_to_warp_event :
        SseData c
        → (is_legacy_filter : Bool) → (maybe_id : Option String)
        → Option (Result wire.Event RecvError)
    unfolding legacy_from
    event_to_warp_event d is_legacy_filter maybe_id =
        let maybe_event =
          if is_legacy_filter
          then Option.map (λ l. unwrap_or wire.default (wire.json_legacy l wire.default))
              (legacy_from d)
          else some (unwrap_or wire.default (wire.json_data d wire.default)) in
        Option.map (λ event. ok (with_id maybe_id event)) maybe_event

    unfoldable pub build_comment_event : String → Option (Result wire.Event RecvError)
    build_comment_event text = some (ok (wire.set_comment text wire.default))

    unfoldable pub build_event_for_outbound :
        SseData c → (id : String) → Result wire.Event RecvError
    build_event_for_outbound d id =
        ok
          (wire.set_id id (unwrap_or wire.default (wire.json_value (wire.to_value d) wire.default)))

    -- The `match data` of `filter_map_server_sent_event`.
    unfoldable pub map_data :
        ServerSentEvent c
        → Endpoint
        → (is_legacy_filter : Bool) → (id : String) → SseData c
        → Option (Result wire.Event RecvError)
    unfolding event_to_warp_event build_event_for_outbound should_send_shutdown
    map_data event stream_filter is_legacy_filter id (api_version v) =
        event_to_warp_event (api_version v) is_legacy_filter none
    map_data event stream_filter is_legacy_filter id SseData.shutdown =
        if should_send_shutdown event stream_filter
        then some (build_event_for_outbound SseData.shutdown id)
        else none
    map_data event stream_filter is_legacy_filter id d =
        event_to_warp_event d is_legacy_filter (some id)

    unfoldable pub filter_map_server_sent_event :
        ServerSentEvent c
        → Endpoint
        → List EventFilter
        → (is_legacy_filter : Bool) → Option (Result wire.Event RecvError)
    unfolding should_skip_event determine_id map_data build_comment_event
    filter_map_server_sent_event event stream_filter event_filter is_legacy_filter =
        if should_skip_event event event_filter is_legacy_filter
        then none
        else elim event.sse_data [
          | some d ↦ elim (determine_id event d) [
            | none ↦ none
            | some id ↦ map_data event stream_filter is_legacy_filter id d
          ]
          | none ↦ elim event.comment [ some text ↦ build_comment_event text | none ↦ none ]
        ]
