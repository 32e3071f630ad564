-- ===== src/Listener/Manager.antt =====
-- `DefaultConnectionManager` of listener/src/connection_manager.rs: one connection to an event stream of a node.
pub mod Forwards
pub mod Laws
use casper_sidecar.Prelude.{
  if◌then◌else◌, ℕ, String, Bool, false, Option, none, some, List, [], ◌∷◌, ◌++◌,
}
use casper_sidecar.Prelude.Result.{Result, ok, err, ◌>>=◌}
use casper_sidecar.Types.Casper.{Casper}
use casper_sidecar.Types.SseData.{Filter, SseData, api_version}
use casper_sidecar.Handling.Service.{SseEvent}
use casper_sidecar.Prelude.Text.{format}

-- `eventsource_stream::Event`, as far as it is used.
pub record Event : Type 0 where
  pub id : String
  pub event_data : String

-- An error is its text.
pub data ConnectionManagerError : Type 0 where
  non_recoverable_error initial_connection_error : (error : String) → ConnectionManagerError

-- What a stream yields, with the text of an error, until it ends.
abbrev pub EventStream : Type 0
EventStream = List (Result Event String)

-- What the manager takes from libraries and from its configuration. `is_open` is whether the
-- receiver of events is still there once these were sent, `is_observed` the same for the ids.
pub record Environment (c : Casper) : Type 0 where
  pub contains : (text pattern : String) → Bool
  pub parse_u32 : String → Result ℕ String
  pub deserialize : String → Result (SseData c) String
  pub version_to_string : c.ProtocolVersion → String
  pub quoted : String → String
  pub is_open : List (SseEvent c) → Bool
  pub is_observed : List ℕ → Bool
  pub bind_address : String
  pub without_path : String → String
  pub send_error : String
  pub filter : Filter
  pub filter_to_string : Filter → String
  pub network_name : String

-- What changes, and what was sent to the two channels.
pub record DefaultConnectionManager (c : Casper) : Type 0 where
  pub current_event_id : Option ℕ
  pub api_version_seen : Option c.ProtocolVersion
  pub sse_event_sender : List (SseEvent c)
  pub current_event_id_sender : List ℕ

module _ {c : Casper} (env : Environment c) where
  abbrev pub Manager : Type 0
  Manager = DefaultConnectionManager c

  abbrev pub sending_failed : String
  sending_failed = "Error when trying to send message in ConnectionManager#handle_event"

  unfoldable pub sse_event : (id : ℕ) → SseData c → c.ProtocolVersion → SseEvent c
  sse_event id d version = record {
    id = id;
    sse_data = d;
    source = env.without_path env.bind_address;
    inbound_filter = env.filter;
    api_version_of = env.version_to_string version;
    network_name = env.network_name;
  }

  -- Sends one event; if nobody listens any more, it is an error.
  send_event :
      SseEvent c
      → (reason : ConnectionManagerError) → Manager
      → Result (Unit {0}) ConnectionManagerError × Manager
  send_event event reason m =
      if env.is_open m.sse_event_sender
      then (ok tt, record m { sse_event_sender = m.sse_event_sender ++ event ∷ [] })
      else (err reason, m)

  -- The id is 0 where the event has none.
  abbrev pub id_or_zero : Result ℕ String → ℕ
  id_or_zero (ok id) = id
  id_or_zero (err _) = 0

  with_version :
      Event
      → SseData c
      → Option c.ProtocolVersion
      → Manager
      → Result (Unit {0}) ConnectionManagerError × Manager
  unfolding send_event sse_event
  with_version event d none m =
      (err (non_recoverable_error "Expected ApiVersion to be present when handling messages."), m)
  with_version event d (some version) m =
      send_event (sse_event (id_or_zero (env.parse_u32 event.id)) d version)
        (non_recoverable_error sending_failed) m

  -- The `match` on the event that was read.
  handle_data :
      Event
      → Result (SseData c) String
      → Manager
      → Result (Unit {0}) ConnectionManagerError × Manager
  unfolding with_version format
  handle_data event (err serde_error) m =
      (err (non_recoverable_error (format ("Serde Error: " ∷ serde_error ∷ []))), m)
  handle_data event (ok d) m = with_version event d m.api_version_seen m

  -- The errors are those that `handle_stream` makes of it.
  unfoldable pub handle_event : Event → Manager → Result (Unit {0}) ConnectionManagerError × Manager
  unfolding handle_data
  handle_event event m = handle_data event (env.deserialize event.event_data) m

  -- Reports the id of an event; one without an id is only logged.
  unfoldable pub observe_id :
      Result ℕ String → Manager → Result (Unit {0}) ConnectionManagerError × Manager
  unfolding format
  observe_id (err _) m = (ok tt, m)
  observe_id (ok id) m =
      let seen = record m { current_event_id = some id } in
      if env.is_observed m.current_event_id_sender
      then (ok tt, record seen { current_event_id_sender = m.current_event_id_sender ++ id ∷ [] })
      else (
        err (
            non_recoverable_error
              (format ("Error when trying to report observed event id " ∷ env.send_error ∷ []))),
        seen,
      )

  observed :
      Event
      → Result (Unit {0}) ConnectionManagerError × Manager
      → Result (Unit {0}) ConnectionManagerError × Manager
  unfolding handle_event
  observed event (ok _, m) = handle_event event m
  observed event (err e, m) = (err e, m)

  -- One turn of the loop of `handle_stream`, for an event.
  unfoldable pub handle_item : Event → Manager → Result (Unit {0}) ConnectionManagerError × Manager
  unfolding observed observe_id
  handle_item event m = observed event (observe_id (env.parse_u32 event.id) m)

  abbrev pub event_stream_closed : ConnectionManagerError
  event_stream_closed =
      non_recoverable_error
        (format ("Event stream closed for filter: " ∷ env.quoted env.bind_address ∷ []))

  -- The loop goes on after an event that was handled.
  abbrev pub after_item :
      (Manager → Result (Unit {0}) ConnectionManagerError × Manager)
      → Result (Unit {0}) ConnectionManagerError × Manager
      → Result (Unit {0}) ConnectionManagerError × Manager
  after_item next (ok _, m) = next m
  after_item next (err e, m) = (err e, m)

  unfoldable pub handle_stream :
      EventStream → Manager → Result (Unit {0}) ConnectionManagerError × Manager
  unfolding handle_item format
  handle_stream [] m = (err event_stream_closed, m)
  handle_stream (err stream_error ∷ rest) m = (
    err (
        non_recoverable_error (
          format
            ("EventStream Error (" ∷ env.filter_to_string env.filter ∷ "): " ∷ stream_error ∷ []))),
    m,
  )
  handle_stream (ok event ∷ rest) m = after_item (handle_stream rest) (handle_item event m)

  -- The `match` on the first event, once it has been read.
  try_handle_api_version_message :
      (event : Event)
      → EventStream
      → Result (SseData c) String
      → Manager
      → Result EventStream ConnectionManagerError × Manager
  unfolding send_event sse_event format
  try_handle_api_version_message event receiver (ok (api_version semver)) m =
      let (sent, later) =
        send_event (sse_event 0 (api_version semver) semver) (non_recoverable_error sending_failed)
          (record m { api_version_seen = some semver }) in
      (sent >>= λ _. ok receiver, later)
  try_handle_api_version_message event receiver (ok _) m = (
    err (non_recoverable_error "When trying to deserialize ApiVersion got other type of message"),
    m,
  )
  try_handle_api_version_message event receiver (err x) m = (
    err (
        non_recoverable_error (
          format (
            "Error when trying to deserialize ApiVersion " ∷ x ∷ ". Raw data of event: "
            ∷ event.event_data ∷ []))),
    m,
  )

  unfoldable pub consume_api_version :
      EventStream → Manager → Result EventStream ConnectionManagerError × Manager
  unfolding try_handle_api_version_message format
  consume_api_version [] m = (err (initial_connection_error "First event was empty"), m)
  consume_api_version (err error ∷ rest) m =
      (err (non_recoverable_error (format ("failed to get first event: " ∷ error ∷ []))), m)
  consume_api_version (ok event ∷ rest) m =
      if env.contains event.event_data "ApiVersion"
      then try_handle_api_version_message event rest (env.deserialize event.event_data) m
      else (
        err (
            non_recoverable_error (
              format (
                "Expected first message to be ApiVersion, got: "
                ∷ env.quoted event.event_data
                ∷ []))),
        m,
      )

  -- What the connector gives is the last argument but one.
  connect :
      Result EventStream ConnectionManagerError
      → Manager
      → Result EventStream ConnectionManagerError × Manager
  unfolding consume_api_version
  connect (ok event_tx) m = consume_api_version event_tx m
  connect (err e) m = (err e, m)

  -- Which of `register_success` and `register_failure` a run calls; `tasks` is what `wait` then
  -- gives, or none if there is nothing to wait for.
  pub data Registered : Type 0 where
    registered_success registered_failure : Registered

  handle_connected :
      (tasks : Option Bool)
      → Result EventStream ConnectionManagerError × Manager
      → Registered × Result (Unit {0}) ConnectionManagerError × Manager
  unfolding handle_stream format
  handle_connected tasks (err error, m) = (registered_failure, err error, m)
  handle_connected (some false) (ok receiver, m) = (
    registered_success,
    err (
        non_recoverable_error (
          format
            ("Failed to connect to all filters. Disconnecting from " ∷ env.bind_address ∷ []))),
    m,
  )
  handle_connected _ (ok receiver, m) =
      let (r, later) = handle_stream receiver m in (registered_success, r, later)

  unfoldable pub start_handling :
      (connector : Option ℕ → Result EventStream ConnectionManagerError) (tasks : Option Bool)
      → Manager
      → Registered × Result (Unit {0}) ConnectionManagerError × Manager
  unfolding handle_connected connect
  start_handling connector tasks m =
      handle_connected tasks (connect (connector m.current_event_id) m)
