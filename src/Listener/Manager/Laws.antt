-- ===== src/Listener/Manager/Laws.antt =====
-- What a connection of listener/src/connection_manager.rs passes on, and how it ends.
use mathlib.Core.List.{append-nil, append_assoc}
use casper_sidecar.Prelude.{
  if_both, All, ℕ, String, ◌≡◌, refl, sym, ap, ◌∙◌, ◌⊎◌, inl, inr, Bool, true, false, Option, none,
  some, List, [], ◌∷◌, ◌++◌,
}
use casper_sidecar.Types.Casper.{Casper}
use casper_sidecar.Handling.Service.{SseEvent}
use casper_sidecar.Listener.Manager.{
  Event, ConnectionManagerError, non_recoverable_error, EventStream, Environment,
  DefaultConnectionManager, sending_failed, sse_event, send_event, id_or_zero, with_version,
  handle_data, handle_event, observe_id, observed, handle_item, after_item, handle_stream,
  try_handle_api_version_message, consume_api_version, connect, handle_connected, start_handling,
}
use casper_sidecar.Types.SseData.{SseData, api_version}
use casper_sidecar.Prelude.Result.{Result, ok, err, ◌>>=◌}

module _ {c : Casper} (env : Environment c) where
  abbrev pub IsUnder : c.ProtocolVersion → SseEvent c → Type 0
  IsUnder v event = event.api_version_of ≡ env.version_to_string v

  All-append :
      (v : c.ProtocolVersion) (l k : List (SseEvent c))
      → All (IsUnder v) l
      → All (IsUnder v) k
      → All (IsUnder v) (l ++ k)
  All-append v [] k hl hk = hk
  All-append v (x ∷ l) k (h, hl) hk = (h, All-append v l k hl hk)

  -- What was sent from one state to a later one, all of it under the version of both.
  pub record Extends (v : c.ProtocolVersion) (m later : DefaultConnectionManager c) : Type 0 where
    pub version_kept : later.api_version_seen ≡ some v
    pub added : List (SseEvent c)
    pub sent : later.sse_event_sender ≡ m.sse_event_sender ++ added
    pub under : All (IsUnder v) added

  Extends-same :
      (v : c.ProtocolVersion) (m later : DefaultConnectionManager c)
      → later.api_version_seen ≡ some v
      → later.sse_event_sender ≡ m.sse_event_sender
      → Extends v m later
  Extends-same v m later h e = record {
    version_kept = h;
    added = [];
    sent = e ∙ sym (append-nil _);
    under = tt;
  }

  Extends-trans :
      (v : c.ProtocolVersion) (m n later : DefaultConnectionManager c)
      → Extends v m n
      → Extends v n later
      → Extends v m later
  Extends-trans v m n later a b = record {
    version_kept = b.version_kept;
    added = a.added ++ b.added;
    sent = b.sent ∙ ap (λ l. l ++ b.added) a.sent ∙ append_assoc m.sse_event_sender a.added b.added;
    under = All-append v a.added b.added a.under b.under;
  }

  send_event-Extends :
      (v : c.ProtocolVersion) (event : SseEvent c) (reason : ConnectionManagerError)
      (m : DefaultConnectionManager c)
      → m.api_version_seen ≡ some v
      → IsUnder v event
      → Extends v m (send_event env event reason m).1
  unfolding send_event
  send_event-Extends v event reason m h u =
      if_both
        (λ (r : Result (Unit {0}) ConnectionManagerError × DefaultConnectionManager c).
          Extends v m r.1)
        (env.is_open m.sse_event_sender)
        (record { version_kept = h; added = event ∷ []; sent = refl; under = (u, tt) })
        (Extends-same v m m h refl)

  with_version-Extends :
      (v : c.ProtocolVersion) (event : Event) (d : SseData c) (seen : Option c.ProtocolVersion)
      (m : DefaultConnectionManager c)
      → m.api_version_seen ≡ some v
      → seen ≡ some v
      → Extends v m (with_version env event d seen m).1
  unfolding with_version
  with_version-Extends v event d none m h e = cc
  with_version-Extends v event d (some w) m h e =
      let same : w ≡ v = cc in
      send_event-Extends v (sse_event env (id_or_zero env (env.parse_u32 event.id)) d w)
        (non_recoverable_error (sending_failed env)) m h
        (unfold sse_event in ap env.version_to_string same)

  handle_data-Extends :
      (v : c.ProtocolVersion) (event : Event) (d : Result (SseData c) String)
      (m : DefaultConnectionManager c)
      → m.api_version_seen ≡ some v
      → Extends v m (handle_data env event d m).1
  unfolding handle_data
  handle_data-Extends v event (err e) m h = Extends-same v m m h refl
  handle_data-Extends v event (ok d) m h = with_version-Extends v event d m.api_version_seen m h h

  observe_id-Extends :
      (v : c.ProtocolVersion) (id : Result ℕ String) (m : DefaultConnectionManager c)
      → m.api_version_seen ≡ some v
      → Extends v m (observe_id env id m).1
  unfolding observe_id
  observe_id-Extends v (err e) m h = Extends-same v m m h refl
  observe_id-Extends v (ok id) m h =
      if_both
        (λ (r : Result (Unit {0}) ConnectionManagerError × DefaultConnectionManager c).
          Extends v m r.1)
        (env.is_observed m.current_event_id_sender) (Extends-same v m _ h refl)
        (Extends-same v m _ h refl)

  observed-Extends :
      (v : c.ProtocolVersion) (event : Event) (m : DefaultConnectionManager c)
      (r : Result (Unit {0}) ConnectionManagerError × DefaultConnectionManager c)
      → Extends v m r.1
      → Extends v m (observed env event r).1
  unfolding observed handle_event
  observed-Extends v event m (ok u, n) e =
      Extends-trans v m n (handle_event env event n).1 e
        (handle_data-Extends v event (env.deserialize event.event_data) n e.version_kept)
  observed-Extends v event m (err x, n) e = e

  handle_item-Extends :
      (v : c.ProtocolVersion) (event : Event) (m : DefaultConnectionManager c)
      → m.api_version_seen ≡ some v
      → Extends v m (handle_item env event m).1
  unfolding handle_item
  handle_item-Extends v event m h =
      observed-Extends v event m (observe_id env (env.parse_u32 event.id) m)
        (observe_id-Extends v (env.parse_u32 event.id) m h)

  after_item-Extends :
      (v : c.ProtocolVersion) (m : DefaultConnectionManager c) (rest : EventStream)
      (r : Result (Unit {0}) ConnectionManagerError × DefaultConnectionManager c)
      → Extends v m r.1
      → ((n : DefaultConnectionManager c)
          → n.api_version_seen ≡ some v
          → Extends v n (handle_stream env rest n).1)
      → Extends v m (after_item env (handle_stream env rest) r).1
  after_item-Extends v m rest (ok u, n) e go =
      Extends-trans v m n (handle_stream env rest n).1 e (go n e.version_kept)
  after_item-Extends v m rest (err x, n) e go = e

  handle_stream-Extends :
      (v : c.ProtocolVersion) (stream : EventStream) (m : DefaultConnectionManager c)
      → m.api_version_seen ≡ some v
      → Extends v m (handle_stream env stream m).1
  unfolding handle_stream
  handle_stream-Extends v [] m h = Extends-same v m m h refl
  handle_stream-Extends v (err e ∷ rest) m h = Extends-same v m m h refl
  handle_stream-Extends v (ok event ∷ rest) m h =
      after_item-Extends v m rest (handle_item env event m) (handle_item-Extends v event m h)
        (λ n k. handle_stream-Extends v rest n k)

  after_item-fails :
      (next : DefaultConnectionManager c
        → Result (Unit {0}) ConnectionManagerError × DefaultConnectionManager c)
      (r : Result (Unit {0}) ConnectionManagerError × DefaultConnectionManager c)
      → ((n : DefaultConnectionManager c) → (e : ConnectionManagerError) × ((next n).0 ≡ err e))
      → (e : ConnectionManagerError) × ((after_item env next r).0 ≡ err e)
  after_item-fails next (ok u, n) go = go n
  after_item-fails next (err e, n) go = (e, refl)

  handle_stream-fails :
      (stream : EventStream) (m : DefaultConnectionManager c)
      → (e : ConnectionManagerError) × ((handle_stream env stream m).0 ≡ err e)
  unfolding handle_stream
  handle_stream-fails [] m = (_, refl)
  handle_stream-fails (err e ∷ rest) m = (_, refl)
  handle_stream-fails (ok event ∷ rest) m =
      after_item-fails (handle_stream env rest) (handle_item env event m)
        (λ n. handle_stream-fails rest n)

  -- Does a stream begin with the `ApiVersion` of this version?
  abbrev pub BeginsWith : c.ProtocolVersion → Result EventStream ConnectionManagerError → Type 0
  BeginsWith v stream =
      (event : Event) × (rest : EventStream) × (stream ≡ ok (ok event ∷ rest))
      × (env.deserialize event.event_data ≡ ok (api_version v))

  -- What was sent from one state to a later one: nothing, or the `ApiVersion` that the stream began
  -- with and then only events under that version, of which there are none if another connection
  -- failed.
  abbrev pub Sends :
      (stream : Result EventStream ConnectionManagerError) (tasks : Option Bool)
      (m later : DefaultConnectionManager c)
      → Type 0
  Sends stream tasks m later =
      (later.sse_event_sender ≡ m.sse_event_sender)
      ⊎ ((v : c.ProtocolVersion) × BeginsWith v stream
          × (l : List (SseEvent c)) × (later.sse_event_sender
              ≡ m.sse_event_sender ++ sse_event env 0 (api_version v) v ∷ l)
          × All (IsUnder v) l
          × (tasks ≡ some false → l ≡ []))

  -- The handshake sends nothing, or succeeds and has sent the ApiVersion that the stream began with,
  -- which is then the version of the connection.
  abbrev Greets :
      (stream : Result EventStream ConnectionManagerError) (m : DefaultConnectionManager c)
      (r : Result EventStream ConnectionManagerError × DefaultConnectionManager c)
      → Type 0
  Greets stream m (err e, n) = n.sse_event_sender ≡ m.sse_event_sender
  Greets stream m (ok receiver, n) =
      (v : c.ProtocolVersion) × BeginsWith v stream
      × (n.api_version_seen ≡ some v)
      × (n.sse_event_sender ≡ m.sse_event_sender ++ sse_event env 0 (api_version v) v ∷ [])

  message-Greets :
      (event : Event) (receiver : EventStream) (d : Result (SseData c) String)
      (m : DefaultConnectionManager c)
      → env.deserialize event.event_data ≡ d
      → Greets (ok (ok event ∷ receiver)) m (try_handle_api_version_message env event receiver d m)
  unfolding try_handle_api_version_message send_event
  message-Greets event receiver (ok (api_version v)) m h =
      if_both
        (λ (r : Result (Unit {0}) ConnectionManagerError × DefaultConnectionManager c).
          Greets (ok (ok event ∷ receiver)) m (r.0 >>= λ _. ok receiver, r.1))
        (env.is_open m.sse_event_sender) (v, (event, receiver, refl, h), refl, refl) refl
  message-Greets event receiver (ok _) m h = refl
  message-Greets event receiver (err e) m h = refl

  connect-Greets :
      (x : Result EventStream ConnectionManagerError) (m : DefaultConnectionManager c)
      → Greets x m (connect env x m)
  unfolding connect consume_api_version
  connect-Greets (err e) m = refl
  connect-Greets (ok []) m = refl
  connect-Greets (ok (err e ∷ rest)) m = refl
  connect-Greets (ok (ok event ∷ rest)) m =
      if_both (Greets (ok (ok event ∷ rest)) m) (env.contains event.event_data "ApiVersion")
        (message-Greets event rest (env.deserialize event.event_data) m refl) refl

  greeted :
      (stream : Result EventStream ConnectionManagerError) (tasks : Option Bool)
      (v : c.ProtocolVersion) (m n later : DefaultConnectionManager c)
      → BeginsWith v stream
      → n.sse_event_sender ≡ m.sse_event_sender ++ sse_event env 0 (api_version v) v ∷ []
      → (e : Extends v n later) → (tasks ≡ some false → e.added ≡ [])
      → Sends stream tasks m later
  greeted stream tasks v m n later begins g e none_added = inr (
    v,
    begins,
    e.added,
    e.sent
        ∙ ap (λ l. l ++ e.added) g
        ∙ append_assoc m.sse_event_sender (sse_event env 0 (api_version v) v ∷ []) e.added,
    e.under,
    none_added,
  )

  handle_connected-Sends :
      (stream : Result EventStream ConnectionManagerError) (tasks : Option Bool)
      (m : DefaultConnectionManager c)
      (r : Result EventStream ConnectionManagerError × DefaultConnectionManager c)
      → Greets stream m r
      → Sends stream tasks m (handle_connected env tasks r).2
  unfolding handle_connected Extends-same
  handle_connected-Sends stream tasks m (err e, n) g = inl g
  handle_connected-Sends stream (some false) m (ok receiver, n) (v, begins, seen, g) =
      greeted stream (some false) v m n n begins g (Extends-same v n n seen refl) (λ _. refl)
  handle_connected-Sends stream none m (ok receiver, n) (v, begins, seen, g) =
      greeted stream none v m n (handle_stream env receiver n).1 begins g
        (handle_stream-Extends v receiver n seen) (λ h. cc)
  handle_connected-Sends stream (some true) m (ok receiver, n) (v, begins, seen, g) =
      greeted stream (some true) v m n (handle_stream env receiver n).1 begins g
        (handle_stream-Extends v receiver n seen) (λ h. cc)

  handle_connected-fails :
      (tasks : Option Bool)
      (r : Result EventStream ConnectionManagerError × DefaultConnectionManager c)
      → (e : ConnectionManagerError) × ((handle_connected env tasks r).1 ≡ err e)
  unfolding handle_connected Extends-same
  handle_connected-fails tasks (err e, n) = (_, refl)
  handle_connected-fails (some false) (ok receiver, n) = (_, refl)
  handle_connected-fails none (ok receiver, n) = handle_stream-fails receiver n
  handle_connected-fails (some true) (ok receiver, n) = handle_stream-fails receiver n

  -- A connection always ends with an error. By then it has sent nothing, or the ApiVersion that the
  -- stream began with, under the id 0, and after it only events that are marked with the text of
  -- that version; and no more than the ApiVersion if the other connections did not all succeed.
  pub start_handling-Sends :
      (connector : Option ℕ → Result EventStream ConnectionManagerError) (tasks : Option Bool)
      (m : DefaultConnectionManager c)
      → ((e : ConnectionManagerError) × ((start_handling env connector tasks m).1 ≡ err e))
        × Sends (connector m.current_event_id) tasks m (start_handling env connector tasks m).2
  unfolding start_handling
  start_handling-Sends connector tasks m =
      let greeting = connect env (connector m.current_event_id) m in
      (
        handle_connected-fails tasks greeting,
        handle_connected-Sends (connector m.current_event_id) tasks m greeting
            (connect-Greets (connector m.current_event_id) m),
      )
