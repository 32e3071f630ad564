-- ===== src/Listener/Manager/Forwards.antt =====
-- A connection of listener/src/connection_manager.rs passes on every event that it can read.
use mathlib.Core.List.{append-nil, append_assoc}
use casper_sidecar.Prelude.{
  if-true, All, ℕ, String, ◌≡◌, refl, sym, ap, ◌∙◌, true, some, List, [], ◌∷◌, ◌++◌, map,
}
use casper_sidecar.Prelude.Result.{Result, ok, err}
use casper_sidecar.Types.Casper.{Casper}
use casper_sidecar.Types.SseData.{SseData}
use casper_sidecar.Handling.Service.{SseEvent}
use casper_sidecar.Listener.Manager.{
  Event, EventStream, Environment, DefaultConnectionManager, sse_event, send_event, id_or_zero,
  with_version, handle_data, handle_event, observe_id, observed, handle_item, event_stream_closed,
  after_item, handle_stream,
}

-- Both channels have receivers throughout.
pub record IsListened {c : Casper} (env : Environment c) : Type 0 where
  pub opened : (l : List (SseEvent c)) → env.is_open l ≡ true
  pub observed_too : (l : List ℕ) → env.is_observed l ≡ true

module _ {c : Casper} (env : Environment c) (v : c.ProtocolVersion) where
  -- An event with what is read from it.
  abbrev pub Decodes : Event × SseData c → Type 0
  Decodes p = env.deserialize p.0.event_data ≡ ok p.1

  abbrev pub forwarded : Event × SseData c → SseEvent c
  forwarded p = sse_event env (id_or_zero env (env.parse_u32 p.0.id)) p.1 v

  abbrev pub id_list : Result ℕ String → List ℕ
  id_list (ok id) = id ∷ []
  id_list (err _) = []

  abbrev pub ids : List (Event × SseData c) → List ℕ
  ids [] = []
  ids (p ∷ l) = id_list (env.parse_u32 p.0.id) ++ ids l

  abbrev pub read_as : List (Event × SseData c) → EventStream
  read_as l = map (λ p. ok p.0) l

  -- The state after an event that was passed on.
  abbrev seen_id : Result ℕ String → DefaultConnectionManager c → DefaultConnectionManager c
  seen_id (err _) m = m
  seen_id (ok id) m = record m {
    current_event_id = some id;
    current_event_id_sender = m.current_event_id_sender ++ id ∷ [];
  }

  abbrev after_one : Event × SseData c → DefaultConnectionManager c → DefaultConnectionManager c
  after_one p m =
      let n = seen_id (env.parse_u32 p.0.id) m in
      record n { sse_event_sender = n.sse_event_sender ++ forwarded p ∷ [] }

  module _ (listened : IsListened env) where
    observe_id-seen :
        (id : Result ℕ String) (m : DefaultConnectionManager c)
        → observe_id env id m ≡ (ok tt, seen_id id m)
    unfolding observe_id
    observe_id-seen (err e) m = refl
    observe_id-seen (ok id) m = if-true _ _ (listened.observed_too m.current_event_id_sender)

    handle_event-sent :
        (p : Event × SseData c) (m : DefaultConnectionManager c)
        → Decodes p
        → m.api_version_seen ≡ some v
        → handle_event env p.0 m
          ≡ (ok tt, record m { sse_event_sender = m.sse_event_sender ++ forwarded p ∷ [] })
    unfolding handle_event
    handle_event-sent p m d h =
        ap (λ x. handle_data env p.0 x m) d
        ∙ unfold handle_data in
          ap (λ x. with_version env p.0 p.1 x m) h
          ∙ unfold with_version send_event in if-true _ _ (listened.opened m.sse_event_sender)

    version-seen_id :
        (id : Result ℕ String) (m : DefaultConnectionManager c)
        → (seen_id id m).api_version_seen ≡ m.api_version_seen
    version-seen_id (err e) m = refl
    version-seen_id (ok id) m = refl

    handle_item-sent :
        (p : Event × SseData c) (m : DefaultConnectionManager c)
        → Decodes p
        → m.api_version_seen ≡ some v
        → handle_item env p.0 m ≡ (ok tt, after_one p m)
    unfolding handle_item
    handle_item-sent p m d h =
        let id = env.parse_u32 p.0.id in
        ap (observed env p.0) (observe_id-seen id m)
        ∙ unfold observed in handle_event-sent p (seen_id id m) d (version-seen_id id m ∙ h)

    senders-after_one :
        (id : Result ℕ String) (m : DefaultConnectionManager c)
        → ((seen_id id m).sse_event_sender ≡ m.sse_event_sender)
          × ((seen_id id m).current_event_id_sender ≡ m.current_event_id_sender ++ id_list id)
    senders-after_one (err e) m = (refl, sym (append-nil _))
    senders-after_one (ok id) m = (refl, refl)

    -- If every event of a stream can be read, and both channels have receivers throughout, then
    -- when the stream ends all its events have been sent, each once, in their order, under the
    -- version of the connection and with their own ids or 0, and all their ids have been reported;
    -- and the connection ends with the error that the stream was closed.
    pub handle_stream-forwarded :
        (l : List (Event × SseData c)) (m : DefaultConnectionManager c)
        → All Decodes l
        → m.api_version_seen ≡ some v
        → let (r, later) = handle_stream env (read_as l) m in
          (r ≡ err (event_stream_closed env))
          × (later.sse_event_sender ≡ m.sse_event_sender ++ map forwarded l)
          × (later.current_event_id_sender ≡ m.current_event_id_sender ++ ids l)
    unfolding handle_stream
    handle_stream-forwarded [] m d h = (refl, sym (append-nil _), sym (append-nil _))
    handle_stream-forwarded (p ∷ l) m (d, ds) h =
        let n = after_one p m in
        let id = env.parse_u32 p.0.id in
        let step = ap (after_item env (handle_stream env (read_as l))) (handle_item-sent p m d h) in
        let (closed, sent, reported) = handle_stream-forwarded l n ds (version-seen_id id m ∙ h) in
        let (same, more) = senders-after_one id m in
        (
          ap (λ r. r.0) step ∙ closed,
          ap (λ r. r.1.sse_event_sender) step
              ∙ sent
              ∙ ap (λ s. (s ++ forwarded p ∷ []) ++ map forwarded l) same
              ∙ append_assoc m.sse_event_sender (forwarded p ∷ []) (map forwarded l),
          ap (λ r. r.1.current_event_id_sender) step
              ∙ reported
              ∙ ap (λ s. s ++ ids l) more
              ∙ append_assoc m.current_event_id_sender (id_list id) (ids l),
        )
