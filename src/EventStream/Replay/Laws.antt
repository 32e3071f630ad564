-- ===== src/EventStream/Replay/Laws.antt =====
-- What a new subscriber is sent by event_sidecar/src/event_stream_server/http_server.rs.
pub mod Range
use casper_sidecar.Prelude.{
  if◌then◌else◌, Bool-cases, if-true, if-false, is_empty, All, ℕ, ◌≡◌, refl, ap, ◌∙◌, inl, inr,
  Bool, true, false, not, Option, none, some, List, [], ◌∷◌, ◌++◌,
}
use casper_sidecar.Types.Casper.{Casper}
use casper_sidecar.Types.SseData.{
  SseData, api_version, block_added, transaction_accepted, transaction_processed,
  transaction_expired, fault, finality_signature, step, shutdown,
}
use casper_sidecar.EventStream.Event.{
  ServerSentEvent, initial_event, legacy_comment_event, is_api_version,
}
use casper_sidecar.EventStream.Replay.{
  NewSubscriberInfo, is_new_version, Item, send_requested, send_api_version_if_necessary,
  send_items, register_new_subscriber,
}

old_version :
    {V : Type 0} (version_eq : V → V → Bool)
    → ((v w : V) → version_eq v w ≡ true → v ≡ w)
    → (o : Option V) (v : V) → is_new_version version_eq o v ≡ false
    → o ≡ some v
old_version version_eq sound none v h = cc
old_version version_eq sound (some w) v h = elim (Bool-cases (version_eq w v)) [
  | inl same ↦ ap (λ x. some x) (sound w v same)
  | inr other ↦ cc
]

module _ {c : Casper} where
  -- How a client reads a stream: each event that is no `ApiVersion` belongs to the last version seen.
  abbrev pub next_version : Option c.ProtocolVersion → Option (SseData c) → Option c.ProtocolVersion
  next_version v (some (api_version w)) = some w
  next_version v _ = v

  abbrev pub announces : Option (SseData c) → Bool
  announces none = false
  announces (some d) = is_api_version d

  unfoldable pub attribute :
      Option c.ProtocolVersion
      → List (ServerSentEvent c)
      → List (Option c.ProtocolVersion × ServerSentEvent c)
  attribute v [] = []
  attribute v (e ∷ es) =
      let rest = attribute (next_version v e.sse_data) es in
      if announces e.sse_data then rest else (v, e) ∷ rest

  -- The items as a reader should see them.
  abbrev pub as_read : List (Item c) → List (Option c.ProtocolVersion × ServerSentEvent c)
  as_read [] = []
  as_read ((v, e) ∷ items) = (some v, e) ∷ as_read items

  -- No buffered event is an `ApiVersion`.
  abbrev pub NoVersions : List (Item c) → Type 0
  NoVersions = All (λ item. announces item.1.sse_data ≡ false)

  next_version-other :
      (v : Option c.ProtocolVersion) (d : Option (SseData c))
      → announces d ≡ false
      → next_version v d ≡ v
  next_version-other v none h = refl
  next_version-other v (some (api_version w)) h = cc
  next_version-other v (some (block_added _ _)) h = refl
  next_version-other v (some (transaction_accepted _)) h = refl
  next_version-other v (some (transaction_processed _ _ _ _ _ _ _)) h = refl
  next_version-other v (some (transaction_expired _)) h = refl
  next_version-other v (some (fault _ _ _)) h = refl
  next_version-other v (some (finality_signature _)) h = refl
  next_version-other v (some (step _ _)) h = refl
  next_version-other v (some SseData.shutdown) h = refl

  attribute-event :
      (v : Option c.ProtocolVersion) (e : ServerSentEvent c) (es : List (ServerSentEvent c))
      → announces e.sse_data ≡ false
      → attribute v (e ∷ es) ≡ (v, e) ∷ attribute v es
  unfolding attribute
  attribute-event v e es h = rw (h, next_version-other v e.sse_data h, attribute) refl

  module _ (version_eq : c.ProtocolVersion → c.ProtocolVersion → Bool)
      (version_eq-sound : (v w : c.ProtocolVersion) → version_eq v w ≡ true → v ≡ w) where
    send_items-new :
        (o : Option c.ProtocolVersion) (v : c.ProtocolVersion) (e : ServerSentEvent c)
        (items : List (Item c))
        → is_new_version version_eq o v ≡ true
        → send_items version_eq o ((v, e) ∷ items)
          ≡ initial_event v ∷ e ∷ send_items version_eq (some v) items
    unfolding send_items
    send_items-new o v e items h = if-true _ _ h

    send_items-old :
        (o : Option c.ProtocolVersion) (v : c.ProtocolVersion) (e : ServerSentEvent c)
        (items : List (Item c))
        → is_new_version version_eq o v ≡ false
        → send_items version_eq o ((v, e) ∷ items) ≡ e ∷ send_items version_eq o items
    unfolding send_items
    send_items-old o v e items h = if-false _ _ h

    attribute-initial :
        (o : Option c.ProtocolVersion) (v : c.ProtocolVersion) (es : List (ServerSentEvent c))
        → attribute o (initial_event v ∷ es) ≡ attribute (some v) es
    unfolding attribute initial_event
    attribute-initial o v es = refl

    -- What is sent for buffered events, none of them an `ApiVersion`: a reader that starts with the version
    -- `observed` and takes each event to belong to the last `ApiVersion` before it finds exactly the buffered
    -- events, in their order, each with the protocol version it was buffered with.
    pub send_items_lem :
        (observed : Option c.ProtocolVersion) (items : List (Item c))
        → NoVersions items
        → attribute observed (send_items version_eq observed items) ≡ as_read items
    send_items_lem observed [] h = unfold send_items attribute in refl
    send_items_lem observed ((v, e) ∷ items) (h, hs) =
        elim (Bool-cases (is_new_version version_eq observed v)) [
          | inl new ↦
              ap (attribute observed) (send_items-new observed v e items new)
              ∙ attribute-initial observed v (e ∷ send_items version_eq (some v) items)
              ∙ attribute-event (some v) e (send_items version_eq (some v) items) h
              ∙ ap (◌∷◌ (some v, e)) (send_items_lem (some v) items hs)
          | inr old ↦
              ap (attribute observed) (send_items-old observed v e items old)
              ∙ attribute-event observed e (send_items version_eq observed items) h
              ∙ ap (λ es. (observed, e) ∷ es) (send_items_lem observed items hs)
              ∙ ap (λ o. (o, e) ∷ as_read items)
                  (old_version version_eq version_eq-sound observed v old)
        ]

  -- What follows the comment for legacy filters.
  abbrev pub after_notice :
      (c.ProtocolVersion → c.ProtocolVersion → Bool)
      → List (Item c)
      → Option c.ProtocolVersion
      → List (ServerSentEvent c)
  after_notice version_eq sent latest =
      send_items version_eq none sent ++ send_api_version_if_necessary (not (is_empty sent)) latest

  abbrev pub notice : NewSubscriberInfo → List (ServerSentEvent c)
  notice subscriber = if subscriber.enable_legacy_filters then legacy_comment_event ∷ [] else []

  abbrev pub StartsWithVersion : List (ServerSentEvent c) → Type 0
  StartsWithVersion es =
      (v : c.ProtocolVersion) × (rest : List (ServerSentEvent c)) × (es ≡ initial_event v ∷ rest)

  after_notice-version :
      (version_eq : c.ProtocolVersion → c.ProtocolVersion → Bool) (sent : List (Item c))
      (v : c.ProtocolVersion)
      → StartsWithVersion (after_notice version_eq sent (some v))
  unfolding send_items send_api_version_if_necessary
  after_notice-version version_eq [] v = (v, [], refl)
  after_notice-version version_eq ((w, e) ∷ sent) v = (w, _, refl)

  -- A new subscriber, whatever it asks for and whatever is buffered, is sent an `ApiVersion` before any other
  -- data, once a version has been observed; only the comment for legacy filters may come before it.
  pub register_new_subscriber-version :
      (version_eq : c.ProtocolVersion → c.ProtocolVersion → Bool) (subscriber : NewSubscriberInfo)
      (capacity : ℕ) (items : List (Item c)) (v : c.ProtocolVersion)
      → (rest : List (ServerSentEvent c)) × (register_new_subscriber version_eq subscriber capacity
            items
            (some v)
          ≡ notice subscriber ++ rest)
        × StartsWithVersion rest
  unfolding register_new_subscriber
  register_new_subscriber-version version_eq subscriber capacity items v =
      let sent = send_requested capacity subscriber.start_from items in
      (after_notice version_eq sent (some v), refl, after_notice-version version_eq sent v)
