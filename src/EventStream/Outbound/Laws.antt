-- ===== src/EventStream/Outbound/Laws.antt =====
-- What event_sidecar/src/event_stream_server/sse_server.rs lets through to a client.
use mathlib.Core.Option
use casper_sidecar.Prelude.{
  if◌then◌else◌, Option-cases, ℕ, ◌≡◌, refl, ◌≢◌, inl, inr, Bool, true, false, not, Option, none,
  some, List,
}
use casper_sidecar.Prelude.Result.{Result, ok}
use casper_sidecar.Prelude.Decimal.{decimal}
use casper_sidecar.Types.Casper.{Casper}
use casper_sidecar.Types.SseData.{
  Filter, EventFilter, SseData, api_version, block_added, transaction_accepted,
  transaction_processed, transaction_expired, fault, finality_signature, step, should_include,
}
use casper_sidecar.EventStream.Event.{Endpoint, ServerSentEvent, RecvError, is_api_version}
use casper_sidecar.EventStream.Outbound.{
  Wire, unwrap_or, should_skip_event, determine_id, event_to_warp_event, map_data,
  filter_map_server_sent_event,
}
use casper_sidecar.Types.Legacy.{legacy_from}

guard :
    {A : Type 0} (b : Bool) {x y : A} (none_ : A)
    → x ≡ y
    → (if (if not b then true else (if false then true else false)) then none_ else x)
      ≡ (if b then y else none_)
guard true none_ h = h
guard false none_ h = refl

module _ {c : Casper} where
  -- An event as the server builds it from its input: with data, without a comment, and with an id
  -- exactly if it is no `ApiVersion`.
  abbrev pub from_input : Option ℕ → SseData c → Option Filter → ServerSentEvent c
  from_input id d inbound = record {
    id = id;
    sse_data = some d;
    comment = none;
    inbound_filter = inbound;
  }

  -- The data in the format of the client, if it has one.
  abbrev pub rendered : (wire : Wire c) → (legacy : Bool) → SseData c → Option wire.Event
  rendered wire true d =
      Option.map (λ l. unwrap_or wire.default (wire.json_legacy l wire.default)) (legacy_from d)
  rendered wire false d = some (unwrap_or wire.default (wire.json_data d wire.default))

  abbrev pub numbered :
      (wire : Wire c) → ℕ → Option wire.Event → Option (Result wire.Event RecvError)
  numbered wire id none = none
  numbered wire id (some e) = some (ok (wire.set_id (decimal id) e))

  mapped :
      (wire : Wire c) (id : ℕ) (legacy : Bool) (d : SseData c)
      → event_to_warp_event wire d legacy (some (decimal id))
        ≡ numbered wire id (rendered wire legacy d)
  unfolding event_to_warp_event
  mapped wire id true d = elim (Option-cases (legacy_from d)) [
    | inl h ↦ rw (h) refl
    | inr (l, h) ↦ rw (h) refl
  ]
  mapped wire id false d = refl

  abbrev included : SseData c → List EventFilter → Bool
  included d filter = should_include d filter

  -- An event with an id that is neither an `ApiVersion` nor a shutdown reaches a client exactly if the
  -- client's filter includes it and it has a form in the client's format, and then with its id in decimal.
  pub filter_map_lem :
      (wire : Wire c) (id : ℕ) (d : SseData c) (inbound : Option Filter) (endpoint : Endpoint)
      (filter : List EventFilter) (legacy : Bool)
      → is_api_version d ≡ false
      → d ≢ SseData.shutdown
      → filter_map_server_sent_event wire (from_input (some id) d inbound) endpoint filter legacy
        ≡ (if should_include d filter then numbered wire id (rendered wire legacy d) else none)
  unfolding filter_map_server_sent_event should_skip_event determine_id map_data
  filter_map_lem wire id (api_version v) inbound endpoint filter legacy p q = cc
  filter_map_lem wire id SseData.shutdown inbound endpoint filter legacy p q = elim (q refl) [ ]
  filter_map_lem wire id (block_added a b) inbound endpoint filter legacy p q =
      guard (included (block_added a b) filter) none (mapped wire id legacy (block_added a b))
  filter_map_lem wire id (transaction_accepted a) inbound endpoint filter legacy p q =
      guard (included (transaction_accepted a) filter) none
        (mapped wire id legacy (transaction_accepted a))
  filter_map_lem wire id (transaction_processed a b e f g h i) inbound endpoint filter legacy p q =
      guard (included (transaction_processed a b e f g h i) filter) none
        (mapped wire id legacy (transaction_processed a b e f g h i))
  filter_map_lem wire id (transaction_expired a) inbound endpoint filter legacy p q =
      guard (included (transaction_expired a) filter) none
        (mapped wire id legacy (transaction_expired a))
  filter_map_lem wire id (fault a b e) inbound endpoint filter legacy p q =
      guard (included (fault a b e) filter) none (mapped wire id legacy (fault a b e))
  filter_map_lem wire id (finality_signature a) inbound endpoint filter legacy p q =
      guard (included (finality_signature a) filter) none
        (mapped wire id legacy (finality_signature a))
  filter_map_lem wire id (step a b) inbound endpoint filter legacy p q =
      guard (included (step a b) filter) none (mapped wire id legacy (step a b))
