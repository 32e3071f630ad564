-- ===== src/EventStream/Server/Laws.antt =====
-- What event_sidecar/src/event_stream_server.rs and http_server.rs keep true of the buffer.
use casper_sidecar.Prelude.{
  ltb, if◌then◌else◌, if-true, if-false, length, All, ℕ, ◌*◌, ◌^◌, ◌≤◌, ◌<◌, ◌≡◌, refl, sym, subst,
  Bool, true, false, Option, none, some, List, [], ◌∷◌, ◌++◌, arith,
}
use casper_sidecar.Types.Casper.{Casper}
use casper_sidecar.Types.SseData.{
  Filter, SseData, api_version, block_added, transaction_accepted, transaction_processed,
  transaction_expired, fault, finality_signature, step,
}
use casper_sidecar.EventStream.Event.{ServerSentEvent, is_api_version}
use casper_sidecar.EventStream.Replay.{WheelBuf, Item}
use casper_sidecar.EventStream.Server.{
  get_broadcast_channel_size, InboundData, EventStreamServer, broadcast, HttpServer,
  push_if_version, record_data, handle_incoming_data,
}
use casper_sidecar.EventStream.Indexer.{next_index}

-- The last `n` items.
abbrev pub keep_last {ℓ} : {A : Type ℓ} → ℕ → List A → List A
keep_last n [] = []
keep_last n (x ∷ xs) = if ltb n (length (x ∷ xs)) then keep_last n xs else x ∷ xs

All-append {ℓ κ} :
    {A : Type ℓ} (P : A → Type κ) (xs : List A) (x : A) → All P xs → P x → All P (xs ++ x ∷ [])
All-append P [] x h p = (p, tt)
All-append P (y ∷ xs) x (q, h) p = (q, All-append P xs x h p)

All-if {ℓ κ} :
    {A : Type ℓ} (P : A → Type κ) (b : Bool) (xs ys : List A)
    → All P xs
    → All P ys
    → All P (if b then xs else ys)
All-if P true xs ys h k = h
All-if P false xs ys h k = k

All-keep_last {ℓ κ} :
    {A : Type ℓ} (P : A → Type κ) (n : ℕ) (xs : List A) → All P xs → All P (keep_last n xs)
All-keep_last P n [] h = tt
All-keep_last P n (x ∷ xs) (p, h) =
    All-if P (ltb n (length (x ∷ xs))) (keep_last n xs) (x ∷ xs) (All-keep_last P n xs h) (p, h)

-- The broadcast channel holds at least as many events as the buffer, and more of them if the buffer has
-- five events or more, as long as the product of the computation fits 32 bits.
pub get_broadcast_channel_size-ge :
    (n : ℕ)
    → n * 120 < 2 ^ 32
    → (n ≤ get_broadcast_channel_size n) × (5 ≤ n → n < get_broadcast_channel_size n)
unfolding get_broadcast_channel_size
get_broadcast_channel_size-ge n h = (omega arith, λ k. omega arith)

module _ {c : Casper} where
  -- An id is there exactly if the data is no `ApiVersion`.
  abbrev pub IdFits : Option ℕ → SseData c → Type 0
  IdFits none d = is_api_version d ≡ true
  IdFits (some id) d = is_api_version d ≡ false

  abbrev pub InputFits : InboundData c → Type 0
  InputFits (id, d, inbound) = IdFits id d

  -- A buffered item that can be replayed: it has an id, and data that is no `ApiVersion`.
  abbrev pub Replayable : Item c → Type 0
  Replayable (v, e) =
      (id : ℕ) × (d : SseData c) × (e.id ≡ some id)
      × (e.sse_data ≡ some d)
      × (is_api_version d ≡ false)

  sent_by : SseData c → Option Filter → EventStreamServer c → Bool → EventStreamServer c
  sent_by d inbound server true = record {
    sse_data_sender = server.sse_data_sender ++ (none, d, inbound) ∷ [];
    event_indexer = server.event_indexer;
  }
  sent_by d inbound server false = record {
    sse_data_sender =
        server.sse_data_sender ++ (some (next_index server.event_indexer).0, d, inbound) ∷ [];
    event_indexer = (next_index server.event_indexer).1;
  }

  broadcast-sent_by :
      (d : SseData c) (inbound : Option Filter) (server : EventStreamServer c) (api : Bool)
      → is_api_version d ≡ api
      → broadcast d inbound server ≡ sent_by d inbound server api
  unfolding broadcast sent_by
  broadcast-sent_by d inbound server true e = if-true _ _ e
  broadcast-sent_by d inbound server false e = if-false _ _ e

  sent_by-InputFits :
      (d : SseData c) (inbound : Option Filter) (server : EventStreamServer c) (api : Bool)
      → is_api_version d ≡ api
      → All InputFits server.sse_data_sender
      → All InputFits (sent_by d inbound server api).sse_data_sender
  unfolding sent_by
  sent_by-InputFits d inbound server true e h =
      All-append InputFits server.sse_data_sender (none, d, inbound) h e
  sent_by-InputFits d inbound server false e h =
      All-append InputFits server.sse_data_sender
        (some (next_index server.event_indexer).0, d, inbound) h e

  -- What the sidecar sends to the loop of the server keeps fitting: an id exactly for what is no
  -- `ApiVersion`.
  pub broadcast-InputFits :
      (d : SseData c) (inbound : Option Filter) (server : EventStreamServer c)
      → All InputFits server.sse_data_sender
      → All InputFits (broadcast d inbound server).sse_data_sender
  broadcast-InputFits d inbound server h =
      subst (λ s. All InputFits s.sse_data_sender)
        (sym (broadcast-sent_by d inbound server (is_api_version d) refl))
        (sent_by-InputFits d inbound server (is_api_version d) refl h)

  module _ (wheel : WheelBuf (Item c))
      (push-iter : (item : Item c) (buf : wheel.Buf)
        → wheel.iter (wheel.push item buf)
          ≡ keep_last (wheel.capacity buf) (wheel.iter buf ++ item ∷ [])) where
    abbrev event_of : Option ℕ → SseData c → Option Filter → ServerSentEvent c
    event_of id d inbound = record {
      id = id;
      sse_data = some d;
      comment = none;
      inbound_filter = inbound;
    }

    Replayable-push :
        (id : ℕ) (d : SseData c) (inbound : Option Filter) (latest : Option c.ProtocolVersion)
        (buf : wheel.Buf)
        → is_api_version d ≡ false
        → All Replayable (wheel.iter buf)
        → All Replayable
            (wheel.iter (push_if_version wheel latest (event_of (some id) d inbound) buf))
    Replayable-push id d inbound none buf e h = h
    Replayable-push id d inbound (some v) buf e h =
        subst (All Replayable) (sym (push-iter (v, event_of (some id) d inbound) buf)) (
          All-keep_last Replayable (wheel.capacity buf)
            (wheel.iter buf ++ (v, event_of (some id) d inbound) ∷ [])
            (All-append Replayable (wheel.iter buf) (v, event_of (some id) d inbound) h
              (id, d, refl, refl, e)))

    record_data-Replayable :
        (id : Option ℕ) (d : SseData c) (inbound : Option Filter)
        (latest : Option c.ProtocolVersion) (buf : wheel.Buf)
        → IdFits id d
        → All Replayable (wheel.iter buf)
        → All Replayable (wheel.iter (record_data wheel d (event_of id d inbound) latest buf).1)
    unfolding record_data
    record_data-Replayable id (api_version v) inbound latest buf e h = h
    record_data-Replayable (some id) (block_added a b) inbound latest buf e h =
        Replayable-push id (block_added a b) inbound latest buf e h
    record_data-Replayable none (block_added a b) inbound latest buf e h = cc
    record_data-Replayable (some id) (transaction_accepted a) inbound latest buf e h =
        Replayable-push id (transaction_accepted a) inbound latest buf e h
    record_data-Replayable none (transaction_accepted a) inbound latest buf e h = cc
    record_data-Replayable (some id) (transaction_processed a b x y z u w) inbound latest buf e h =
        Replayable-push id (transaction_processed a b x y z u w) inbound latest buf e h
    record_data-Replayable none (transaction_processed a b x y z u w) inbound latest buf e h = cc
    record_data-Replayable (some id) (transaction_expired a) inbound latest buf e h =
        Replayable-push id (transaction_expired a) inbound latest buf e h
    record_data-Replayable none (transaction_expired a) inbound latest buf e h = cc
    record_data-Replayable (some id) (fault a b x) inbound latest buf e h =
        Replayable-push id (fault a b x) inbound latest buf e h
    record_data-Replayable none (fault a b x) inbound latest buf e h = cc
    record_data-Replayable (some id) (finality_signature a) inbound latest buf e h =
        Replayable-push id (finality_signature a) inbound latest buf e h
    record_data-Replayable none (finality_signature a) inbound latest buf e h = cc
    record_data-Replayable (some id) (step a b) inbound latest buf e h =
        Replayable-push id (step a b) inbound latest buf e h
    record_data-Replayable none (step a b) inbound latest buf e h = cc
    record_data-Replayable (some id) SseData.shutdown inbound latest buf e h =
        Replayable-push id SseData.shutdown inbound latest buf e h
    record_data-Replayable none SseData.shutdown inbound latest buf e h = cc

    -- The loop of the server never stops on an input whose id fits its data, and keeps in the buffer only
    -- what can be replayed: each event there has an id, so that no `unwrap` of the replay fails, and data
    -- that is no `ApiVersion`. The buffer is taken to hold the last of what was pushed.
    pub handle_incoming_data-Replayable :
        (input : InboundData c) (server : HttpServer wheel)
        → InputFits input
        → All Replayable (wheel.iter server.buffer)
        → (later : HttpServer wheel) × (handle_incoming_data wheel (some input) server ≡ some later)
          × All Replayable (wheel.iter later.buffer)
    unfolding handle_incoming_data
    handle_incoming_data-Replayable (id, d, inbound) server e h = (
      _,
      refl,
      record_data-Replayable id d inbound server.latest_protocol_version server.buffer e h,
    )
