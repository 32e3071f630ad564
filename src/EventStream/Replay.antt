-- ===== src/EventStream/Replay.antt =====
-- event_sidecar/src/event_stream_server/http_server.rs: the buffer of events and its replay to a new subscriber.
pub mod Laws
use casper_sidecar.Prelude.{
  ltb, if◌then◌else◌, is_empty, ℕ, zero, suc, ◌+◌, ◌-◌, ◌%◌, ◌^◌, Bool, true, false, not, ◌||◌,
  Option, none, some, List, [], ◌∷◌, ◌++◌,
}
use casper_sidecar.Types.Casper.{Casper}
use casper_sidecar.EventStream.Event.{ServerSentEvent, initial_event, legacy_comment_event}

-- `wheelbuf::WheelBuf`: its operations are a parameter.
pub record WheelBuf (A : Type 0) : Type 1 where
  pub Buf : Type 0
  pub new : List A → Buf
  pub capacity : Buf → ℕ
  pub iter : Buf → List A
  pub push : A → Buf → Buf

abbrev pub id_max : ℕ
id_max = 2 ^ 32 - 1

unfoldable pub wrapping_add : ℕ → ℕ → ℕ
wrapping_add a b = (a + b) % 2 ^ 32

-- `a - b` on 32 bits, which wraps in a release build.
unfoldable pub id_sub : ℕ → ℕ → ℕ
id_sub a b = (a + 2 ^ 32 - b) % 2 ^ 32

-- `event.id.unwrap()`, for an event that has an id.
abbrev pub unwrap_id : Option ℕ → ℕ
unwrap_id (some id) = id
unwrap_id none = 0

unfoldable pub skip_while {ℓ} : {A : Type ℓ} → (A → Bool) → List A → List A
skip_while p [] = []
skip_while p (x ∷ xs) = let rest = skip_while p xs in if p x then rest else x ∷ xs

abbrev pub repeat {ℓ} : {A : Type ℓ} → A → ℕ → List A
repeat a zero = []
repeat a (suc n) = a ∷ repeat a n

pub record NewSubscriberInfo : Type 0 where
  pub start_from : Option ℕ
  pub enable_legacy_filters : Bool

-- The predicate of the `skip_while`.
unfoldable pub is_before :
    (buffer_size : ℕ) → (in_wraparound_zone : Bool) → (start_index : ℕ) → (id : ℕ) → Bool
unfolding wrapping_add
is_before buffer_size in_wraparound_zone start_index id =
    if in_wraparound_zone
    then ltb (wrapping_add id buffer_size) (wrapping_add start_index buffer_size)
    else ltb id start_index

-- The test of the loop: is the event's protocol version another than the last one sent?
abbrev pub is_new_version : {V : Type 0} → (V → V → Bool) → Option V → V → Bool
is_new_version version_eq none protocol = true
is_new_version version_eq (some observed) protocol = not (version_eq observed protocol)

abbrev pub Item : Casper → Type 0
Item c = c.ProtocolVersion × ServerSentEvent c

module _ {c : Casper} where
  abbrev pub item_id : Item c → ℕ
  item_id (v, event) = unwrap_id event.id

  abbrev pub in_zone : (buffer_size : ℕ) → List (Item c) → Bool
  in_zone buffer_size [] = false
  in_zone buffer_size (item ∷ items) =
      ltb (id_sub id_max buffer_size) (item_id item) || ltb (item_id item) buffer_size

  -- The items that the loop of `register_new_subscriber` runs over.
  unfoldable pub requested : (capacity : ℕ) → (start_index : ℕ) → List (Item c) → List (Item c)
  unfolding id_sub skip_while is_before
  requested capacity start_index items =
      let buffer_size = capacity % 2 ^ 32 in
      let in_wraparound_zone = in_zone buffer_size items in
      skip_while (λ item. is_before buffer_size in_wraparound_zone start_index (item_id item)) items

  abbrev pub send_requested : (capacity : ℕ) → Option ℕ → List (Item c) → List (Item c)
  send_requested capacity none items = []
  send_requested capacity (some start_index) items = requested capacity start_index items

  abbrev pub api_version_if_known : Option c.ProtocolVersion → List (ServerSentEvent c)
  api_version_if_known none = []
  api_version_if_known (some v) = initial_event v ∷ []

  unfoldable pub send_api_version_if_necessary :
      (observed_events : Bool)
      → (latest_protocol_version : Option c.ProtocolVersion) → List (ServerSentEvent c)
  unfolding initial_event
  send_api_version_if_necessary observed_events latest_protocol_version =
      if not observed_events then api_version_if_known latest_protocol_version else []

  module _ (version_eq : c.ProtocolVersion → c.ProtocolVersion → Bool) where
    -- The `for` loop: what it sends, from the last protocol version it has sent.
    unfoldable pub send_items :
        (observed_protocol_version : Option c.ProtocolVersion)
        → List (Item c)
        → List (ServerSentEvent c)
    unfolding initial_event
    send_items observed [] = []
    send_items observed ((protocol, event) ∷ items) =
        let changed = event ∷ send_items (some protocol) items in
        let unchanged = event ∷ send_items observed items in
        if is_new_version version_eq observed protocol
        then initial_event protocol ∷ changed
        else unchanged

    -- What `register_new_subscriber` sends to the subscriber, in order.
    unfoldable pub register_new_subscriber :
        NewSubscriberInfo
        → (capacity : ℕ) → (items : List (Item c))
        → (latest_protocol_version : Option c.ProtocolVersion) → List (ServerSentEvent c)
    unfolding legacy_comment_event requested send_items send_api_version_if_necessary
    register_new_subscriber subscriber capacity items latest_protocol_version =
        let notice = if subscriber.enable_legacy_filters then legacy_comment_event ∷ [] else [] in
        let sent = send_requested capacity subscriber.start_from items in
        notice
        ++ (send_items none sent
            ++ send_api_version_if_necessary (not (is_empty sent)) latest_protocol_version)
