-- ===== src/EventStream/Stream/Laws.antt =====
-- What a client receives by event_sidecar/src/event_stream_server/sse_server.rs.
use mathlib.Core.List.{append_assoc}
use casper_sidecar.EventStream.Outbound.{Wire}
use casper_sidecar.Types.SseData.{EventFilter}
use casper_sidecar.Prelude.{
  if◌then◌else◌, Bool-cases, Option-cases, All, ℕ, ◌≡◌, refl, ap, ◌∙◌, subst, inl, inr, Bool, true,
  false, not, Option, none, some, List, [], ◌∷◌, ◌++◌, map, arith,
}
use casper_sidecar.Prelude.Result.{Result, ok}
use casper_sidecar.Types.Casper.{Casper}
use casper_sidecar.EventStream.Event.{
  Endpoint, ServerSentEvent, BroadcastChannelMessage, server_sent_event, RecvError,
}
use casper_sidecar.EventStream.Stream.{
  BroadcastStreamRecvError, has_id, filter_map, take_while, handle_sse_event, map_broadcast,
  ongoing_stream, insert_ids, chained, map_result, stream_to_client,
}

-- Does the event have no id, or one that is not in the list?
abbrev pub fresh : List ℕ → Option ℕ → Bool
fresh ids none = true
fresh ids (some id) = not (has_id ids id)

module _ {c : Casper} where
  -- A channel that lost nothing and was not shut down.
  abbrev pub delivered :
      List (ServerSentEvent c) → List (Result (BroadcastChannelMessage c) BroadcastStreamRecvError)
  delivered [] = []
  delivered (e ∷ es) = ok (server_sent_event e) ∷ delivered es

  abbrev pub keep_fresh : List ℕ → List (ServerSentEvent c) → List (ServerSentEvent c)
  keep_fresh ids [] = []
  keep_fresh ids (e ∷ es) = if fresh ids e.id then e ∷ keep_fresh ids es else keep_fresh ids es

  abbrev pub oks : List (ServerSentEvent c) → List (Result (ServerSentEvent c) RecvError)
  oks es = map (λ e. ok e) es

  abbrev fresh_only :
      List ℕ → ServerSentEvent c → Option ℕ → Option (Result (ServerSentEvent c) RecvError)
  fresh_only ids e o = if fresh ids o then some (ok e) else none

  handle-id :
      (ids : List ℕ) (e : ServerSentEvent c) (o : Option ℕ)
      → (elim o [ none ↦ some (ok e) | some id ↦ if has_id ids id then none else some (ok e) ])
        ≡ fresh_only ids e o
  handle-id ids e none = refl
  handle-id ids e (some i) = ground arith

  handle-fresh :
      (ids : List ℕ) (e : ServerSentEvent c) → handle_sse_event e ids ≡ fresh_only ids e e.id
  unfolding handle_sse_event
  handle-fresh ids e = handle-id ids e e.id

  ongoing-delivered :
      (ids : List ℕ) (es : List (ServerSentEvent c))
      → ongoing_stream ids (delivered es) ≡ oks (keep_fresh ids es)
  unfolding ongoing_stream map_broadcast filter_map take_while
  ongoing-delivered ids [] = refl
  ongoing-delivered ids (e ∷ es) = elim (Bool-cases (fresh ids e.id)) [
    | inl h ↦
        rw (handle-fresh ids e, h, ongoing_stream, map_broadcast, filter_map, take_while)
          (ap (◌∷◌ (ok e)) (ongoing-delivered ids es))
    | inr h ↦
        rw (handle-fresh ids e, h, ongoing_stream, map_broadcast, filter_map, take_while)
          (ongoing-delivered ids es)
  ]

  -- A client that lost nothing: the initial events first, then exactly the ongoing ones that are not
  -- among them, in their order.
  chained-delivered :
      (initial ongoing : List (ServerSentEvent c))
      → chained initial (delivered ongoing)
        ≡ oks initial ++ oks (keep_fresh (insert_ids initial) ongoing)
  unfolding chained
  chained-delivered initial ongoing =
      ap (◌++◌ (oks initial)) (ongoing-delivered (insert_ids initial) ongoing)

  keep_fresh-append :
      (ids : List ℕ) (xs ys : List (ServerSentEvent c))
      → keep_fresh ids (xs ++ ys) ≡ keep_fresh ids xs ++ keep_fresh ids ys
  keep_fresh-append ids [] ys = refl
  keep_fresh-append ids (x ∷ xs) ys = elim (Bool-cases (fresh ids x.id)) [
    | inl h ↦ rw (h, keep_fresh-append ids xs ys, keep_fresh) refl
    | inr h ↦ rw (h, keep_fresh-append ids xs ys, keep_fresh) refl
  ]

  -- None of the events has an id of the list.
  abbrev pub AllNew : List ℕ → List (ServerSentEvent c) → Type 0
  AllNew ids = All (λ e. fresh ids e.id ≡ true)

  -- Every event has an id of the list.
  abbrev pub AllKnown : List ℕ → List (ServerSentEvent c) → Type 0
  AllKnown ids = All (λ e. fresh ids e.id ≡ false)

  keep_fresh-AllNew :
      (ids : List ℕ) (es : List (ServerSentEvent c)) → AllNew ids es → keep_fresh ids es ≡ es
  keep_fresh-AllNew ids [] h = refl
  keep_fresh-AllNew ids (e ∷ es) (h, hs) =
      rw (h, keep_fresh) (ap (◌∷◌ e) (keep_fresh-AllNew ids es hs))

  keep_fresh-AllKnown :
      (ids : List ℕ) (es : List (ServerSentEvent c)) → AllKnown ids es → keep_fresh ids es ≡ []
  keep_fresh-AllKnown ids [] h = refl
  keep_fresh-AllKnown ids (e ∷ es) (h, hs) = rw (h, keep_fresh) (keep_fresh-AllKnown ids es hs)

  oks-append : (xs ys : List (ServerSentEvent c)) → oks xs ++ oks ys ≡ oks (xs ++ ys)
  oks-append [] ys = refl
  oks-append (x ∷ xs) ys = ap (◌∷◌ (ok x)) (oks-append xs ys)

  abbrev pub HasId : ServerSentEvent c → Type 0
  HasId e = (i : ℕ) × (e.id ≡ some i)

  fresh-insert_ids :
      (before after : List (ServerSentEvent c)) (e : ServerSentEvent c) (i : ℕ)
      → e.id ≡ some i
      → has_id (insert_ids (before ++ e ∷ after)) i ≡ true
  unfolding insert_ids has_id
  fresh-insert_ids [] after e i h = rw (h, insert_ids, has_id) (ground arith)
  fresh-insert_ids (b ∷ before) after e i h = elim (Option-cases b.id) [
    | inl g ↦ rw (g, insert_ids) (fresh-insert_ids before after e i h)
    | inr (j, g) ↦ rw (g, insert_ids, has_id, fresh-insert_ids before after e i h) (ground arith)
  ]

  AllKnown-suffix :
      (before es : List (ServerSentEvent c))
      → All HasId es
      → AllKnown (insert_ids (before ++ es)) es
  AllKnown-suffix before [] h = tt
  AllKnown-suffix before (e ∷ es) ((i, g), hs) = (
    ap (fresh (insert_ids (before ++ e ∷ es))) g ∙ ap not (fresh-insert_ids before es e i g),
    subst (λ all. AllKnown (insert_ids all) es) (append_assoc before (e ∷ []) es)
        (AllKnown-suffix (before ++ e ∷ []) es hs),
  )

  -- Exactly once: if the subscription overlaps, so that the ongoing events begin with some that the
  -- initial ones end with (`both`), each of them with an id, and no `later` event has an id of an
  -- initial one, then the client receives what it would of one unbroken sequence of the events.
  pub stream_to_client-once :
      (wire : Wire c) (earlier both later : List (ServerSentEvent c)) (stream_filter : Endpoint)
      (event_filter : List EventFilter) (is_legacy_filter : Bool)
      → All HasId both
      → AllNew (insert_ids (earlier ++ both)) later
      → stream_to_client wire
          (earlier ++ both)
          (delivered (both ++ later))
          stream_filter
          event_filter
          is_legacy_filter
        ≡ filter_map
            (map_result wire stream_filter event_filter is_legacy_filter)
            (oks ((earlier ++ both) ++ later))
  unfolding stream_to_client
  stream_to_client-once wire earlier both later endpoint filter legacy has_ids new =
      let initial = earlier ++ both in
      let ids = insert_ids initial in
      ap (filter_map (map_result wire endpoint filter legacy)) (
        chained-delivered initial (both ++ later)
        ∙ ap (λ es. oks initial ++ oks es)
            (keep_fresh-append ids both later
              ∙ rw
                  (
                    keep_fresh-AllKnown ids both (AllKnown-suffix earlier both has_ids),
                    keep_fresh-AllNew ids later new,
                  )
                  refl)
        ∙ oks-append initial later)
