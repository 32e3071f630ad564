-- ===== src/EventStream/Subscribe/Laws.antt =====
-- Which requests event_sidecar/src/event_stream_server/sse_server.rs serves, and what the others are answered.
use casper_sidecar.Prelude.{
  ltb, leb, Bool-cases, Option-cases, length, ℕ, ◌≤◌, ◌<◌, String, ◌≡◌, refl, ◌⊎◌, inl, inr, Bool,
  true, false, Option, none, some, List, [], ◌∷◌, arith, str_eq_iff,
}
use casper_sidecar.Prelude.Result.{Result, ok, err, ◌>>=◌, Result-cases, FailsWith, FailsWith-elim}
use casper_sidecar.Types.SseData.{EventFilter}
use casper_sidecar.EventStream.Event.{
  Endpoint, main, deploys, sigs, events_filter, main_filter, deploys_filter, signatures_filter,
}
use casper_sidecar.EventStream.Subscribe.{
  query_field, path_to_filter, get_filter, HttpResponse, create_404, create_422, create_503, Query,
  get, UrlProps, Subscription, unwrap_path, parse_query, parse_url_props, validate,
  serve_sse_response_handler,
}

-- The filters of an endpoint, and whether it is a legacy one.
abbrev pub filters_of : Endpoint → List EventFilter × Bool
filters_of Endpoint.events = (events_filter, false)
filters_of main = (main_filter, true)
filters_of deploys = (deploys_filter, true)
filters_of sigs = (signatures_filter, true)

abbrev pub map_filters : Option Endpoint → Option (List EventFilter × Bool)
map_filters none = none
map_filters (some e) = some (filters_of e)

get_filter_lem :
    (path : String) (legacy : Bool)
    → get_filter path legacy ≡ map_filters (path_to_filter path legacy)
unfolding get_filter path_to_filter
get_filter_lem path legacy = ground arith

-- The reply, by what the parts of the request are: the path first, then the query.
abbrev pub props_for :
    (parse_id : String → Option ℕ)
    → (legacy : Bool) → Option Endpoint
    → Query
    → Result UrlProps HttpResponse
props_for parse_id legacy none query = err (create_404 legacy)
props_for parse_id legacy (some endpoint) query = do
  start ← parse_query parse_id query
  ok (record {
    event_filter = (filters_of endpoint).0;
    stream_filter = endpoint;
    start_from = start;
    is_legacy_filter = (filters_of endpoint).1;
  })

parse_url_props_lem :
    (parse_id : String → Option ℕ) (path : Option String) (query : Query) (legacy : Bool)
    → parse_url_props parse_id path query legacy
      ≡ props_for parse_id legacy (path_to_filter (unwrap_path path) legacy) query
unfolding parse_url_props
parse_url_props_lem parse_id path query legacy =
    elim (Option-cases (path_to_filter (unwrap_path path) legacy)) [
      | inl h ↦ rw (get_filter_lem (unwrap_path path) legacy, h, parse_url_props) refl
      | inr (e, h) ↦ rw (get_filter_lem (unwrap_path path) legacy, h, h, parse_url_props) refl
    ]

parse_query-fails :
    (parse_id : String → Option ℕ) (query : Query)
    → FailsWith (λ e. e ≡ create_422) (parse_query parse_id query)
unfolding parse_query
parse_query-fails parse_id [] = tt
parse_query-fails parse_id (q ∷ query) = elim (Bool-cases (ltb 1 (length (q ∷ query)))) [
  | inl h ↦ rw (h, parse_query) refl
  | inr h ↦ elim (Option-cases (get (q ∷ query) query_field)) [
    | inl g ↦ rw (h, g, parse_query) refl
    | inr (text, g) ↦ elim (Option-cases (parse_id text)) [
      | inl p ↦ rw (h, g, p, parse_query) refl
      | inr (id, p) ↦ rw (h, g, p, parse_query) tt
    ]
  ]
]

-- Does a path name this endpoint? No path is the root path; the others are there for legacy clients.
abbrev pub Names : (legacy : Bool) → (path : Option String) → Endpoint → Type 0
Names legacy path Endpoint.events = (path ≡ none) ⊎ (path ≡ some "events")
Names legacy path main = (path ≡ some "main") × (legacy ≡ true)
Names legacy path deploys = (path ≡ some "deploys") × (legacy ≡ true)
Names legacy path sigs = (path ≡ some "sigs") × (legacy ≡ true)

path_to_filter-Names :
    (legacy : Bool) (path : Option String) (e : Endpoint)
    → path_to_filter (unwrap_path path) legacy ≡ some e
    → Names legacy path e
unfolding path_to_filter
path_to_filter-Names legacy none Endpoint.events h = inl refl
path_to_filter-Names legacy none main h = ground arith
path_to_filter-Names legacy none deploys h = ground arith
path_to_filter-Names legacy none sigs h = ground arith
path_to_filter-Names legacy (some p) Endpoint.events h =
    ground (
      arith,
      str_eq_iff p "events",
      str_eq_iff p "main",
      str_eq_iff p "deploys",
      str_eq_iff p "sigs",
    )
path_to_filter-Names legacy (some p) main h =
    ground (
      arith,
      str_eq_iff p "events",
      str_eq_iff p "main",
      str_eq_iff p "deploys",
      str_eq_iff p "sigs",
    )
path_to_filter-Names legacy (some p) deploys h =
    ground (
      arith,
      str_eq_iff p "events",
      str_eq_iff p "main",
      str_eq_iff p "deploys",
      str_eq_iff p "sigs",
    )
path_to_filter-Names legacy (some p) sigs h =
    ground (
      arith,
      str_eq_iff p "events",
      str_eq_iff p "main",
      str_eq_iff p "deploys",
      str_eq_iff p "sigs",
    )

path_to_filter_of :
    (legacy : Bool) (path : Option String) (e : Endpoint)
    → Names legacy path e
    → path_to_filter (unwrap_path path) legacy ≡ some e
unfolding path_to_filter
path_to_filter_of legacy path Endpoint.events (inl h) = rw h refl
path_to_filter_of legacy path Endpoint.events (inr h) = rw h refl
path_to_filter_of legacy path main (h, l) = rw (h, l) refl
path_to_filter_of legacy path deploys (h, l) = rw (h, l) refl
path_to_filter_of legacy path sigs (h, l) = rw (h, l) refl

-- Does a query ask for this start? It is empty, or one `start_from` with an id.
abbrev pub Asks : (parse_id : String → Option ℕ) → Query → (start : Option ℕ) → Type 0
Asks parse_id query none = query ≡ []
Asks parse_id query (some id) =
    (text : String) × (query ≡ ("start_from", text) ∷ []) × (parse_id text ≡ some id)

parse_query-Asks :
    (parse_id : String → Option ℕ) (query : Query) (start : Option ℕ)
    → parse_query parse_id query ≡ ok start
    → Asks parse_id query start
unfolding parse_query get
parse_query-Asks parse_id [] none h = refl
parse_query-Asks parse_id [] (some id) h = cc
parse_query-Asks parse_id ((k, v) ∷ []) none h = ground arith
parse_query-Asks parse_id ((k, v) ∷ []) (some id) h =
    (v, ground (arith, str_eq_iff k "start_from"), ground arith)
parse_query-Asks parse_id (p ∷ q ∷ query) start h = ground arith

parse_query_of :
    (parse_id : String → Option ℕ) (query : Query) (start : Option ℕ)
    → Asks parse_id query start
    → parse_query parse_id query ≡ ok start
unfolding parse_query get
parse_query_of parse_id query none h = rw h refl
parse_query_of parse_id query (some id) (text, h, p) = rw (h, p) refl

-- The ways to answer a request, each with what it says of the request.
pub data Answer (parse_id : String → Option ℕ) (path : Option String) (query : Query)
    (receivers limit : ℕ) (legacy : Bool) : Result Subscription HttpResponse → Type 0 where
  full : limit ≤ receivers → Answer parse_id path query receivers limit legacy (err create_503)
  unknown_path :
      receivers < limit
      → ((e : Endpoint) → ¬ Names legacy path e)
      → Answer parse_id path query receivers limit legacy (err (create_404 legacy))
  bad_query :
      (e : Endpoint)
      → receivers < limit
      → Names legacy path e
      → ((start : Option ℕ) → ¬ Asks parse_id query start)
      → Answer parse_id path query receivers limit legacy (err create_422)
  served :
      (e : Endpoint) (start : Option ℕ)
      → receivers < limit
      → Names legacy path e
      → Asks parse_id query start
      → Answer parse_id path query receivers limit legacy (
          ok (record {
            start_from = start;
            enable_legacy_filters = legacy;
            props = record {
              event_filter = (filters_of e).0;
              stream_filter = e;
              start_from = start;
              is_legacy_filter = (filters_of e).1;
            };
          }))

leb-cases : (a b : ℕ) → ((leb a b ≡ true) × (a ≤ b)) ⊎ ((leb a b ≡ false) × (b < a))
leb-cases a b = ground arith

-- Every request is answered in exactly the one way that fits it: 503 when the limit of subscribers is
-- reached, else 404 when the path names no endpoint, else 422 when the query is not empty and not one
-- `start_from` with an id, else it is served with the filters of its endpoint from the requested id.
pub serve_sse_response_handler-Answer :
    (parse_id : String → Option ℕ) (path : Option String) (query : Query) (receivers limit : ℕ)
    (legacy : Bool)
    → Answer parse_id path query receivers limit legacy
        (serve_sse_response_handler parse_id path query receivers limit legacy)
unfolding serve_sse_response_handler validate
serve_sse_response_handler-Answer parse_id path query receivers limit legacy =
    elim (leb-cases limit receivers) [
      | inl (h, le) ↦ rw (h, serve_sse_response_handler, validate) (full le)
      | inr (h, lt) ↦ elim (Option-cases (path_to_filter (unwrap_path path) legacy)) [
        | inl p ↦
            rw
              (
                h,
                parse_url_props_lem parse_id path query legacy,
                p,
                serve_sse_response_handler,
                validate,
              )
              (unknown_path lt (λ e n. cc (p, path_to_filter_of legacy path e n)))
        | inr (e, p) ↦ elim (Result-cases (parse_query parse_id query)) [
          | inl (start, q) ↦
              rw
                (
                  h,
                  parse_url_props_lem parse_id path query legacy,
                  p,
                  q,
                  serve_sse_response_handler,
                  validate,
                )
                (served e start lt (path_to_filter-Names legacy path e p)
                  (parse_query-Asks parse_id query start q))
          | inr (bad, q) ↦
              let is_422 =
                FailsWith-elim (λ e. e ≡ create_422) (parse_query-fails parse_id query) q in
              rw
                (
                  h,
                  parse_url_props_lem parse_id path query legacy,
                  p,
                  q,
                  is_422,
                  serve_sse_response_handler,
                  validate,
                )
                (bad_query e lt (path_to_filter-Names legacy path e p)
                  (λ start a. cc (q, parse_query_of parse_id query start a)))
        ]
      ]
    ]
