-- ===== src/EventStream/Subscribe.antt =====
-- A subscription request in event_sidecar/src/event_stream_server/sse_server.rs: the path, the query, the replies.
pub mod Laws
use casper_sidecar.Prelude.{
  ltb, leb, if◌then◌else◌, length, is_empty, ℕ, String, Bool, true, false, ◌&&◌, Option, none, some,
  List, [], ◌∷◌, str_eq,
}
use casper_sidecar.Prelude.Result.{Result, ok, err, ◌>>=◌, ◌>>◌}
use casper_sidecar.Prelude.Text.{format}
use casper_sidecar.Types.SseData.{events, EventFilter}
use casper_sidecar.EventStream.Event.{
  Endpoint, main, deploys, sigs, events_filter, main_filter, deploys_filter, signatures_filter,
}

abbrev pub sse_api_root_path : String
sse_api_root_path = "events"

abbrev pub sse_api_main_path : String
sse_api_main_path = "main"

abbrev pub sse_api_deploys_path : String
sse_api_deploys_path = "deploys"

abbrev pub sse_api_signatures_path : String
sse_api_signatures_path = "sigs"

abbrev pub query_field : String
query_field = "start_from"

-- The arms of the `match path_param`, in their order.
abbrev pub match_path {ℓ} :
    {A : Type ℓ}
    → (path_param : String) → (enable_legacy_filters : Bool)
    → (root main_arm deploys_arm sigs_arm : A) → Option A
match_path path_param enable_legacy_filters root main_arm deploys_arm sigs_arm =
    if str_eq path_param sse_api_root_path
    then some root
    else (if str_eq path_param sse_api_main_path && enable_legacy_filters
        then some main_arm
        else (if str_eq path_param sse_api_deploys_path && enable_legacy_filters
            then some deploys_arm
            else (if str_eq path_param sse_api_signatures_path && enable_legacy_filters
                then some sigs_arm
                else none)))

unfoldable pub path_to_filter :
    (path_param : String) → (enable_legacy_filters : Bool) → Option Endpoint
path_to_filter path_param enable_legacy_filters =
    match_path path_param enable_legacy_filters Endpoint.events main deploys sigs

unfoldable pub get_filter :
    (path_param : String) → (enable_legacy_filters : Bool) → Option (List EventFilter × Bool)
get_filter path_param enable_legacy_filters =
    match_path path_param enable_legacy_filters (events_filter, false) (main_filter, true)
      (deploys_filter, true) (signatures_filter, true)

pub record HttpResponse : Type 0 where
  pub status : ℕ
  pub body : String

unfoldable pub create_404 : (enable_legacy_filters : Bool) → HttpResponse
unfolding format
create_404 enable_legacy_filters = record {
  status = 404;
  body =
      if enable_legacy_filters
      then format (
          "invalid path: expected '/" ∷ sse_api_root_path ∷ "/" ∷ sse_api_main_path ∷ "', '/"
          ∷ sse_api_root_path ∷ "/" ∷ sse_api_deploys_path ∷ "' or '/" ∷ sse_api_root_path ∷ "/"
          ∷ sse_api_signatures_path ∷ "'\n" ∷ [])
      else format
          ("invalid path: expected '/" ∷ sse_api_root_path ∷ "/" ∷ sse_api_main_path ∷ "'\n" ∷ []);
}

unfoldable pub create_422 : HttpResponse
unfolding format
create_422 = record {
  status = 422;
  body = format ("invalid query: expected single field '" ∷ query_field ∷ "=<EVENT ID>'\n" ∷ []);
}

unfoldable pub create_503 : HttpResponse
create_503 = record { status = 503; body = "server has reached limit of subscribers" }

-- The query, a map: a list of pairs with distinct keys.
abbrev pub Query : Type 0
Query = List (String × String)

unfoldable pub get : Query → String → Option String
get [] field = none
get ((k, v) ∷ query) field = if str_eq k field then some v else get query field

pub record UrlProps : Type 0 where
  pub event_filter : List EventFilter
  pub stream_filter : Endpoint
  pub start_from : Option ℕ
  pub is_legacy_filter : Bool

-- What a served request leaves behind: the message to the server and the arguments of the stream.
pub record Subscription : Type 0 where
  pub start_from : Option ℕ
  pub enable_legacy_filters : Bool
  pub props : UrlProps

abbrev pub unwrap_path : Option String → String
unwrap_path none = sse_api_root_path
unwrap_path (some path) = path

-- `str::parse::<u32>` is a parameter.
module _ (parse_id : String → Option ℕ) where
  unfoldable pub parse_query : Query → Result (Option ℕ) HttpResponse
  unfolding get create_422
  parse_query query =
      if is_empty query
      then ok none
      else (if ltb 1 (length query) then err create_422 else elim (get query query_field) [
        | none ↦ err create_422
        | some text ↦ elim (parse_id text) [ none ↦ err create_422 | some id ↦ ok (some id) ]
      ])

  unfoldable pub parse_url_props :
      (maybe_path_param : Option String)
      → Query
      → (enable_legacy_filters : Bool) → Result UrlProps HttpResponse
  unfolding get_filter path_to_filter parse_query create_404
  parse_url_props maybe_path_param query enable_legacy_filters =
      let path_param = unwrap_path maybe_path_param in
      elim (get_filter path_param enable_legacy_filters) [
        | none ↦ err (create_404 enable_legacy_filters)
        | some (event_filter, is_legacy_filter) ↦
            elim (path_to_filter path_param enable_legacy_filters) [
              | none ↦ err (create_404 enable_legacy_filters)
              | some stream_filter ↦ do
                start_from ← parse_query query
                ok (record {
                  event_filter = event_filter;
                  stream_filter = stream_filter;
                  start_from = start_from;
                  is_legacy_filter = is_legacy_filter;
                })
            ]
      ]

  unfoldable pub validate :
      (receiver_count : ℕ) → (max_concurrent_subscribers : ℕ) → Option HttpResponse
  unfolding create_503
  validate receiver_count max_concurrent_subscribers =
      if leb max_concurrent_subscribers receiver_count then some create_503 else none

  unfoldable pub serve_sse_response_handler :
      (maybe_path_param : Option String)
      → Query
      → (receiver_count : ℕ) → (max_concurrent_subscribers : ℕ) → (enable_legacy_filters : Bool)
      → Result Subscription HttpResponse
  unfolding validate parse_url_props
  serve_sse_response_handler maybe_path_param query receiver_count max_concurrent_subscribers
        enable_legacy_filters =
      elim (validate receiver_count max_concurrent_subscribers) [
        | some value ↦ err value
        | none ↦ do
          props ← parse_url_props maybe_path_param query enable_legacy_filters
          ok (record {
            start_from = props.start_from;
            enable_legacy_filters = enable_legacy_filters;
            props = props;
          })
      ]
