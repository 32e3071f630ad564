-- ===== src/JsonRpc/Filters.antt =====
-- json_rpc/src/filters.rs, rejections.rs and the `route` of lib.rs: from an HTTP request to its reply.
-- The filters and rejections of the `warp` crate are a parameter.
pub mod Laws
pub mod Status
mod Tests
use casper_sidecar.Prelude.{if◌then◌else◌, ℕ, String, Bool, Option, none, some, [], ◌∷◌}
use casper_sidecar.Prelude.Result.{Result, ok, err, ◌>>=◌, ◌>>◌, map_err}
use casper_sidecar.Prelude.Text.{format}
use casper_sidecar.Prelude.Decimal.{decimal}
use casper_sidecar.JsonRpc.Json.{null, string, Fields}
use casper_sidecar.JsonRpc.Error.{parse_error, ReservedErrorCode-code, RpcErrorCode-code, new_error}
use casper_sidecar.JsonRpc.Params.{RequestRejection, error, rejection}
use casper_sidecar.JsonRpc.Request.{JsonNumbers, new_request}
use casper_sidecar.JsonRpc.Response.{Response, new_failure}
use casper_sidecar.JsonRpc.Handlers.{Governor, RequestHandlers, Served, handle_request}

-- Which kinds of rejection `handle_rejection` looks for.
pub data Kind : Type 0 where
  missing_id_kind body_too_large_kind method_not_allowed invalid_header missing_header : Kind
  invalid_query missing_cookie length_required payload_too_large : Kind
  unsupported_media_type cors_forbidden : Kind

-- What the program uses of warp. `Req` is an HTTP request without its body, `Rej` a rejection.
-- `find k` is the `Display` text of the rejection's cause of kind `k`, if it has one.
pub record Warp (Req Rej : Type 0) : Type 0 where
  pub path : (path : String) → Req → Result (Unit {0}) Rej
  pub path_end : Req → Result (Unit {0}) Rej
  pub post : Req → Result (Unit {0}) Rej
  pub exact_ignore_case : (header value : String) → Req → Result (Unit {0}) Rej
  pub content_length_limit : (max : ℕ) → Req → Result (Unit {0}) Rej
  pub custom : Kind → (display : String) → Rej
  pub find : Kind → Rej → Option String
  pub is_not_found : Rej → Bool
  pub debug : Rej → String

-- One `else if let Some(rejection)` of `handle_rejection`: the message and the status, or the rest.
abbrev pub reply_or : Option String → (status : ℕ) → String × ℕ → String × ℕ
reply_or (some message) status rest = (message, status)
reply_or none status rest = rest

infixr 2 ◌$◌
abbrev ◌$◌ {ℓ κ} : {A : Type ℓ} {B : Type κ} → (A → B) → A → B
f $ x = f x

module _ {Req Rej : Type 0} (warp : Warp Req Rej) where
  -- `Display for BodyTooLarge` and `Display for MissingId`
  unfoldable pub body_too_large_text : ℕ → String
  unfolding format decimal
  body_too_large_text max =
      format ("The request payload exceeds the maximum allowed of " ∷ decimal max ∷ " bytes" ∷ [])

  abbrev pub missing_id_text : String
  missing_id_text = "The request is missing the 'id' field"

  -- `base_filter`: the filters in the order of the `and`s; a rejection of the last is replaced.
  unfoldable pub base_filter : (path : String) → (max_body_bytes : ℕ) → Req → Result (Unit {0}) Rej
  unfolding body_too_large_text
  base_filter path max_body_bytes req = do
    warp.path path req
    warp.path_end req
    warp.post req
    warp.exact_ignore_case "content-type" "application/json" req
    map_err (λ _. warp.custom body_too_large_kind (body_too_large_text max_body_bytes))
        (warp.content_length_limit max_body_bytes req)

  -- The `else if` ladder of `handle_rejection`: the reply's message and status.
  unfoldable pub handle_rejection : Rej → String × ℕ
  unfolding format
  handle_rejection rej =
      reply_or (warp.find missing_id_kind rej) 400
      $ reply_or (warp.find body_too_large_kind rej) 413
      $ reply_or (if warp.is_not_found rej then some "Path not found" else none) 404
      $ reply_or (warp.find method_not_allowed rej) 405
      $ reply_or (warp.find invalid_header rej) 400
      $ reply_or (warp.find missing_header rej) 415
      $ reply_or (warp.find invalid_query rej) 400
      $ reply_or (warp.find missing_cookie rej) 400
      $ reply_or (warp.find length_required rej) 411
      $ reply_or (warp.find payload_too_large rej) 413
      $ reply_or (warp.find unsupported_media_type rej) 415
      $ reply_or (warp.find cors_forbidden rej) 403
          (format ("Internal server error: unhandled rejection: " ∷ warp.debug rej ∷ []), 500)

-- What the server uses of its environment: bodies of type `B`, their length, and serde's parser.
pub record Serde (N B : Type 0) : Type 0 where
  pub numbers : JsonNumbers N
  pub from_slice : B → Result (Fields N) String
  pub len : B → ℕ

-- An HTTP reply: a JSON-RPC response with status 200, or the message of a rejection.
pub data Reply (N : Type 0) : Type 0 where
  json_reply : Response N → Reply N
  message_reply : (message : String) → (status : ℕ) → Reply N

-- What `route` leaves of one HTTP request.
pub record Routed (W L N : Type 0) : Type 0 where
  pub reply : Reply N
  pub handlers : RequestHandlers W L N
  pub world : W

module _ {W Q L N B : Type 0} (governor : Governor Q L) (serde : Serde N B) where
  -- `handle_body`; the handlers and the world change only where a handler is reached.
  unfoldable pub handle_body :
      (now : ℕ)
      → B
      → RequestHandlers W L N
      → (allow_unknown_fields : Bool) → W
      → Result (Served W L N) RequestRejection
  handle_body now body handlers allow_unknown_fields w = elim (serde.from_slice body) [
    | ok unvalidated ↦ elim (new_request serde.numbers unvalidated allow_unknown_fields) [
      | ok request ↦ ok (handle_request governor now handlers request (serde.len body) w)
      | err f ↦ elim f [
        | error id e ↦
            ok
              (record { response = new_failure id e; handlers = handlers; world = w; metrics = [] })
        | rejection r ↦ err r
      ]
    ]
    | err e ↦ ok (record {
      response = new_failure null (new_error parse_error (ok (string e)));
      handlers = handlers;
      world = w;
      metrics = [];
    })
  ]

  -- `route`: the base filter, the main filter and the recovery.
  unfoldable pub route :
      {Req Rej : Type 0}
      → (warp : Warp Req Rej) → (path : String) → (max_body_bytes : ℕ)
      → (allow_unknown_fields : Bool) → (now : ℕ) → RequestHandlers W L N
      → Req
      → B
      → W
      → Routed W L N
  unfolding base_filter
  route warp path max allow now handlers req body w = elim (base_filter warp path max req) [
    | err r ↦
        let (message, status) = handle_rejection warp r in
        record { reply = message_reply message status; handlers = handlers; world = w }
    | ok _ ↦ elim (handle_body now body handlers allow w) [
      | err _ ↦
          let (message, status) =
            handle_rejection warp (warp.custom missing_id_kind (missing_id_text warp)) in
          record { reply = message_reply message status; handlers = handlers; world = w }
      | ok s ↦ record { reply = json_reply s.response; handlers = s.handlers; world = s.world }
    ]
  ]
