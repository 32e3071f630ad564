-- ===== src/JsonRpc/Filters/Status.antt =====
-- The HTTP status of rejections in json_rpc/src/filters.rs, and of whole requests.
use casper_sidecar.Prelude.{ℕ, String, ◌≡◌, refl, ◌≢◌, Bool, false, none, some, arith}
use casper_sidecar.JsonRpc.Error.{ReservedErrorCode-code, RpcErrorCode-code}
use casper_sidecar.JsonRpc.Filters.{
  Kind, missing_id_kind, body_too_large_kind, method_not_allowed, invalid_header, missing_header,
  invalid_query, missing_cookie, length_required, payload_too_large, unsupported_media_type,
  cors_forbidden, Warp, body_too_large_text, missing_id_text, base_filter, handle_rejection, Serde,
  message_reply, Routed, handle_body, route,
}
use casper_sidecar.JsonRpc.Handlers.{Governor, RequestHandlers}
use casper_sidecar.JsonRpc.Json.{Fields}
use casper_sidecar.Prelude.Result.{ok, err}
use casper_sidecar.JsonRpc.Request.Notification.{IsNotification, rejected_iff}

-- The status that the ladder of `handle_rejection` gives to a rejection with this cause.
abbrev pub status_of : Kind → ℕ
status_of missing_id_kind = 400
status_of body_too_large_kind = 413
status_of method_not_allowed = 405
status_of invalid_header = 400
status_of missing_header = 415
status_of invalid_query = 400
status_of missing_cookie = 400
status_of length_required = 411
status_of payload_too_large = 413
status_of unsupported_media_type = 415
status_of cors_forbidden = 403

module _ {Req Rej : Type 0} (warp : Warp Req Rej) where
  -- A rejection with one cause is answered by that cause's text and status.
  pub handle_rejection_cause :
      (k : Kind) (message : String) (rej : Rej)
      → ((j : Kind) → j ≢ k → warp.find j rej ≡ none)
      → warp.is_not_found rej ≡ false
      → warp.find k rej ≡ some message
      → handle_rejection warp rej ≡ (message, status_of k)
  unfolding handle_rejection
  handle_rejection_cause missing_id_kind m rej others there e = rw e refl
  handle_rejection_cause k m rej others there e = ground (
    arith,
    others missing_id_kind,
    others body_too_large_kind,
    others method_not_allowed,
    others invalid_header,
    others missing_header,
    others invalid_query,
    others missing_cookie,
    others length_required,
    others payload_too_large,
    others unsupported_media_type,
    others cors_forbidden,
  )

  -- What the documentation of warp says of `reject::custom`: the cause is found again, and no other.
  pub record CustomLaws : Type 0 where
    pub found : (k : Kind) (text : String) → warp.find k (warp.custom k text) ≡ some text
    pub others : (k j : Kind) (text : String) → j ≢ k → warp.find j (warp.custom k text) ≡ none
    pub is_found : (k : Kind) (text : String) → warp.is_not_found (warp.custom k text) ≡ false

  -- A rejection that the program makes itself is answered by its text and its status.
  pub handle_rejection-custom :
      (laws : CustomLaws) (k : Kind) (text : String)
      → handle_rejection warp (warp.custom k text) ≡ (text, status_of k)
  handle_rejection-custom laws k text =
      handle_rejection_cause k text (warp.custom k text) (λ j ne. laws.others k j text ne)
        (laws.is_found k text) (laws.found k text)

module _ {Req Rej W Q L N B : Type 0} (governor : Governor Q L) (serde : Serde N B)
    (warp : Warp Req Rej) (laws : CustomLaws warp) (path : String) (max : ℕ) (allow : Bool)
    (now : ℕ) (handlers : RequestHandlers W L N) (req : Req) (body : B) (w : W) where
  abbrev pub routed : Routed W L N
  routed = route governor serde warp path max allow now handlers req body w

  -- A request to the right path, by POST and with the right content type, whose body is too long is
  -- answered with status 413 and reaches no handler.
  pub route-too_large :
      (r : Rej)
      → warp.path path req ≡ ok tt
      → warp.path_end req ≡ ok tt
      → warp.post req ≡ ok tt
      → warp.exact_ignore_case "content-type" "application/json" req ≡ ok tt
      → warp.content_length_limit max req ≡ err r
      → routed ≡ record {
        reply = message_reply (body_too_large_text warp max) 413;
        handlers = handlers;
        world = w;
      }
  unfolding route
  route-too_large r a b c d e =
      rw (a, b, c, d, e, route) (rw (handle_rejection-custom warp laws body_too_large_kind) refl)

  -- A notification that passes the base filter is answered with status 400 and no JSON-RPC response,
  -- and reaches no handler. A notification is an object without an id whose version, method and
  -- params are valid.
  pub route-notification :
      (fs : Fields N)
      → base_filter warp path max req ≡ ok tt
      → serde.from_slice body ≡ ok fs
      → IsNotification fs
      → routed ≡ record {
        reply = message_reply (missing_id_text warp) 400;
        handlers = handlers;
        world = w;
      }
  unfolding handle_body
  route-notification fs a b c =
      unfold route in
      rw (a, b, (rejected_iff serde.numbers fs allow).1 c, route)
        (rw (handle_rejection-custom warp laws missing_id_kind) refl)
