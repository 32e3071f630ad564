-- ===== src/JsonRpc/Filters/Laws.antt =====
-- When the server of json_rpc/src/filters.rs answers a body, and with what.
use casper_sidecar.Prelude.{ℕ, String, ◌≡◌, refl, ap, inl, inr, Bool, some}
use casper_sidecar.Prelude.Int.{neg}
use casper_sidecar.Prelude.Result.{Result, ok, err, Result-cases}
use casper_sidecar.JsonRpc.Json.{Value, null, Fields}
use casper_sidecar.JsonRpc.Error.{
  Error, reserved_into, ReservedErrorCode-code, RpcErrorCode-code, new_error,
}
use casper_sidecar.JsonRpc.Params.{RequestRejection, missing_id, ErrorOrRejection, error, rejection}
use casper_sidecar.JsonRpc.Request.{Request, new_request}
use casper_sidecar.JsonRpc.Response.{new_failure, response_error, response_id}
use casper_sidecar.JsonRpc.Handlers.{Governor, RequestHandlers, Served, handle_request}
use casper_sidecar.JsonRpc.Filters.{Serde, handle_body}
use casper_sidecar.JsonRpc.Request.Laws.{Conforms, new_request_iff}
use casper_sidecar.JsonRpc.Request.Notification.{IsNotification, rejected_iff}
use casper_sidecar.JsonRpc.Request.Failures.{new_request_fails}
use casper_sidecar.JsonRpc.Handlers.Laws.{error_code, handle_request_id}

module _ {W Q L N B : Type 0} (governor : Governor Q L) (serde : Serde N B) (now : ℕ) (body : B)
    (handlers : RequestHandlers W L N) (allow : Bool) (w : W) where
  abbrev pub handled : Result (Served W L N) RequestRejection
  handled = handle_body governor serde now body handlers allow w

  -- Why a body that is refused or answered with an error was not handed to a handler.
  pub data Outcome : Result (Served W L N) RequestRejection → Type 0 where
    -- the body is no JSON object: the id is null and nothing has changed
    bad_json :
        {message : String} {s : Served W L N}
        → serde.from_slice body ≡ err message
        → response_id s.response ≡ null
        → error_code s.response ≡ some (neg 32700)
        → s.world ≡ w
        → s.handlers ≡ handlers
        → Outcome (ok s)
    -- a notification: no response
    notification :
        {fs : Fields N} {r : RequestRejection}
        → serde.from_slice body ≡ ok fs
        → IsNotification fs
        → Outcome (err r)
    -- an object that is no valid request and no notification: nothing has changed
    invalid_object :
        {fs : Fields N} {s : Served W L N}
        → serde.from_slice body ≡ ok fs
        → ¬ IsNotification fs
        → ((r : Request N) → ¬ Conforms serde.numbers allow fs r)
        → error_code s.response ≡ some (neg 32600)
        → s.world ≡ w
        → s.handlers ≡ handlers
        → Outcome (ok s)
    -- a valid request: the handlers' answer, under the request's id
    request :
        {fs : Fields N} {r : Request N} {s : Served W L N}
        → serde.from_slice body ≡ ok fs
        → Conforms serde.numbers allow fs r
        → s ≡ handle_request governor now handlers r (serde.len body) w
        → response_id s.response ≡ r.id
        → Outcome (ok s)

  not_conforming :
      (fs : Fields N) (f : ErrorOrRejection N)
      → new_request serde.numbers fs allow ≡ err f
      → (r : Request N) → ¬ Conforms serde.numbers allow fs r
  not_conforming fs f h r c = cc (h, (new_request_iff serde.numbers fs allow r).1 c)

  not-IsNotification :
      (fs : Fields N) (id : Value N) (e : Error N)
      → new_request serde.numbers fs allow ≡ err (error id e)
      → ¬ IsNotification fs
  not-IsNotification fs id e h n = cc (h, (rejected_iff serde.numbers fs allow).1 n)

  failed-Outcome :
      (fs : Fields N) (f : ErrorOrRejection N)
      → serde.from_slice body ≡ ok fs
      → new_request serde.numbers fs allow ≡ err f
      → Outcome handled
  unfolding handle_body response_error new_failure
  failed-Outcome fs (error id e) p h =
      rw (p, h, handle_body)
        (invalid_object p (not-IsNotification fs id e h) (not_conforming fs (error id e) h)
          (ap some (new_request_fails serde.numbers fs allow (error id e) h).0) refl refl)
  failed-Outcome fs (rejection missing_id) p h =
      rw (p, h, handle_body) (notification p ((rejected_iff serde.numbers fs allow).0 h))

  -- Every body has one of the four outcomes: what is no JSON object is answered with -32700 under the
  -- id null, a notification has no response, any other object that does not conform is answered
  -- with -32600, and a request that conforms is handed to the handlers and answered under its id.
  -- Only the handlers change anything. A notification is an object without an id whose version,
  -- method and params are valid.
  pub handle_body-Outcome : Outcome handled
  handle_body-Outcome = elim (Result-cases (serde.from_slice body)) [
    | inr (message, p) ↦
        unfold handle_body new_error new_failure response_id response_error reserved_into in
        rw (p, handle_body) (bad_json p refl refl refl refl)
    | inl (fs, p) ↦ elim (Result-cases (new_request serde.numbers fs allow)) [
      | inr (f, h) ↦ failed-Outcome fs f p h
      | inl (r, h) ↦
          unfold handle_body in
          rw (p, h, handle_body)
            (request p ((new_request_iff serde.numbers fs allow r).0 h) refl
              (handle_request_id governor now handlers r (serde.len body) w))
    ]
  ]
