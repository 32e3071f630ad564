-- ===== src/JsonRpc/Request/Notification.antt =====
-- Which requests `Request::new` of json_rpc/src/request.rs rejects as notifications.
use casper_sidecar.Prelude.{String, ◌≡◌, refl, subst, ◌↔◌, Bool, Option, none, some}
use casper_sidecar.Prelude.Result.{Result, ok, err, ◌>>=◌, ◌>>◌, FailsWith}
use casper_sidecar.JsonRpc.Json.{Value, string, Fields, get, keys}
use casper_sidecar.JsonRpc.Params.{missing_id, ErrorOrRejection, rejection, Params}
use casper_sidecar.JsonRpc.Request.{
  JsonNumbers, Request, check_jsonrpc, check_method, check_params, take_id, check_unknown, or_null,
  new_request,
}
use casper_sidecar.JsonRpc.Request.Laws.{
  ParamsOf, check_jsonrpc-ok, check_method-ok, check_params-ok, without_all, new_request-eq,
}
use casper_sidecar.JsonRpc.Request.Failures.{
  IsFailureFor, check_jsonrpc-fails, check_method-fails, check_params-fails, new_request_fails,
}

-- A request object without an id that is otherwise as the specification has it; fields that are
-- not known make no difference.
pub record IsNotification {N : Type 0} (fs : Fields N) : Type 0 where
  pub version : get "jsonrpc" fs ≡ some (string "2.0")
  pub method : String
  pub named : get "method" fs ≡ some (string method)
  pub params : Option (Params N)
  pub given : ParamsOf (get "params" fs) params
  pub unidentified : get "id" fs ≡ none

module _ {N : Type 0} (version : Result (Unit {0}) (ErrorOrRejection N))
    (method : Result String (ErrorOrRejection N))
    (params : Result (Option (Params N)) (ErrorOrRejection N))
    (id : Result (Value N) (ErrorOrRejection N))
    (known : Value N → Result (Unit {0}) (ErrorOrRejection N)) where
  -- The checks one after the other.
  abbrev checks : Result (Request N) (ErrorOrRejection N)
  checks = do
    version
    m ← method
    p ← params
    i ← id
    known i
    ok (record { id = i; method = m; params = p })

  checks_of_no_id :
      (m : String) (p : Option (Params N)) (f : ErrorOrRejection N)
      → version ≡ ok tt
      → method ≡ ok m
      → params ≡ ok p
      → id ≡ err f
      → checks ≡ err f
  checks_of_no_id m p f a b c d = rw (a, b, c, d) refl

-- The checks reject a request only after the first three were passed, if none of these rejects.
rejected_late :
    {N : Type 0} (P : ErrorOrRejection N → Type 0)
    (version : Result (Unit {0}) (ErrorOrRejection N)) (method : Result String (ErrorOrRejection N))
    (params : Result (Option (Params N)) (ErrorOrRejection N))
    (id : Result (Value N) (ErrorOrRejection N))
    (known : Value N → Result (Unit {0}) (ErrorOrRejection N))
    → ¬ P (rejection missing_id)
    → FailsWith P version
    → FailsWith P method
    → FailsWith P params
    → checks version method params id known ≡ err (rejection missing_id)
    → (version ≡ ok tt)
      × ((m : String) × (method ≡ ok m))
      × ((p : Option (Params N)) × (params ≡ ok p))
rejected_late P (err e) method params id known never v m p h =
    let same : e ≡ rejection missing_id = cc in absurd (never (subst P same v))
rejected_late P (ok u) (err e) params id known never v m p h =
    let same : e ≡ rejection missing_id = cc in absurd (never (subst P same m))
rejected_late P (ok u) (ok a) (err e) id known never v m p h =
    let same : e ≡ rejection missing_id = cc in absurd (never (subst P same p))
rejected_late P (ok u) (ok a) (ok b) id known never v m p h = (refl, (a, refl), (b, refl))

module _ {N : Type 0} (numbers : JsonNumbers N) (fs : Fields N) (allow : Bool) where
  -- The id that errors are reported under.
  abbrev id_field : Value N
  id_field = or_null numbers (get "id" fs)

  -- What the first checks report of a request without an id is an error.
  abbrev IsError : ErrorOrRejection N → Type 0
  IsError = IsFailureFor numbers (some id_field)

  take_none : get "id" fs ≡ none → take_id numbers (get "id" fs) ≡ err (rejection missing_id)
  take_none h = unfold take_id in rw h refl

  of_notification : IsNotification fs → new_request numbers fs allow ≡ err (rejection missing_id)
  of_notification n = rw new_request-eq (
      checks_of_no_id (check_jsonrpc numbers id_field (get "jsonrpc" fs))
        (check_method numbers id_field (get "method" fs))
        (check_params numbers id_field (get "params" fs)) (take_id numbers (get "id" fs))
        (λ i. check_unknown numbers allow i (keys (without_all numbers fs))) n.method n.params
        (rejection missing_id) ((check_jsonrpc-ok numbers _ _).1 n.version)
        ((check_method-ok numbers _ _ n.method).1 n.named)
        ((check_params-ok numbers _ _ n.params).1 n.given) (take_none n.unidentified))

  to_notification : new_request numbers fs allow ≡ err (rejection missing_id) → IsNotification fs
  to_notification h =
      let absent = new_request_fails numbers fs allow (rejection missing_id) h in
      let (v, m, p) =
        rejected_late IsError (check_jsonrpc numbers id_field (get "jsonrpc" fs))
          (check_method numbers id_field (get "method" fs))
          (check_params numbers id_field (get "params" fs)) (take_id numbers (get "id" fs))
          (λ i. check_unknown numbers allow i (keys (without_all numbers fs))) (λ e. cc)
          (check_jsonrpc-fails numbers (some id_field) _)
          (check_method-fails numbers (some id_field) _)
          (check_params-fails numbers (some id_field) _) (rw new_request-eq at h) in
      record {
        version = (check_jsonrpc-ok numbers _ _).0 v;
        method = m.0;
        named = (check_method-ok numbers _ _ m.0).0 m.1;
        params = p.0;
        given = (check_params-ok numbers _ _ p.0).0 p.1;
        unidentified = absent;
      }

  -- A request is rejected exactly if it is a notification.
  pub rejected_iff : (new_request numbers fs allow ≡ err (rejection missing_id)) ↔ IsNotification fs
  rejected_iff = (to_notification, of_notification)
