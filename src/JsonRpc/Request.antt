-- ===== src/JsonRpc/Request.antt =====
-- json_rpc/src/request.rs: validation of a request object.
pub mod Laws
pub mod Failures
pub mod Notification
use casper_sidecar.Prelude.{
  if◌then◌else◌, is_empty, String, Bool, not, ◌&&◌, Option, none, some, List, [], ◌∷◌, str_eq,
}
use casper_sidecar.Prelude.Result.{Result, ok, err, ◌>>=◌, ◌>>◌, map_err}
use casper_sidecar.Prelude.Text.{format, join}
use casper_sidecar.JsonRpc.Json.{Value, null, number, string, Fields, get, without, keys}
use casper_sidecar.JsonRpc.Error.{ReservedErrorCode-code, RpcErrorCode-code, Error}
use casper_sidecar.JsonRpc.Params.{
  missing_id, ErrorOrRejection, error, rejection, Params, invalid, try_from,
}

-- What the validation uses of `serde_json`: `Number::is_f64` and the `Display` of numbers and values.
pub record JsonNumbers (N : Type 0) : Type 0 where
  pub is_f64 : N → Bool
  pub display_number : N → String
  pub display_value : Value N → String

pub record Request (N : Type 0) : Type 0 where
  pub id : Value N
  pub method : String
  pub params : Option (Params N)

module _ {N : Type 0} (numbers : JsonNumbers N) where
  open numbers use {is_f64, display_number, display_value}

  abbrev pub Checked : Type 0 → Type 0
  Checked A = Result A (ErrorOrRejection N)

  -- `is_valid`
  unfoldable pub check_id : Value N → Result (Unit {0}) (Error N)
  check_id (string _) = ok tt
  check_id null = ok tt
  check_id (number n) =
      if is_f64 n
      then err (invalid "'id' must not contain fractional parts if it is a number")
      else ok tt
  check_id _ = err (invalid "'id' should be a string or integer")

  -- The `match` on `request.remove("jsonrpc")`.
  unfoldable pub check_jsonrpc : (id : Value N) → Option (Value N) → Checked (Unit {0})
  unfolding format
  check_jsonrpc id (some (string jsonrpc)) =
      if str_eq jsonrpc "2.0"
      then ok tt
      else err (
          error id
            (invalid (format ("Expected 'jsonrpc' to be '2.0', but got '" ∷ jsonrpc ∷ "'" ∷ []))))
  check_jsonrpc id (some (number jsonrpc)) = err (
      error id (
        invalid (
          format (
            "Expected 'jsonrpc' to be a String with value '2.0', but got a Number '"
            ∷ display_number jsonrpc
            ∷ "'"
            ∷ []))))
  check_jsonrpc id (some jsonrpc) = err (
      error id (
        invalid (
          format (
            "Expected 'jsonrpc' to be a String with value '2.0', but got '"
            ∷ display_value jsonrpc
            ∷ "'"
            ∷ []))))
  check_jsonrpc id none =
      err (error id (invalid (format ("Missing '" ∷ "jsonrpc" ∷ "' field" ∷ []))))

  unfoldable pub check_method : (id : Value N) → Option (Value N) → Checked String
  unfolding format
  check_method id (some (string method)) = ok method
  check_method id (some _) =
      err (error id (invalid (format ("Expected '" ∷ "method" ∷ "' to be a String" ∷ []))))
  check_method id none = err (error id (invalid (format ("Missing '" ∷ "method" ∷ "' field" ∷ []))))

  unfoldable pub check_params : (id : Value N) → Option (Value N) → Checked (Option (Params N))
  unfolding try_from
  check_params id (some unvalidated) = do params ← try_from id unvalidated; ok (some params)
  check_params id none = ok none

  -- An id of the wrong form is not sent back: the error's id is `null`.
  unfoldable pub take_id : Option (Value N) → Checked (Value N)
  unfolding check_id
  take_id (some id) = do map_err (error null) (check_id id); ok id
  take_id none = err (rejection missing_id)

  abbrev plural : List String → String
  plural (_ ∷ _ ∷ _) = "s"
  plural _ = ""

  abbrev quoted : List String → List String
  quoted [] = []
  quoted (f ∷ fs) = format ("'" ∷ f ∷ "'" ∷ []) ∷ quoted fs

  unfoldable pub check_unknown : Bool → (id : Value N) → List String → Checked (Unit {0})
  unfolding format join
  check_unknown allow_unknown_fields id rest =
      if not allow_unknown_fields && not (is_empty rest)
      then err (
          error id (
            invalid
              (format ("Unexpected field" ∷ plural rest ∷ ": " ∷ join ", " (quoted rest) ∷ []))))
      else ok tt

  abbrev pub or_null : Option (Value N) → Value N
  or_null (some v) = v
  or_null none = null

  -- `Request::new`. Each `remove` is a look-up and what `without` leaves.
  unfoldable pub new_request : Fields N → (allow_unknown_fields : Bool) → Checked (Request N)
  unfolding check_jsonrpc check_method check_params take_id check_unknown
  new_request request allow_unknown_fields = do
    let id = or_null (get "id" request)
    check_jsonrpc id (get "jsonrpc" request)
    let request = without "jsonrpc" request
    method ← check_method id (get "method" request)
    let request = without "method" request
    params ← check_params id (get "params" request)
    let request = without "params" request
    id ← take_id (get "id" request)
    let request = without "id" request
    check_unknown allow_unknown_fields id (keys request)
    ok (record { id = id; method = method; params = params })
