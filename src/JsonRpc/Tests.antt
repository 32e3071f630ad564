-- ===== src/JsonRpc/Tests.antt =====
-- The theorems on json_rpc/src at concrete requests.
use casper_sidecar.JsonRpc.Filters.Laws.{handled, Outcome, handle_body-Outcome}
use casper_sidecar.JsonRpc.Handlers.Laws.{
  served, Answers, handle_request-Answers, handle_request_id,
}
use casper_sidecar.Prelude.{
  ℕ, zero, suc, ◌≡◌, refl, ◌↔◌, ◌⊎◌, Bool, true, false, Option, none, some, [], ◌∷◌,
}
use casper_sidecar.Prelude.Int.{neg}
use casper_sidecar.Prelude.Result.{ok, err}
use casper_sidecar.JsonRpc.Json.{
  Value, null, bool, number, string, array, nil, Fields, end, field, get, without, keys,
}
use casper_sidecar.JsonRpc.Error.{
  invalid_request, reserved_into, ErrorCode, ReservedErrorCode-code, RpcErrorCode-code,
  in_reserved_range, new_error,
}
use casper_sidecar.JsonRpc.Params.{error, try_from, to_value, default_params}
use casper_sidecar.JsonRpc.Request.{
  JsonNumbers, Request, check_id, check_jsonrpc, check_method, check_params, take_id, check_unknown,
  new_request,
}
use casper_sidecar.JsonRpc.Request.Laws.{Conforms, new_request_iff}
use casper_sidecar.JsonRpc.Handlers.{Governor, Handler, RequestHandlers}
use casper_sidecar.JsonRpc.Filters.{Serde}
use casper_sidecar.JsonRpc.Response.{response_id}
use casper_sidecar.JsonRpc.Request.Failures.{IsFailureFor, new_request_fails}
use casper_sidecar.JsonRpc.Error.Laws.{ErrorOf, new_error-ErrorOf, new_error_code}
use casper_sidecar.JsonRpc.Params.Laws.{try_from_iff}

-- Numbers are Booleans here: is it a fraction?
abbrev numbers : JsonNumbers Bool
numbers = record { is_f64 = λ n. n; display_number = λ n. "1"; display_value = λ v. "value" }

-- A limiter that admits as many requests as its quota.
abbrev governor : Governor ℕ ℕ
governor = record {
  direct = λ quota. quota;
  check = λ now left. elim left [ zero ↦ (0, some "1.0000") | suc n ↦ (n, none) ];
}

-- A body is an object already parsed, or none.
abbrev serde : Serde Bool (Option (Fields Bool))
serde = record {
  numbers = numbers;
  from_slice = λ body. elim body [ none ↦ err "expected value" | some fs ↦ ok fs ];
  len = λ body. 60;
}

abbrev fields : Fields Bool
fields =
    field "jsonrpc" (string "2.0")
      (field "method" (string "info_get_status") (field "id" (number false) end))

abbrev request : Request Bool
request = record { id = number false; method = "info_get_status"; params = none }

abbrev without_id : Fields Bool
without_id = field "jsonrpc" (string "2.0") (field "method" (string "info_get_status") end)

abbrev wrong_version : Fields Bool
wrong_version = field "jsonrpc" (string "1.0") (field "id" (number false) end)

-- Counts its calls.
abbrev count_call : Handler ℕ (Value Bool) Bool
count_call params calls = (ok (bool true), suc calls)

abbrev handlers : RequestHandlers ℕ ℕ Bool
handlers = ("info_get_status", (count_call, 3)) ∷ []

accepts_fields : new_request numbers fields false ≡ ok request
unfolding new_request check_jsonrpc check_method check_params take_id check_unknown check_id get
    without keys
accepts_fields = refl

new_request_iff_example :
    (new_request numbers fields false ≡ ok request) ↔ Conforms numbers false fields request
new_request_iff_example = new_request_iff numbers fields false request

abbrev no_method : Fields Bool
no_method = field "jsonrpc" (string "2.0") (field "id" (number false) end)

refused :
    new_request numbers no_method false
    ≡ err (error (number false) (new_error invalid_request (ok (string "Missing 'method' field"))))
unfolding new_request check_jsonrpc check_method get without
refused = refl

refuses_version :
    new_request numbers wrong_version false
    ≡ err (
        error (number false) (record {
          code = neg 32600;
          message = "Invalid Request";
          data_field = some (string "Expected 'jsonrpc' to be '2.0', but got '1.0'");
        }))
unfolding new_request check_jsonrpc check_id get new_error reserved_into
refuses_version = refl

new_request_fails_example :
    IsFailureFor numbers
      (some (number false))
      (error (number false) (new_error invalid_request (ok (string "Missing 'method' field"))))
unfolding get
new_request_fails_example =
    new_request_fails numbers no_method false
      (error (number false) (new_error invalid_request (ok (string "Missing 'method' field"))))
      refused

handle_body-Outcome_example :
    Outcome governor serde 7
      (some fields)
      handlers
      false
      0
      (handled governor serde 7 (some fields) handlers false 0)
handle_body-Outcome_example = handle_body-Outcome governor serde 7 (some fields) handlers false 0

handle_request-Answers_example :
    Answers governor 7 handlers request 60 0 (served governor 7 handlers request 60 0)
handle_request-Answers_example = handle_request-Answers governor 7 handlers request 60 0

handle_request_id_example :
    response_id (served governor 7 handlers request 60 0).response ≡ number false
handle_request_id_example = handle_request_id governor 7 handlers request 60 0

-- A code type of a user that claims a reserved code.
data Rogue : Type 0 where
  rogue : Rogue

instance abbrev Rogue-code : ErrorCode Rogue
Rogue-code = record { into = λ r. (neg 32700, "mine"); is_reserved = false }

new_error-ErrorOf_example : ErrorOf rogue (ok null) (new_error {N = Bool} rogue (ok null))
new_error-ErrorOf_example = new_error-ErrorOf rogue (ok null)

misused_code : (new_error {N = Bool} rogue (ok null)).code ≡ neg 32603
unfolding new_error in_reserved_range
misused_code = refl

rogue_result_in_range : in_reserved_range (new_error {N = Bool} rogue (ok null)).code ≡ true
unfolding in_reserved_range new_error
rogue_result_in_range = refl

new_error_code_example : (false ≡ true) ⊎ ((new_error {N = Bool} rogue (ok null)).code ≡ neg 32603)
new_error_code_example = new_error_code rogue (ok null) rogue_result_in_range

abbrev empty_array : Value Bool
empty_array = array nil

try_from_iff_example : (try_from (number false) empty_array ≡ ok default_params) ↔ (
    (empty_array ≡ to_value default_params)
    ⊎ ((empty_array ≡ null) × (default_params {N = Bool} ≡ default_params)))
try_from_iff_example = try_from_iff (number false) empty_array default_params
