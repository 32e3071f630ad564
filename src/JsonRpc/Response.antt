-- ===== src/JsonRpc/Response.antt =====
-- json_rpc/src/response.rs
use casper_sidecar.Prelude.{String, Bool, true, false, Option, none, some}
use casper_sidecar.Prelude.Result.{Result, ok, err}
use casper_sidecar.JsonRpc.Json.{Value}
use casper_sidecar.JsonRpc.Error.{ReservedErrorCode-code, RpcErrorCode-code, Error}

pub data Response (N : Type 0) : Type 0 where
  success : (jsonrpc : String) → (id result : Value N) → Response N
  failure : (jsonrpc : String) → (id : Value N) → Error N → Response N

module _ {N : Type 0} where
  unfoldable pub new_success : (id result : Value N) → Response N
  new_success id result = success "2.0" id result

  unfoldable pub new_failure : (id : Value N) → Error N → Response N
  new_failure id e = failure "2.0" id e

  unfoldable pub is_success : Response N → Bool
  is_success (success _ _ _) = true
  is_success (failure _ _ _) = false

  unfoldable pub is_failure : Response N → Bool
  is_failure (success _ _ _) = false
  is_failure (failure _ _ _) = true

  unfoldable pub raw_result : Response N → Option (Value N)
  raw_result (success _ _ result) = some result
  raw_result (failure _ _ _) = none

  -- `from_value` is what serde makes of a value at the wanted type.
  unfoldable pub result {ℓ} : {T : Type ℓ} → (Value N → Result T String) → Response N → Option T
  result from_value (success _ _ r) = elim (from_value r) [ ok t ↦ some t | err _ ↦ none ]
  result from_value (failure _ _ _) = none

  unfoldable pub response_error : Response N → Option (Error N)
  response_error (success _ _ _) = none
  response_error (failure _ _ e) = some e

  unfoldable pub response_id : Response N → Value N
  response_id (success _ id _) = id
  response_id (failure _ id _) = id
