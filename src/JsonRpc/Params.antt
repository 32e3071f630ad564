-- ===== src/JsonRpc/Params.antt =====
-- json_rpc/src/request/params.rs
pub mod Laws
use casper_sidecar.Prelude.{String, Bool, true, false, Option, none, some}
use casper_sidecar.Prelude.Result.{Result, ok, err}
use casper_sidecar.JsonRpc.Json.{
  Value, null, bool, number, string, array, object, Items, nil, cons, Fields, end, field,
}
use casper_sidecar.JsonRpc.Error.{
  invalid_request, ReservedErrorCode-code, RpcErrorCode-code, Error, new_error,
}

-- `warp::reject::custom(MissingId)`, the one rejection that `Request::new` makes.
pub data RequestRejection : Type 0 where
  missing_id : RequestRejection

-- `ErrorOrRejection` of request.rs
pub data ErrorOrRejection (N : Type 0) : Type 0 where
  error : (id : Value N) → Error N → ErrorOrRejection N
  rejection : RequestRejection → ErrorOrRejection N

pub data Params (N : Type 0) : Type 0 where
  array_params : Items N → Params N
  object_params : Fields N → Params N

module _ {N : Type 0} where
  -- `Error::new(ReservedErrorCode::InvalidRequest, info)`: serde encodes a text as a JSON string.
  abbrev pub invalid : String → Error N
  invalid info = new_error invalid_request (ok (string info))

  unfoldable pub try_from : (request_id params : Value N) → Result (Params N) (ErrorOrRejection N)
  try_from id null = ok (array_params nil)
  try_from id (bool false) =
      err (error id (invalid "If present, 'params' must be an Array or Object, but was 'false'"))
  try_from id (bool true) =
      err (error id (invalid "If present, 'params' must be an Array or Object, but was 'true'"))
  try_from id (number _) =
      err (error id (invalid "If present, 'params' must be an Array or Object, but was a Number"))
  try_from id (string _) =
      err (error id (invalid "If present, 'params' must be an Array or Object, but was a String"))
  try_from id (array items) = ok (array_params items)
  try_from id (object fields) = ok (object_params fields)

  unfoldable pub as_array : Params N → Option (Items N)
  as_array (array_params items) = some items
  as_array (object_params _) = none

  unfoldable pub as_object : Params N → Option (Fields N)
  as_object (object_params fields) = some fields
  as_object (array_params _) = none

  -- `From<Params> for Value`
  unfoldable pub to_value : Params N → Value N
  to_value (array_params items) = array items
  to_value (object_params fields) = object fields

  unfoldable pub is_array : Params N → Bool
  unfolding as_array
  is_array params = elim (as_array params) [ none ↦ false | some _ ↦ true ]

  unfoldable pub is_object : Params N → Bool
  unfolding as_object
  is_object params = elim (as_object params) [ none ↦ false | some _ ↦ true ]

  abbrev no_items : Items N → Bool
  no_items nil = true
  no_items (cons _ _) = false

  abbrev no_fields : Fields N → Bool
  no_fields end = true
  no_fields (field _ _ _) = false

  -- `Params::is_empty`
  unfoldable pub params_is_empty : Params N → Bool
  params_is_empty (array_params items) = no_items items
  params_is_empty (object_params fields) = no_fields fields

  -- `Default for Params`
  unfoldable pub default_params : Params N
  default_params = array_params nil
