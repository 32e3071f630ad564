-- ===== src/JsonRpc/Params/Laws.antt =====
-- Which values json_rpc/src/request/params.rs takes as params.
use casper_sidecar.Prelude.{◌≡◌, ◌↔◌, ◌⊎◌, true, false, arith}
use casper_sidecar.Prelude.Result.{ok}
use casper_sidecar.JsonRpc.Json.{Value, null, bool, number, string, array, object}
use casper_sidecar.JsonRpc.Error.{ReservedErrorCode-code, RpcErrorCode-code}
use casper_sidecar.JsonRpc.Params.{
  Params, array_params, object_params, try_from, to_value, default_params,
}

module _ {N : Type 0} where
  -- Params are read from their own value, or by default from null, and from no other value.
  pub try_from_iff :
      (id value : Value N) (params : Params N)
      → (try_from id value ≡ ok params)
        ↔ ((value ≡ to_value params) ⊎ ((value ≡ null) × (params ≡ default_params)))
  unfolding try_from to_value default_params
  try_from_iff id null (array_params items) = ground arith
  try_from_iff id null (object_params fields) = ground arith
  try_from_iff id (bool false) (array_params items) = ground arith
  try_from_iff id (bool false) (object_params fields) = ground arith
  try_from_iff id (bool true) (array_params items) = ground arith
  try_from_iff id (bool true) (object_params fields) = ground arith
  try_from_iff id (number n) (array_params items) = ground arith
  try_from_iff id (number n) (object_params fields) = ground arith
  try_from_iff id (string s) (array_params items) = ground arith
  try_from_iff id (string s) (object_params fields) = ground arith
  try_from_iff id (array xs) (array_params items) = ground arith
  try_from_iff id (array xs) (object_params fields) = ground arith
  try_from_iff id (object xs) (array_params items) = ground arith
  try_from_iff id (object xs) (object_params fields) = ground arith
