-- ===== src/JsonRpc/Error.antt =====
-- json_rpc/src/error.rs: the codes, the trait of code types and `Error::new`.
pub mod Laws
use casper_sidecar.Prelude.{
  if◌then◌else◌, String, Bool, true, false, not, ◌&&◌, Option, none, some, [], ◌∷◌,
}
use casper_sidecar.Prelude.Int.{ℤ, pos, neg, lebℤ}
use casper_sidecar.Prelude.Result.{Result, ok, err}
use casper_sidecar.Prelude.Decimal.{decimalℤ}
use casper_sidecar.Prelude.Text.{format}
use casper_sidecar.JsonRpc.Json.{Value, null, string}

pub data ReservedErrorCode : Type 0 where
  parse_error invalid_request method_not_found invalid_params internal_error : ReservedErrorCode

-- `From<ReservedErrorCode> for (i64, &'static str)`, with the discriminants of the enum.
unfoldable pub reserved_into : ReservedErrorCode → ℤ × String
reserved_into parse_error = (neg 32700, "Parse error")
reserved_into invalid_request = (neg 32600, "Invalid Request")
reserved_into method_not_found = (neg 32601, "Method not found")
reserved_into invalid_params = (neg 32602, "Invalid params")
reserved_into internal_error = (neg 32603, "Internal error")

pub data RpcErrorCode : Type 0 where
  request_throttled : RpcErrorCode

unfoldable pub rpc_into : RpcErrorCode → ℤ × String
rpc_into request_throttled = (pos 429, "Request throttled")

-- The trait `ErrorCodeT`: what `Error::new` uses of a code type.
pub record ErrorCode (C : Type 0) : Type 0 where
  pub into : C → ℤ × String
  pub is_reserved : Bool

instance abbrev pub ReservedErrorCode-code : ErrorCode ReservedErrorCode
ReservedErrorCode-code = record { into = reserved_into; is_reserved = true }

instance abbrev pub RpcErrorCode-code : ErrorCode RpcErrorCode
RpcErrorCode-code = record { into = rpc_into; is_reserved = false }

pub record Error (N : Type 0) : Type 0 where
  pub code : ℤ
  pub message : String
  pub data_field : Option (Value N)

-- `(-32768..=-32100).contains(&code)`
unfoldable pub in_reserved_range : ℤ → Bool
in_reserved_range c = lebℤ (neg 32768) c && lebℤ c (neg 32100)

module _ {N : Type 0} where
  -- The inner `let (code, message)` shadows the code that was passed in.
  reserved_misuse : Error N
  unfolding reserved_into decimalℤ format
  reserved_misuse =
      let (code, message) = reserved_into internal_error in
      record {
        code = code;
        message = message;
        data_field =
            some
              (string (format ("attempted to return reserved error code " ∷ decimalℤ code ∷ [])));
      }

  -- The `match` on `serde_json::to_value(additional_info)`, whose result is the last argument.
  with_info : ℤ → String → Result (Value N) String → Error N
  unfolding reserved_into format
  with_info code message (ok null) = record { code = code; message = message; data_field = none }
  with_info code message (ok value) = record {
    code = code;
    message = message;
    data_field = some value;
  }
  with_info _ _ (err error) =
      let (code, message) = reserved_into internal_error in
      record {
        code = code;
        message = message;
        data_field = some (
            string
              (format ("failed to json-encode additional info in json-rpc error: " ∷ error ∷ [])));
      }

  -- `Error::new`; `to_value` is what serde makes of the additional info.
  unfoldable pub new_error :
      {C : Type 0} ⦃t : ErrorCode C⦄ → C → (to_value : Result (Value N) String) → Error N
  unfolding in_reserved_range reserved_misuse with_info
  new_error ⦃t⦄ error_code to_value =
      let (code, message) = t.into error_code in
      if not t.is_reserved && in_reserved_range code
      then reserved_misuse
      else with_info code message to_value
