-- ===== src/Rpcs/Error/Laws.antt =====
-- What a client is told of an error of rpc_sidecar/src/rpcs/error.rs.
use casper_sidecar.Rpcs.Code.{ErrorCode, discriminant, text, code_into, rpcs_code}
use casper_sidecar.Prelude.{String, ◌≡◌, refl, ap, ◌∙◌, inr, false, Option, none, some}
use casper_sidecar.Prelude.Int.{ℤ, neg}
use casper_sidecar.JsonRpc.Json.{Value, string}
use casper_sidecar.JsonRpc.Error.{
  ReservedErrorCode-code, RpcErrorCode-code, in_reserved_range, new_error,
}
use casper_sidecar.NodeClient.Port.{BinaryPort}
use casper_sidecar.NodeClient.Types.{PortTypes}
use casper_sidecar.Rpcs.Error.{
  ErrorTypes, RpcsError, no_block_found, display, code, with_code, into_rpc,
}
use casper_sidecar.Prelude.Result.{Result, ok}
use casper_sidecar.JsonRpc.Error.Laws.{not-IsReserved, carried, new_error-keeps}

-- No code lies in the range that is checked for.
allowed : (c : ErrorCode) → in_reserved_range (neg (discriminant c)) ≡ false
unfolding discriminant in_reserved_range
allowed ErrorCode.no_such_deploy = refl
allowed _ = refl

-- The code and the message that stand for an error with or without a code of its own.
abbrev pub code_or_internal : Option ErrorCode → ℤ
code_or_internal none = neg 32603
code_or_internal (some c) = neg (discriminant c)

abbrev pub text_or_internal : Option ErrorCode → String
text_or_internal none = "Internal error"
text_or_internal (some c) = text c

module _ {port : BinaryPort} (types : PortTypes port) (more : ErrorTypes types) {N : Type 0}
    (to_value : (message : String) → types.AvailableBlockRange → Result (Value N) String)
    (value : (message : String) → types.AvailableBlockRange → Value N) where
  -- What is said besides the code: the text, and the available range where a block was not found.
  abbrev pub info : RpcsError types more → Value N
  info (no_block_found identifier range) =
      value (display types more (no_block_found identifier range)) range
  info e = string (display types more e)

  with_code-keeps :
      (c : Option ErrorCode) (message : String)
      → with_code types more to_value c message ≡ record {
        code = code_or_internal c;
        message = text_or_internal c;
        data_field = some (string message);
      }
  unfolding with_code code_into
  with_code-keeps none message = refl
  with_code-keeps (some c) message =
      new_error-keeps c (string message) (inr (not-IsReserved (neg (discriminant c)) (allowed c)))

  -- Every error reaches the client under its own code and message, or, if it has none, as an
  -- internal error: no code is taken for a misuse of the reserved range. What is said besides is
  -- the text of the error, and the available range where a block was not found. The text and the
  -- range can be written as JSON.
  pub into_rpc-keeps :
      (e : RpcsError types more)
      → ((message : String) (range : types.AvailableBlockRange)
          → to_value message range ≡ ok (value message range))
      → into_rpc types more to_value e ≡ record {
        code = code_or_internal (code types more e);
        message = text_or_internal (code types more e);
        data_field = carried (info e);
      }
  unfolding into_rpc code_into
  into_rpc-keeps (no_block_found identifier range) h =
      let v = value (display types more (no_block_found identifier range)) range in
      ap (new_error ErrorCode.no_such_block)
        (h (display types more (no_block_found identifier range)) range)
      ∙ new_error-keeps ErrorCode.no_such_block v (
          inr (
            not-IsReserved (neg (discriminant ErrorCode.no_such_block))
              (allowed ErrorCode.no_such_block)))
  into_rpc-keeps e h = with_code-keeps (code types more e) (display types more e)
