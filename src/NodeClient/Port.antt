-- ===== src/NodeClient/Port.antt =====
-- What rpc_sidecar/src/lib.rs and rpc_sidecar/src/node_client.rs do with the bytes of the binary port. The types of
-- casper_binary_port and their serialization are parameters.
pub mod Laws
use casper_sidecar.Prelude.{
  ltb, ◌==◌, if◌then◌else◌, length, ℕ, ◌%◌, ◌^◌, String, Bool, Option, none, some, List, [], ◌∷◌,
  ◌++◌,
}
use casper_sidecar.Prelude.Result.{Result, ok, err, ◌>>=◌, map_err, ◌>>◌}
use casper_sidecar.Prelude.Text.{format}
use casper_sidecar.NodeClient.Error.{
  Error, request_response_id_mismatch, deserialization, unexpected_variant_received,
}
use casper_sidecar.NodeClient.FromCode.{Codes, from_error_code}

abbrev pub Bytes : Type 0
Bytes = List ℕ

-- `casper_binary_port`, with bytesrepr's `FromBytes` and `ToBytes` for its types; a text is an
-- error printed. `Response` is `BinaryResponseAndRequest`.
pub record BinaryPort : Type 1 where
  pub Command : Type 0
  pub CommandHeader : Type 0
  pub Response : Type 0
  pub BinaryResponse : Type 0
  pub tag : Command → ℕ
  pub new_header : (tag id : ℕ) → CommandHeader
  pub header_id : CommandHeader → ℕ
  pub header_version : ℕ
  pub header_to_bytes : CommandHeader → Result Bytes String
  pub header_from_bytes : Bytes → Result (CommandHeader × Bytes) String
  pub command_to_bytes : Command → Result Bytes String
  pub u16_from_bytes : Bytes → Result (ℕ × Bytes) String
  pub u32_from_bytes : Bytes → Result (ℕ × Bytes) String
  pub response_from_bytes : Bytes → Result Response String
  pub request : Response → Bytes
  pub response : Response → BinaryResponse
  pub is_not_found : BinaryResponse → Bool
  pub is_success : BinaryResponse → Bool
  pub error_code : BinaryResponse → ℕ
  pub returned_data_type_tag : BinaryResponse → Option ℕ
  pub payload : BinaryResponse → Bytes

-- What `parse_response` uses of its type: `PayloadEntity` and the way to read it.
pub record PayloadEntity (A : Type 0) : Type 0 where
  pub response_type : ℕ
  pub from_bytes : Bytes → Result A String

abbrev pub not_enough_bytes : String
not_enough_bytes =
    "Node responded with request that doesn't have enough bytes to read payload length"

abbrev pub length_mismatch : String
length_mismatch =
    "Node responded with request that has a mismatch in declared bytes vs the payload length"

module _ (port : BinaryPort) where
  unfoldable pub encode_request : port.Command → (id : ℕ) → Result Bytes String
  encode_request req id = do
    header ← port.header_to_bytes (port.new_header (port.tag req) id)
    command ← port.command_to_bytes req
    ok (header ++ command)

  -- The version is read a second time as part of the header.
  read_header : Bytes → Result (ℕ × Bytes) String → Result (port.CommandHeader × Bytes) String
  unfolding format
  read_header bytes (err _) = err "Could not read header version from request"
  read_header bytes (ok (binary_protocol_version, _)) =
      if binary_protocol_version == port.header_version
      then map_err (λ error. format ("Malformed CommandHeader definition: " ∷ error ∷ []))
          (port.header_from_bytes bytes)
      else err "Header version does not meet expectation"

  unfoldable pub extract_header : Bytes → Result (port.CommandHeader × Bytes) String
  unfolding read_header
  extract_header bytes =
      if ltb (length bytes) 2
      then err "Not enough bytes to read version of the command header"
      else read_header bytes (port.u16_from_bytes bytes)

  checked_length : ℕ × Bytes → Result Bytes String
  checked_length (payload_length, remainder) =
      if payload_length == length remainder % 2 ^ 32 then ok remainder else err length_mismatch

  unfoldable pub try_parse_request_id : Bytes → Result ℕ String
  unfolding checked_length
  try_parse_request_id request = if ltb (length request) 4 then err not_enough_bytes else do
    read ← port.u32_from_bytes request
    remainder ← checked_length read
    (header, rest) ← extract_header remainder
    ok (port.header_id header)

  -- An id that cannot be read counts as 0.
  unfoldable pub original_id : port.Response → ℕ
  unfolding try_parse_request_id
  original_id resp = elim (try_parse_request_id (port.request resp)) [ ok id ↦ id | err _ ↦ 0 ]

  unfoldable pub validate_response : port.Response → (expected_id : ℕ) → Result port.Response Error
  unfolding original_id
  validate_response resp expected_id =
      if original_id resp == expected_id
      then ok resp
      else err (request_response_id_mismatch expected_id (original_id resp))

  module _ (codes : Codes) {A : Type 0} (entity : PayloadEntity A) where
    -- The `match` on the tag of the returned type.
    read_payload : Option ℕ → Bytes → Result (Option A) Error
    read_payload none bytes = ok none
    read_payload (some found) bytes =
        if found == entity.response_type
        then map_err deserialization (entity.from_bytes bytes >>= λ value. ok (some value))
        else err (unexpected_variant_received found)

    -- Also `parse_response_bincode`, which differs in how the type is read.
    unfoldable pub parse_response : port.BinaryResponse → Result (Option A) Error
    unfolding read_payload from_error_code
    parse_response resp =
        if port.is_not_found resp
        then ok none
        else if port.is_success resp
        then read_payload (port.returned_data_type_tag resp) (port.payload resp)
        else err (from_error_code codes (port.error_code resp))
