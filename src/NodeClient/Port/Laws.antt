-- ===== src/NodeClient/Port/Laws.antt =====
-- The ids that rpc_sidecar/src/node_client.rs reads back from the requests that it encoded.
use casper_sidecar.Prelude.{
  ◌==◌, if◌then◌else◌, length, length-append, ℕ, ◌^◌, ◌≤◌, ◌<◌, ◌≡◌, refl, sym, ap, ◌∙◌, subst, ◌↔◌,
  inl, inr, ◌++◌, arith,
}
use casper_sidecar.Prelude.Result.{ok, err, Result-cases}
use casper_sidecar.NodeClient.Error.{request_response_id_mismatch}
use casper_sidecar.NodeClient.Port.{
  Bytes, BinaryPort, encode_request, extract_header, try_parse_request_id, original_id,
  validate_response,
}

-- What bytesrepr and casper_binary_port document: a header is read back from its bytes, which
-- begin with the version, and carries the id that it was made with; a length is four bytes.
pub record Serializes (port : BinaryPort) (u32_to_bytes : ℕ → Bytes) : Type 0 where
  pub id_kept : (tag id : ℕ) → port.header_id (port.new_header tag id) ≡ id
  pub header_back :
      (h : port.CommandHeader) (bytes rest : Bytes)
      → port.header_to_bytes h ≡ ok bytes
      → port.header_from_bytes (bytes ++ rest) ≡ ok (h, rest)
  pub version_first :
      (h : port.CommandHeader) (bytes rest : Bytes)
      → port.header_to_bytes h ≡ ok bytes
      → (2 ≤ length bytes)
        × (more : Bytes) × (port.u16_from_bytes (bytes ++ rest) ≡ ok (port.header_version, more))
  pub length_four : (n : ℕ) → length (u32_to_bytes n) ≡ 4
  pub length_back :
      (n : ℕ) (rest : Bytes)
      → n < 2 ^ 32
      → port.u32_from_bytes (u32_to_bytes n ++ rest) ≡ ok (n, rest)

module _ (port : BinaryPort) where
  pub validate_response_iff :
      (resp r : port.Response) (e : ℕ)
      → (validate_response port resp e ≡ ok r) ↔ ((r ≡ resp) × (original_id port resp ≡ e))
  unfolding validate_response
  validate_response_iff resp r e = (λ h. ground arith, λ h. ground arith)

  module _ (u32_to_bytes : ℕ → Bytes) (laws : Serializes port u32_to_bytes) where
    extract_header-encoded :
        (h : port.CommandHeader) (bytes rest : Bytes)
        → port.header_to_bytes h ≡ ok bytes
        → extract_header port (bytes ++ rest) ≡ ok (h, rest)
    unfolding extract_header
    extract_header-encoded h bytes rest e =
        let (enough, more, version) = laws.version_first h bytes rest e in
        let back = laws.header_back h bytes rest e in ground (arith, length-append bytes rest)

    encoded-parts :
        (req : port.Command) (id : ℕ) (bytes : Bytes)
        → encode_request port req id ≡ ok bytes
        → (header : Bytes) × (command : Bytes) × (port.header_to_bytes
              (port.new_header (port.tag req) id)
            ≡ ok header)
          × (bytes ≡ header ++ command)
    unfolding encode_request
    encoded-parts req id bytes e =
        elim (Result-cases (port.header_to_bytes (port.new_header (port.tag req) id))) [
          | inl (header, p) ↦ elim (Result-cases (port.command_to_bytes req)) [
            | inl (command, q) ↦ (header, command, p, ground arith)
            | inr (x, q) ↦ absurd (ground arith)
          ]
          | inr (x, p) ↦ absurd (ground arith)
        ]

    try_parse_request_id-encoded :
        (req : port.Command) (id : ℕ) (bytes : Bytes)
        → encode_request port req id ≡ ok bytes
        → length bytes < 2 ^ 32
        → try_parse_request_id port (u32_to_bytes (length bytes) ++ bytes) ≡ ok id
    unfolding try_parse_request_id
    try_parse_request_id-encoded req id bytes e small =
        let (header, command, p, q) = encoded-parts req id bytes e in
        let four = laws.length_four (length bytes) in
        let back = laws.length_back (length bytes) bytes small in
        let kept = laws.id_kept (port.tag req) id in
        let read = extract_header-encoded (port.new_header (port.tag req) id) header command p in
        let echo =
          subst (λ b. extract_header port b ≡ ok (port.new_header (port.tag req) id, command))
            (sym q) read in
        ground (arith, length-append (u32_to_bytes (length bytes)) bytes)

    -- A response that echoes a request, with its length before it, is accepted exactly when the
    -- id expected is the one that the request was encoded with; else both ids are reported. The
    -- request is shorter than 2 ^ 32 bytes, and the serialization is as documented.
    pub validate_response-encode_request :
        (req : port.Command) (id expected : ℕ) (bytes : Bytes) (resp : port.Response)
        → encode_request port req id ≡ ok bytes
        → length bytes < 2 ^ 32
        → port.request resp ≡ u32_to_bytes (length bytes) ++ bytes
        → validate_response port resp expected
          ≡ (if id == expected then ok resp else err (request_response_id_mismatch expected id))
    unfolding validate_response original_id
    validate_response-encode_request req id expected bytes resp e small echo =
        let parsed = try_parse_request_id-encoded req id bytes e small in
        let same = ap (try_parse_request_id port) echo ∙ parsed in rw (same, original_id) refl
