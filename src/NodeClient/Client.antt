-- ===== src/NodeClient/Client.antt =====
-- `FramedNodeClient` of rpc_sidecar/src/node_client.rs: requests with ids over one connection.
pub mod Answers
pub mod Laws
pub mod Returns
use casper_sidecar.Prelude.{
  ltb, if◌then◌else◌, ℕ, zero, suc, ◌+◌, ◌%◌, ◌^◌, String, Bool, true, false, Option, none, some,
}
use casper_sidecar.Prelude.Result.{Result, ok, err}
use casper_sidecar.NodeClient.Error.{
  Error, request_failed, request_response_id_mismatch, too_many_mismatched_responses,
  envelope_deserialization, connection_lost,
}
use casper_sidecar.NodeClient.Port.{Bytes, BinaryPort, encode_request, validate_response}
use casper_sidecar.NodeClient.Network.{NodeClientConfig, Network}
use casper_sidecar.NodeClient.Connect.{connect_with_retries}

abbrev pub max_mismatched_id_retries : ℕ
max_mismatched_id_retries = 100

abbrev pub initial_request_id : ℕ
initial_request_id = 0

-- `reconnect_permit` is the stored permit of the `Notify`; `client` is what the lock holds.
pub record FramedNodeClient (Conn W : Type 0) : Type 0 where
  pub client : Conn
  pub reconnect_permit : Bool
  pub current_request_id : ℕ
  pub world : W

-- The outcome of a call that may not come back, by a panic or a loop without end, which is `none`.
abbrev pub Outcome : (A Conn W : Type 0) → Type 0
Outcome A Conn W = Option (Result A Error) × FramedNodeClient Conn W

module _ {Conn W : Type 0} (port : BinaryPort) (net : Network Conn W) where
  -- The `match` on a validated response.
  unfoldable pub after_validation :
      (retry : W → Result port.Response Error × W)
      → Result port.Response Error
      → W
      → Result port.Response Error × W
  after_validation retry (ok resp) w = (ok resp, w)
  after_validation retry (err (request_response_id_mismatch expected got)) w =
      let counted = net.register_mismatched_id w in
      let next = retry counted in
      if ltb got expected then next else (err (request_response_id_mismatch expected got), counted)
  after_validation retry (err e) w = (err e, net.register_mismatched_id w)

  unfoldable pub after_payload :
      (retry : W → Result port.Response Error × W)
      → (request_id : ℕ) → Result port.Response String
      → W
      → Result port.Response Error × W
  unfolding validate_response after_validation
  after_payload retry request_id (err _) w = (err envelope_deserialization, w)
  after_payload retry request_id (ok resp) w =
      after_validation retry (validate_response port resp request_id) w

  unfoldable pub after_next :
      (retry : W → Result port.Response Error × W)
      → (request_id : ℕ) → Option (Option (Result Bytes String)) × W
      → Result port.Response Error × W
  unfolding after_payload
  after_next retry request_id (none, w) =
      (err connection_lost, net.register_timeout "receiving_response" w)
  after_next retry request_id (some none, w) = (err connection_lost, w)
  after_next retry request_id (some (some (err e)), w) = (err (request_failed e), w)
  after_next retry request_id (some (some (ok payload)), w) =
      after_payload retry request_id (port.response_from_bytes payload) w

  -- The loop over responses, by the rounds left.
  unfoldable pub read_responses :
      (rounds request_id : ℕ) (client : Conn) → W → Result port.Response Error × W
  unfolding after_next
  read_responses zero request_id client w =
      (err (too_many_mismatched_responses max_mismatched_id_retries), w)
  read_responses (suc rounds) request_id client w =
      after_next (read_responses rounds request_id client) request_id (net.next client w)

  unfoldable pub next_id : FramedNodeClient Conn W → ℕ × FramedNodeClient Conn W
  next_id c =
      (c.current_request_id, record c { current_request_id = (c.current_request_id + 1) % 2 ^ 16 })

  after_send :
      (request_id : ℕ) (client : Conn)
      → Option (Result (Unit {0}) String) × W
      → Result port.Response Error × W
  after_send request_id client (none, w) =
      (err (request_failed "timeout"), net.register_timeout "sending_payload" w)
  after_send request_id client (some (err e), w) = (err (request_failed e), w)
  after_send request_id client (some (ok _), w) =
      read_responses max_mismatched_id_retries request_id client w

  -- A request that cannot be serialized is a panic.
  send_payload :
      (request_id : ℕ)
      → Result Bytes String
      → FramedNodeClient Conn W
      → Outcome port.Response Conn W
  unfolding after_send
  send_payload request_id (err _) c = (none, c)
  send_payload request_id (ok payload) c =
      let (result, w) = after_send request_id c.client (net.send c.client payload c.world) in
      (some result, record c { world = w })

  unfoldable pub send_request_internal :
      port.Command → FramedNodeClient Conn W → Outcome port.Response Conn W
  unfolding next_id send_payload encode_request
  send_request_internal req c =
      let (request_id, counted) = next_id c in
      send_payload request_id (encode_request port req request_id) counted

  module _ (config : NodeClientConfig) where
    -- The `match` on the reconnection that is made in time.
    after_reconnect :
        port.Command
        → FramedNodeClient Conn W
        → Option (Result Conn String × W)
        → Outcome port.Response Conn W
    unfolding send_request_internal
    after_reconnect req c none = (none, c)
    after_reconnect req c (some (ok new_client, w)) =
        send_request_internal req (record c { client = new_client; world = w })
    after_reconnect req c (some (err _, w)) =
        (some (err connection_lost), record c { reconnect_permit = true; world = w })

    reconnect_in_time :
        port.Command → FramedNodeClient Conn W → Option W → W → Outcome port.Response Conn W
    unfolding after_reconnect connect_with_retries
    reconnect_in_time req c (some w) _ = (
      some (err connection_lost),
      record c { world = net.register_timeout "reacquiring_connection" w },
    )
    reconnect_in_time req c none closed =
        after_reconnect req c (connect_with_retries net config closed)

    after_first : port.Command → Outcome port.Response Conn W → Outcome port.Response Conn W
    unfolding reconnect_in_time
    after_first req (none, c) = (none, c)
    after_first req (some (ok resp), c) = (some (ok resp), c)
    after_first req (some (err _), c) =
        let closed = net.close c.client c.world in reconnect_in_time req c (net.cut closed) closed

    with_client : port.Command → FramedNodeClient Conn W → Bool × W → Outcome port.Response Conn W
    unfolding after_first send_request_internal
    with_client req c (false, w) =
        (some (err connection_lost), record c { world = net.register_timeout "acquiring_client" w })
    with_client req c (true, w) =
        after_first req (send_request_internal req (record c { world = w }))

    unfoldable pub send_request :
        port.Command → FramedNodeClient Conn W → Outcome port.Response Conn W
    unfolding with_client
    send_request req c = with_client req c (net.acquire c.world)
