-- ===== src/NodeClient/Start.antt =====
-- `FramedNodeClient::new` of rpc_sidecar/src/node_client.rs and one turn of each of its two loops.
use casper_sidecar.Prelude.{if◌then◌else◌, ℕ, String, false, Option, none, some, [], ◌∷◌, str_eq}
use casper_sidecar.Prelude.Text.{format}
use casper_sidecar.Prelude.Result.{Result, ok, err}
use casper_sidecar.NodeClient.Error.{Error, display}
use casper_sidecar.NodeClient.Error
use casper_sidecar.NodeClient.FromCode.{Codes}
use casper_sidecar.NodeClient.Port.{BinaryPort}
use casper_sidecar.NodeClient.Network.{NodeClientConfig, Network}
use casper_sidecar.NodeClient.Connect.{connect_with_retries, reconnect_internal}
use casper_sidecar.NodeClient.Client.{initial_request_id, FramedNodeClient, send_request}
use casper_sidecar.NodeClient.Types.{PortTypes}
use casper_sidecar.NodeClient.Methods.Info.{read_node_status}

module _ {Conn W : Type 0} {port : BinaryPort} (codes : Codes) (types : PortTypes port)
    (net : Network Conn W) (config : NodeClientConfig) where
  -- A client, or the text of an error; `none` is a start that never comes back.
  abbrev pub Started : Type 0
  Started = Option (Result (FramedNodeClient Conn W) (String × W))

  -- The comparison with the name that the node reports.
  compare_name :
      (network_name : String)
      → Option (Result types.NodeStatus Error) × FramedNodeClient Conn W
      → Started
  unfolding Error.display format
  compare_name network_name (none, c) = none
  compare_name network_name (some (err e), c) = some (err (Error.display e, c.world))
  compare_name network_name (some (ok node_status), c) =
      if str_eq network_name (types.chainspec_name node_status)
      then some (ok c)
      else some (
          err (
            format (
                "Network name "
                ∷ types.chainspec_name node_status
                ∷ " does't match name "
                ∷ network_name
                ∷ " configured for node RPC connection"
                ∷ []),
            c.world,
          ))

  validate_name : (maybe_network_name : Option String) → FramedNodeClient Conn W → Started
  unfolding compare_name read_node_status send_request
  validate_name none c = some (ok c)
  validate_name (some network_name) c =
      compare_name network_name (read_node_status codes types (send_request port net config) c)

  with_stream : (maybe_network_name : Option String) → Option (Result Conn String × W) → Started
  unfolding validate_name
  with_stream maybe_network_name none = none
  with_stream maybe_network_name (some (err e, w)) = some (err (e, w))
  with_stream maybe_network_name (some (ok stream, w)) = validate_name maybe_network_name (record {
    client = stream;
    reconnect_permit = false;
    current_request_id = initial_request_id;
    world = w;
  })

  unfoldable pub start : (maybe_network_name : Option String) → W → Started
  unfolding with_stream connect_with_retries
  start maybe_network_name w = with_stream maybe_network_name (connect_with_retries net config w)

  reconnected :
      FramedNodeClient Conn W
      → Option (Result Conn String × W)
      → Option (Result (Unit {0}) String × FramedNodeClient Conn W)
  reconnected c none = none
  reconnected c (some (ok new_client, w)) =
      some (ok tt, record c { client = new_client; reconnect_permit = false; world = w })
  reconnected c (some (err e, w)) = some (err e, record c { reconnect_permit = false; world = w })

  -- One turn of `reconnect_loop`, once there is a permit; an error ends the loop.
  unfoldable pub reconnect_turn :
      FramedNodeClient Conn W → Option (Result (Unit {0}) String × FramedNodeClient Conn W)
  unfolding reconnected reconnect_internal
  reconnect_turn c = reconnected c (reconnect_internal net config c.world)

  -- One turn of `keepalive_loop`; the result of the request is ignored.
  unfoldable pub keepalive_turn :
      (keepalive_timeout : ℕ) (protocol_version : port.Command)
      → FramedNodeClient Conn W
      → FramedNodeClient Conn W
  unfolding send_request
  keepalive_turn keepalive_timeout protocol_version c =
      (send_request port net config protocol_version
        (record c { world = net.sleep keepalive_timeout c.world })).1
