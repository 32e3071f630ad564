-- ===== src/NodeClient/Network.antt =====
-- What rpc_sidecar/src/node_client.rs takes from tokio, and its configuration in rpc_sidecar/src/config.rs.
use casper_sidecar.Prelude.{ℕ, String, Bool, Option}
use casper_sidecar.Prelude.Result.{Result}
use casper_sidecar.NodeClient.Port.{Bytes}

pub record ExponentialBackoffConfig : Type 0 where
  pub initial_delay_ms : ℕ
  pub max_delay_ms : ℕ
  pub coefficient : ℕ
  pub max_attempts : ℕ

-- The other fields of the configuration are the durations that `Network` waits, and the address.
pub record NodeClientConfig : Type 0 where
  pub tcp_socket : String
  pub exponential_backoff : ExponentialBackoffConfig

-- Sockets and timers over a world `W`. Where a call is made under a timeout, `none` is the timeout.
pub record Network (Conn W : Type 0) : Type 0 where
  pub connect : W → Result Conn String × W
  pub sleep : (ms : ℕ) → W → W
  pub send : Conn → Bytes → W → Option (Result (Unit {0}) String) × W
  -- `some none` is the end of the stream.
  pub next : Conn → W → Option (Option (Result Bytes String)) × W
  pub close : Conn → W → W
  -- Whether the lock of the client is there in time.
  pub acquire : W → Bool × W
  -- Whether a reconnection begun now is cut off by its timeout, and the world that it then leaves.
  pub cut : W → Option W
  pub register_timeout : String → W → W
  pub register_mismatched_id : W → W
  pub inc_disconnect : W → W
  pub observe_reconnect_time : W → W
