-- ===== src/NodeClient/Connect.antt =====
-- `connect_with_retries` and the reconnection of rpc_sidecar/src/node_client.rs. The code loops without a bound of
-- its own; a fuel of one more than the attempts is enough unless their number is the largest u32.
pub mod Laws
pub mod Succeeds
use casper_sidecar.Prelude.{
  ltb, if◌then◌else◌, ℕ, zero, suc, ◌+◌, ◌-◌, ◌*◌, ◌%◌, ◌^◌, String, Option, none, some, [], ◌∷◌,
}
use casper_sidecar.Prelude.Decimal.{decimal}
use casper_sidecar.Prelude.Result.{Result, ok, err}
use casper_sidecar.Prelude.Text.{format}
use casper_sidecar.NodeClient.Network.{ExponentialBackoffConfig, NodeClientConfig, Network}

abbrev pub minimum : ℕ → ℕ → ℕ
minimum a b = if ltb b a then b else a

module _ {Conn W : Type 0} (net : Network Conn W) (config : NodeClientConfig) where
  abbrev pub backoff : ExponentialBackoffConfig
  backoff = config.exponential_backoff

  -- The product is of 64 bits.
  unfoldable pub next_wait : ℕ → ℕ
  next_wait wait = minimum (wait * backoff.coefficient % 2 ^ 64) backoff.max_delay_ms

  unfoldable pub gave_up : (attempts : ℕ) → String
  unfolding format decimal
  gave_up attempts = format (
      "Couldn't connect to node "
      ∷ config.tcp_socket
      ∷ " after "
      ∷ decimal attempts
      ∷ " attempts"
      ∷ [])

  -- The `match` on the result of one attempt; `retry` is the loop from there on.
  unfoldable pub after_attempt :
      (retry : (wait current_attempt : ℕ) → W → Option (Result Conn String × W))
      → (wait current_attempt : ℕ) → Result Conn String × W
      → Option (Result Conn String × W)
  after_attempt retry wait current_attempt (ok stream, w) = some (ok stream, w)
  after_attempt retry wait current_attempt (err _, w) =
      let current = (current_attempt + 1) % 2 ^ 32 in
      let again = retry (next_wait wait) current (net.sleep wait w) in
      if ltb backoff.max_attempts current then some (err (gave_up (current - 1)), w) else again

  -- `none` means that the fuel ran out.
  unfoldable pub attempts : (fuel wait current_attempt : ℕ) → W → Option (Result Conn String × W)
  unfolding after_attempt
  attempts zero wait current_attempt w = none
  attempts (suc fuel) wait current_attempt w =
      after_attempt (attempts fuel) wait current_attempt (net.connect w)

  unfoldable pub connect_with_retries : W → Option (Result Conn String × W)
  unfolding attempts
  connect_with_retries w = attempts (backoff.max_attempts + 1) backoff.initial_delay_ms 1 w

  -- What is done after a connection has been made again.
  re_established : Option (Result Conn String × W) → Option (Result Conn String × W)
  re_established none = none
  re_established (some (ok stream, w)) = some (ok stream, net.observe_reconnect_time w)
  re_established (some (err e, w)) = some (err e, w)

  -- Also `reconnect`, which only calls it.
  unfoldable pub reconnect_internal : W → Option (Result Conn String × W)
  unfolding connect_with_retries re_established
  reconnect_internal w = re_established (connect_with_retries (net.inc_disconnect w))
