-- ===== src/NodeClient/Connect/Succeeds.antt =====
-- When `connect_with_retries` of rpc_sidecar/src/node_client.rs connects.
use casper_sidecar.Prelude.{ℕ, zero, suc, ◌+◌, ◌-◌, ◌^◌, ◌≤◌, ◌<◌, ◌≡◌, ap, ◌∙◌, some, arith}
use casper_sidecar.Prelude.Result.{ok}
use casper_sidecar.NodeClient.Network.{NodeClientConfig, Network}
use casper_sidecar.NodeClient.Connect.{next_wait, attempts, connect_with_retries}
use casper_sidecar.NodeClient.Connect.Laws.{Fails, tries, attempts-ok, attempts-err, failed-again}

module _ {Conn W : Type 0} (net : Network Conn W) (config : NodeClientConfig) (conn : Conn)
    (before after : W) (success : net.connect before ≡ (ok conn, after))
    (small : tries net config + 1 < 2 ^ 32) where
  attempts-connects :
      (k others fuel wait cur : ℕ) (w : W)
      → k ≤ others
      → cur + others ≡ tries net config
      → 0 < cur
      → others < fuel
      → Fails net config k wait w before
      → attempts net config fuel wait cur w ≡ some (ok conn, after)
  attempts-connects k others zero wait cur w le t pos h fails = absurd (omega arith)
  attempts-connects zero others (suc fuel) wait cur w le t pos h fails =
      attempts-ok net config fuel wait cur w after conn (ap net.connect fails ∙ success)
  attempts-connects (suc k) zero (suc fuel) wait cur w le t pos h fails = absurd (omega arith)
  attempts-connects (suc k) (suc others) (suc fuel) wait cur w le t pos h (reason, w', p, fails) =
      attempts-err net config fuel wait cur w w' reason p (omega arith)
      ∙ failed-again net config fuel wait cur w' (omega arith) pos
      ∙ attempts-connects k others fuel (next_wait net config wait) (cur + 1) (net.sleep wait w')
          (omega arith) (omega arith) (omega arith) (omega arith) fails

  pub connect_with_retries-connects :
      (k : ℕ) (w : W)
      → k < tries net config
      → Fails net config k config.exponential_backoff.initial_delay_ms w before
      → connect_with_retries net config w ≡ some (ok conn, after)
  unfolding connect_with_retries
  connect_with_retries-connects k w less fails =
      attempts-connects k (tries net config - 1) (config.exponential_backoff.max_attempts + 1)
        config.exponential_backoff.initial_delay_ms 1 w (omega arith) (omega arith) (omega arith)
        (ground arith) fails
