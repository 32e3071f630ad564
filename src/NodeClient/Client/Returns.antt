-- ===== src/NodeClient/Client/Returns.antt =====
-- That `send_request` of rpc_sidecar/src/node_client.rs comes back, and recovers from a lost connection.
use casper_sidecar.Prelude.{
  ℕ, ◌+◌, ◌^◌, ◌<◌, String, ◌≡◌, refl, sym, ap, ◌∙◌, subst, inl, inr, Bool, true, false, Option,
  none, some, arith,
}
use casper_sidecar.Prelude.Result.{Result, ok, err}
use casper_sidecar.NodeClient.Error.{Error}
use casper_sidecar.NodeClient.Port.{Bytes, BinaryPort, encode_request}
use casper_sidecar.NodeClient.Network.{NodeClientConfig, Network}
use casper_sidecar.NodeClient.Connect.{connect_with_retries}
use casper_sidecar.NodeClient.Connect.Laws.{Fails, tries, failed, connect_with_retries-ends}
use casper_sidecar.NodeClient.Client.{
  max_mismatched_id_retries, FramedNodeClient, Outcome, next_id, after_send, send_payload,
  send_request_internal, after_reconnect, reconnect_in_time, after_first, with_client, send_request,
}
use casper_sidecar.NodeClient.Client.Laws.{Found, read_responses_iff}
use casper_sidecar.NodeClient.Client.Answers.{following}
use casper_sidecar.NodeClient.Connect.Succeeds.{connect_with_retries-connects}

module _ {Conn W : Type 0} (port : BinaryPort) (net : Network Conn W) where
  abbrev pub Returns : Outcome port.Response Conn W → Type 0
  Returns r = (x : Result port.Response Error) × (r.0 ≡ some x)

  -- A request that can be serialized under every id.
  abbrev pub IsEncodable : port.Command → Type 0
  IsEncodable req = (id : ℕ) → (bytes : Bytes) × (encode_request port req id ≡ ok bytes)

  send_request_internal-Returns :
      (req : port.Command) (c : FramedNodeClient Conn W)
      → IsEncodable req
      → Returns (send_request_internal port net req c)
  unfolding send_request_internal
  send_request_internal-Returns req c enc =
      let (bytes, e) = enc c.current_request_id in
      let (id, counted) = next_id port net c in
      (
        (after_send port net id counted.client (net.send counted.client bytes counted.world)).0,
        ap (λ b. (send_payload port net id b counted).0) e ∙ unfold send_payload in refl,
      )

  -- One try over a connection on which the request is sent and its response is found.
  send_request_internal-Found :
      (req : port.Command) (c : FramedNodeClient Conn W) (bytes : Bytes) (sent later : W)
      (resp : port.Response)
      → encode_request port req c.current_request_id ≡ ok bytes
      → net.send c.client bytes c.world ≡ (some (ok tt), sent)
      → Found port net c.client c.current_request_id max_mismatched_id_retries sent resp later
      → send_request_internal port net req c ≡ (
        some (ok resp),
        record c { current_request_id = following port net c.current_request_id; world = later },
      )
  unfolding send_request_internal
  send_request_internal-Found req c bytes sent later resp e s found =
      let counted = (next_id port net c).1 in
      ap (λ b. send_payload port net c.current_request_id b counted) e
      ∙ unfold send_payload in
        ap (λ (x : Result port.Response Error × W). (some x.0, record counted { world = x.1 }))
          (ap (after_send port net c.current_request_id c.client) s
            ∙ unfold after_send in
              (read_responses_iff port net c.client c.current_request_id max_mismatched_id_retries
                  sent later resp).1
                found)

  module _ (config : NodeClientConfig) where
    after_reconnect-Returns :
        (req : port.Command) (c : FramedNodeClient Conn W) (x : Result Conn String × W)
        → IsEncodable req
        → Returns (after_reconnect port net config req c (some x))
    unfolding after_reconnect
    after_reconnect-Returns req c (ok client, w) enc =
        send_request_internal-Returns req (record c { client = client; world = w }) enc
    after_reconnect-Returns req c (err e, w) enc = (_, refl)

    connect-some :
        (w : W)
        → config.exponential_backoff.max_attempts + 1 < 2 ^ 32
        → (x : Result Conn String × W) × (connect_with_retries net config w ≡ some x)
    connect-some w small = elim (connect_with_retries-ends net config w small) [
      | inl (k, conn, before, after, less, fails, c, e) ↦ ((ok conn, after), e)
      | inr (reason, before, after, fails, c, e) ↦ (_, e)
    ]

    reconnect_in_time-Returns :
        (req : port.Command) (c : FramedNodeClient Conn W) (cut : Option W) (closed : W)
        → IsEncodable req
        → config.exponential_backoff.max_attempts + 1 < 2 ^ 32
        → Returns (reconnect_in_time port net config req c cut closed)
    unfolding reconnect_in_time
    reconnect_in_time-Returns req c (some w) closed enc small = (_, refl)
    reconnect_in_time-Returns req c none closed enc small =
        let (x, e) = connect-some closed small in
        subst (λ o. Returns (after_reconnect port net config req c o)) (sym e)
          (after_reconnect-Returns req c x enc)

    after_first-Returns :
        (req : port.Command) (r : Outcome port.Response Conn W)
        → IsEncodable req
        → config.exponential_backoff.max_attempts + 1 < 2 ^ 32
        → Returns r
        → Returns (after_first port net config req r)
    unfolding after_first
    after_first-Returns req (none, c) enc small (x, e) = cc
    after_first-Returns req (some (ok resp), c) enc small h = h
    after_first-Returns req (some (err e), c) enc small h =
        let closed = net.close c.client c.world in
        reconnect_in_time-Returns req c (net.cut closed) closed enc small

    with_client-Returns :
        (req : port.Command) (c : FramedNodeClient Conn W) (x : Bool × W)
        → IsEncodable req
        → config.exponential_backoff.max_attempts + 1 < 2 ^ 32
        → Returns (with_client port net config req c x)
    unfolding with_client
    with_client-Returns req c (false, w) enc small = (_, refl)
    with_client-Returns req c (true, w) enc small =
        after_first-Returns req (send_request_internal port net req (record c { world = w })) enc
          small (send_request_internal-Returns req (record c { world = w }) enc)

    -- `send_request` comes back with a response or an error, for a request that can be serialized
    -- and any number of attempts to connect but the largest u32.
    pub send_request-Returns :
        (req : port.Command) (c : FramedNodeClient Conn W)
        → IsEncodable req
        → config.exponential_backoff.max_attempts + 1 < 2 ^ 32
        → Returns (send_request port net config req c)
    unfolding send_request
    send_request-Returns req c enc small = with_client-Returns req c (net.acquire c.world) enc small

    -- After a first try that fails, the request is sent again over a new connection, and the
    -- response to it is returned: the connection is made in time and by less failing attempts than
    -- are allowed, and the response is found after less than 100 outdated ones. The client then
    -- holds the new connection and has given out one more id.
    pub send_request-recovers :
        (req : port.Command) (c failed : FramedNodeClient Conn W) (first : Error) (conn : Conn)
        (held before after sent later : W) (bytes : Bytes) (resp : port.Response) (k : ℕ)
        → net.acquire c.world ≡ (true, held)
        → send_request_internal port net req (record c { world = held })
          ≡ (some (err first), failed)
        → net.cut (net.close failed.client failed.world) ≡ none
        → config.exponential_backoff.max_attempts + 1 < 2 ^ 32
        → k < tries net config
        → Fails net config k config.exponential_backoff.initial_delay_ms
            (net.close failed.client failed.world)
            before
        → net.connect before ≡ (ok conn, after)
        → encode_request port req failed.current_request_id ≡ ok bytes
        → net.send conn bytes after ≡ (some (ok tt), sent)
        → Found port net conn failed.current_request_id max_mismatched_id_retries sent resp later
        → send_request port net config req c ≡ (
          some (ok resp),
          record failed {
            client = conn;
            current_request_id = following port net failed.current_request_id;
            world = later;
          },
        )
    unfolding send_request
    send_request-recovers req c failed first conn held before after sent later bytes resp k a f cut
          small less fails p e s found =
        let closed = net.close failed.client failed.world in
        let connects =
          connect_with_retries-connects net config conn before after p (ground arith) k closed less
            fails in
        ap (with_client port net config req c) a
        ∙ unfold with_client in
          ap (after_first port net config req) f
          ∙ unfold after_first in
            ap (λ x. reconnect_in_time port net config req failed x closed) cut
            ∙ unfold reconnect_in_time in
              ap (after_reconnect port net config req failed) connects
              ∙ unfold after_reconnect in
                send_request_internal-Found req (record failed { client = conn; world = after })
                  bytes sent later resp e s found
