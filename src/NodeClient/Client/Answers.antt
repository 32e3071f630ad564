-- ===== src/NodeClient/Client/Answers.antt =====
-- What `send_request` of rpc_sidecar/src/node_client.rs gives back, over its two tries.
use casper_sidecar.Prelude.{
  ℕ, ◌+◌, ◌%◌, ◌^◌, String, ◌≡◌, refl, sym, ap, ◌∙◌, subst, ◌⊎◌, inl, inr, Bool, true, false,
  Option, none, some,
}
use casper_sidecar.Prelude.Result.{Result, ok, err}
use casper_sidecar.NodeClient.Error.{Error}
use casper_sidecar.NodeClient.Port.{Bytes, BinaryPort, encode_request, original_id}
use casper_sidecar.NodeClient.Network.{NodeClientConfig, Network}
use casper_sidecar.NodeClient.Client.{
  max_mismatched_id_retries, FramedNodeClient, Outcome, read_responses, next_id, after_send,
  send_payload, send_request_internal, after_reconnect, reconnect_in_time, after_first, with_client,
  send_request,
}
use casper_sidecar.NodeClient.Client.Laws.{read_responses_iff}
use casper_sidecar.NodeClient.Connect.{connect_with_retries}

module _ {Conn W : Type 0} (port : BinaryPort) (net : Network Conn W) where
  abbrev pub following : ℕ → ℕ
  following id = (id + 1) % 2 ^ 16

  -- An outcome that is an answer to the request with this id, which is the last id given out.
  abbrev pub Answers : (id : ℕ) (r : Outcome port.Response Conn W) → Type 0
  Answers id (none, c) = Unit
  Answers id (some (err e), c) = c.current_request_id ≡ following id
  Answers id (some (ok resp), c) =
      (original_id port resp ≡ id) × (c.current_request_id ≡ following id)

  after_send-id :
      (id : ℕ) (client : Conn) (x : Option (Result (Unit {0}) String) × W) (resp : port.Response)
      → (after_send port net id client x).0 ≡ ok resp
      → original_id port resp ≡ id
  unfolding after_send
  after_send-id id client (none, w) resp h = cc
  after_send-id id client (some (err e), w) resp h = cc
  after_send-id id client (some (ok u), w) resp h =
      let r = read_responses port net max_mismatched_id_retries id client w in
      let (k, w', less, skips, arrives, same) =
        (read_responses_iff port net client id max_mismatched_id_retries w r.1 resp).0
          (λ i. (h i, r.1)) in
      same

  sent-Answers :
      (id : ℕ) (r : Result port.Response Error) (c : FramedNodeClient Conn W)
      → c.current_request_id ≡ following id
      → ((resp : port.Response) → r ≡ ok resp → original_id port resp ≡ id)
      → Answers id (some r, c)
  sent-Answers id (ok resp) c e h = (h resp refl, e)
  sent-Answers id (err x) c e h = e

  send_payload-Answers :
      (id : ℕ) (bytes : Result Bytes String) (c : FramedNodeClient Conn W)
      → c.current_request_id ≡ following id
      → Answers id (send_payload port net id bytes c)
  unfolding send_payload
  send_payload-Answers id (err e) c h = tt
  send_payload-Answers id (ok bytes) c h =
      let r = after_send port net id c.client (net.send c.client bytes c.world) in
      sent-Answers id r.0 (record c { world = r.1 }) h
        λ resp e. after_send-id id c.client (net.send c.client bytes c.world) resp e

  send_request_internal-Answers :
      (req : port.Command) (c : FramedNodeClient Conn W)
      → Answers c.current_request_id (send_request_internal port net req c)
  unfolding send_request_internal
  send_request_internal-Answers req c =
      let (id, counted) = next_id port net c in
      send_payload-Answers id (encode_request port req id) counted refl

  module _ (config : NodeClientConfig) where
    -- An answer to the request under its first id, or under the one after it.
    abbrev pub AnswersOnce : (id : ℕ) (r : Outcome port.Response Conn W) → Type 0
    AnswersOnce id r = Answers id r ⊎ Answers (following id) r

    after_reconnect-Answers :
        (req : port.Command) (c : FramedNodeClient Conn W) (id : ℕ)
        (x : Option (Result Conn String × W))
        → c.current_request_id ≡ following id
        → AnswersOnce id (after_reconnect port net config req c x)
    unfolding after_reconnect
    after_reconnect-Answers req c id none h = inl tt
    after_reconnect-Answers req c id (some (ok client, w)) h = inr (
        subst
          (λ n.
            Answers n
              (send_request_internal port net req (record c { client = client; world = w })))
          h (send_request_internal-Answers req (record c { client = client; world = w })))
    after_reconnect-Answers req c id (some (err e, w)) h = inl h

    reconnect_in_time-Answers :
        (req : port.Command) (c : FramedNodeClient Conn W) (id : ℕ) (cut : Option W) (closed : W)
        → c.current_request_id ≡ following id
        → AnswersOnce id (reconnect_in_time port net config req c cut closed)
    unfolding reconnect_in_time
    reconnect_in_time-Answers req c id (some w) closed h = inl h
    reconnect_in_time-Answers req c id none closed h =
        after_reconnect-Answers req c id (connect_with_retries net config closed) h

    after_first-Answers :
        (req : port.Command) (id : ℕ) (r : Outcome port.Response Conn W)
        → Answers id r
        → AnswersOnce id (after_first port net config req r)
    unfolding after_first
    after_first-Answers req id (none, c) h = inl tt
    after_first-Answers req id (some (ok resp), c) h = inl h
    after_first-Answers req id (some (err e), c) h =
        let closed = net.close c.client c.world in
        reconnect_in_time-Answers req c id (net.cut closed) closed h

    abbrev Answered : (id : ℕ) (resp : port.Response) (later : FramedNodeClient Conn W) → Type 0
    Answered id resp later =
        ((original_id port resp ≡ id) ⊎ (original_id port resp ≡ following id))
        × (later.current_request_id ≡ following (original_id port resp))

    answered :
        (id : ℕ) (resp : port.Response) (later : FramedNodeClient Conn W)
        → AnswersOnce id (some (ok resp), later)
        → Answered id resp later
    answered id resp later (inl (same, next)) = (inl same, next ∙ ap following (sym same))
    answered id resp later (inr (same, next)) = (inr same, next ∙ ap following (sym same))

    with_client-Answered :
        (req : port.Command) (c later : FramedNodeClient Conn W) (resp : port.Response)
        (x : Bool × W)
        → with_client port net config req c x ≡ (some (ok resp), later)
        → Answered c.current_request_id resp later
    unfolding with_client
    with_client-Answered req c later resp (false, w) h = cc
    with_client-Answered req c later resp (true, w) h = answered c.current_request_id resp later (
        subst (AnswersOnce c.current_request_id) h (
          after_first-Answers req c.current_request_id
            (send_request_internal port net req (record c { world = w }))
            (send_request_internal-Answers req (record c { world = w }))))

    -- A response that `send_request` returns is to this very request: it carries the id that the
    -- client was about to give out, or, after one reconnection, the id after it, where an id that
    -- cannot be read counts as 0; and the client goes on with the id that follows the response's.
    pub send_request-Answers :
        (req : port.Command) (c later : FramedNodeClient Conn W) (resp : port.Response)
        → send_request port net config req c ≡ (some (ok resp), later)
        → ((original_id port resp ≡ c.current_request_id)
            ⊎ (original_id port resp ≡ following c.current_request_id))
          × (later.current_request_id ≡ following (original_id port resp))
    unfolding send_request
    send_request-Answers req c later resp h =
        with_client-Answered req c later resp (net.acquire c.world) h
