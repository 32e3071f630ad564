-- ===== src/NodeClient/Client/Laws.antt =====
-- Which response the loop of `send_request_internal` in rpc_sidecar/src/node_client.rs returns.
use casper_sidecar.Prelude.{
  ltb, ◌==◌, Bool-cases, ℕ, zero, suc, ◌+◌, ◌-◌, ◌<◌, String, ◌≡◌, refl, ap, ◌∙◌, ◌↔◌, ◌⊎◌, inl,
  inr, Option, none, some, arith,
}
use casper_sidecar.Prelude.Result.{Result, ok, err, Result-cases}
use casper_sidecar.NodeClient.Port.{Bytes, BinaryPort, original_id}
use casper_sidecar.NodeClient.Network.{Network}
use casper_sidecar.NodeClient.Client.{after_payload, after_next, read_responses}

module _ {Conn W : Type 0} (port : BinaryPort) (net : Network Conn W) (client : Conn)
    (request_id : ℕ) where
  -- The next message is a response.
  abbrev pub Arrives : (w : W) (resp : port.Response) (later : W) → Type 0
  Arrives w resp later =
      (payload : Bytes) × (net.next client w ≡ (some (some (ok payload)), later))
      × (port.response_from_bytes payload ≡ ok resp)

  -- `k` responses arrive, one after the other, each with an id below the request's.
  abbrev pub Skips : (k : ℕ) (w later : W) → Type 0
  Skips zero w later = w ≡ later
  Skips (suc k) w later =
      (resp : port.Response) × (w' : W) × Arrives w resp w'
      × (original_id port resp < request_id)
      × Skips k (net.register_mismatched_id w') later

  -- One round, by the response that arrives.
  read-outdated :
      (n : ℕ) (w w' : W) (resp : port.Response)
      → Arrives w resp w'
      → original_id port resp < request_id
      → read_responses port net (suc n) request_id client w
        ≡ read_responses port net n request_id client (net.register_mismatched_id w')
  unfolding read_responses
  read-outdated n w w' resp (payload, p, q) small = ground (arith)

  read-match :
      (n : ℕ) (w w' : W) (resp : port.Response)
      → Arrives w resp w'
      → original_id port resp ≡ request_id
      → read_responses port net (suc n) request_id client w ≡ (ok resp, w')
  unfolding read_responses
  read-match n w w' resp (payload, p, q) same = ground arith

  read-Skips :
      (k n : ℕ) (w later : W)
      → Skips k w later
      → read_responses port net (k + n) request_id client w
        ≡ read_responses port net n request_id client later
  read-Skips zero n w later h =
      let start : 0 + n ≡ n = omega arith in
      ap (λ m. read_responses port net m request_id client w) start
      ∙ ap (read_responses port net n request_id client) h
  read-Skips (suc k) n w later (resp, w', arrives, small, rest) =
      let one = read-outdated (k + n) w w' resp arrives small in
      let more = read-Skips k n (net.register_mismatched_id w') later rest in
      let split : suc k + n ≡ suc (k + n) = omega arith in
      ap (λ m. read_responses port net m request_id client w) split ∙ one ∙ more

  -- What a round that ends well has read.
  abbrev Round : (n : ℕ) (w : W) (resp : port.Response) (later : W) → Type 0
  Round n w resp later =
      (Arrives w resp later × (original_id port resp ≡ request_id))
      ⊎ ((old : port.Response) × (w' : W) × Arrives w old w'
          × (original_id port old < request_id)
          × (read_responses port net n request_id client (net.register_mismatched_id w')
              ≡ (ok resp, later)))

  payload_inversion :
      (n : ℕ) (w w' later : W) (payload : Bytes) (resp : port.Response)
      → net.next client w ≡ (some (some (ok payload)), w')
      → after_payload port net
          (read_responses port net n request_id client)
          request_id
          (port.response_from_bytes payload)
          w'
        ≡ (ok resp, later)
      → Round n w resp later
  unfolding after_payload
  payload_inversion n w w' later payload resp p h =
      elim (Result-cases (port.response_from_bytes payload)) [
        | inl (got, q) ↦ elim (Bool-cases (original_id port got == request_id)) [
          | inl same ↦ inl ((payload, ground arith, ground arith), ground arith)
          | inr other ↦ elim (Bool-cases (ltb (original_id port got) request_id)) [
            | inl below ↦ inr (got, w', (payload, p, q), ground arith, ground arith)
            | inr above ↦ absurd (ground arith)
          ]
        ]
        | inr (e, q) ↦ absurd (ground arith)
      ]

  next_inversion :
      (n : ℕ) (w later : W) (resp : port.Response) (x : Option (Option (Result Bytes String)) × W)
      → net.next client w ≡ x
      → after_next port net (read_responses port net n request_id client) request_id x
        ≡ (ok resp, later)
      → Round n w resp later
  unfolding after_next
  next_inversion n w later resp (none, w') p h = cc
  next_inversion n w later resp (some none, w') p h = cc
  next_inversion n w later resp (some (some (err e)), w') p h = cc
  next_inversion n w later resp (some (some (ok payload)), w') p h =
      payload_inversion n w w' later payload resp p h

  round :
      (n : ℕ) (w later : W) (resp : port.Response)
      → read_responses port net (suc n) request_id client w ≡ (ok resp, later)
      → Round n w resp later
  unfolding read_responses
  round n w later resp h = next_inversion n w later resp (net.next client w) refl h

  abbrev pub Found : (n : ℕ) (w : W) (resp : port.Response) (later : W) → Type 0
  Found n w resp later =
      (k : ℕ) × (w' : W) × (k < n)
      × Skips k w w'
      × Arrives w' resp later
      × (original_id port resp ≡ request_id)

  Found-later :
      (n : ℕ) (w w' later : W) (old resp : port.Response)
      → Arrives w old w'
      → original_id port old < request_id
      → Found n (net.register_mismatched_id w') resp later
      → Found (suc n) w resp later
  Found-later n w w' later old resp a small (k, u, less, skips, arrives, same) =
      (suc k, u, omega arith, (old, w', a, small, skips), arrives, same)

  read_responses-ok :
      (n : ℕ) (w later : W) (resp : port.Response)
      → read_responses port net n request_id client w ≡ (ok resp, later)
      → Found n w resp later
  unfolding read_responses
  read_responses-ok zero w later resp h = cc
  read_responses-ok (suc n) w later resp h = elim (round n w later resp h) [
    | inl (arrives, same) ↦ (0, w, omega arith, refl, arrives, same)
    | inr (old, w', arrives, small, rest) ↦
        Found-later n w w' later old resp arrives small
          (read_responses-ok n (net.register_mismatched_id w') later resp rest)
  ]

  read_responses-Found :
      (n : ℕ) (w later : W) (resp : port.Response)
      → Found n w resp later
      → read_responses port net n request_id client w ≡ (ok resp, later)
  read_responses-Found n w later resp (k, w', less, skips, arrives, same) =
      let rounds : n ≡ k + suc (n - k - 1) = omega arith in
      ap (λ m. read_responses port net m request_id client w) rounds
      ∙ read-Skips k (suc (n - k - 1)) w w' skips
      ∙ read-match (n - k - 1) w' later resp arrives same

  -- The loop returns a response with a state exactly if fewer responses than there are rounds
  -- arrive first, all with ids below the one of the request, and then that response arrives,
  -- with the id of the request, in that state.
  pub read_responses_iff :
      (n : ℕ) (w later : W) (resp : port.Response)
      → (read_responses port net n request_id client w ≡ (ok resp, later)) ↔ Found n w resp later
  read_responses_iff n w later resp =
      (read_responses-ok n w later resp, λ found. read_responses-Found n w later resp found)
