-- ===== src/NodeClient/Connect/Laws.antt =====
-- `connect_with_retries` of rpc_sidecar/src/node_client.rs ends, and how.
use casper_sidecar.Prelude.{
  ltb, ◌==◌, if◌then◌else◌, if-true, if-false, ℕ, zero, suc, ◌+◌, ◌-◌, ◌%◌, ◌^◌, ◌≤◌, ◌<◌, String,
  ◌≡◌, refl, ap, ◌∙◌, ◌⊎◌, inl, inr, true, false, Option, some, arith,
}
use casper_sidecar.Prelude.Result.{Result, ok, err}
use casper_sidecar.NodeClient.Network.{NodeClientConfig, Network}
use casper_sidecar.NodeClient.Connect.{
  next_wait, gave_up, after_attempt, attempts, connect_with_retries,
}

connect-cases :
    {A B W : Type 0} (r : Result A B × W)
    → ((a : A) × (w : W) × (r ≡ (ok a, w))) ⊎ ((b : B) × (w : W) × (r ≡ (err b, w)))
connect-cases (ok a, w) = inl (a, w, refl)
connect-cases (err b, w) = inr (b, w, refl)

module _ {Conn W : Type 0} (net : Network Conn W) (config : NodeClientConfig) where
  -- `k` attempts that fail one after the other, with the wait after each, from `w` to `later`.
  abbrev pub Fails : (k wait : ℕ) → (w later : W) → Type 0
  Fails zero wait w later = w ≡ later
  Fails (suc k) wait w later =
      (reason : String) × (w' : W) × (net.connect w ≡ (err reason, w'))
      × Fails k (next_wait net config wait) (net.sleep wait w') later

  -- At least one attempt is made.
  abbrev pub tries : ℕ
  tries =
      if config.exponential_backoff.max_attempts == 0
      then 1
      else config.exponential_backoff.max_attempts

  -- The loop ends with the connection of the first attempt that succeeds, after at most
  -- `others` that fail.
  abbrev pub Connects : (others wait : ℕ) (w : W) → Option (Result Conn String × W) → Type 0
  Connects others wait w r =
      (k : ℕ) × (conn : Conn) × (before : W) × (after : W) × (k ≤ others)
      × Fails k wait w before
      × (net.connect before ≡ (ok conn, after))
      × (r ≡ some (ok conn, after))

  -- The loop ends with an error after `others` attempts that fail and one more, with no wait
  -- after the last.
  abbrev pub GivesUp : (others wait : ℕ) (w : W) → Option (Result Conn String × W) → Type 0
  GivesUp others wait w r =
      (reason : String) × (before : W) × (after : W) × Fails others wait w before
      × (net.connect before ≡ (err reason, after))
      × (r ≡ some (err (gave_up net config tries), after))

  -- An attempt that fails goes before the rest of the loop.
  after_failure :
      (others wait : ℕ) (w w' : W) (reason : String) {r s : Option (Result Conn String × W)}
      → net.connect w ≡ (err reason, w')
      → r ≡ s
      → Connects others (next_wait net config wait) (net.sleep wait w') s
        ⊎ GivesUp others (next_wait net config wait) (net.sleep wait w') s
      → Connects (suc others) wait w r ⊎ GivesUp (suc others) wait w r
  after_failure others wait w w' reason p q (inl (k, conn, before, after, small, fails, c, e)) =
      inl (suc k, conn, before, after, omega arith, (reason, w', p, fails), c, q ∙ e)
  after_failure others wait w w' reason p q (inr (last, before, after, fails, c, e)) =
      inr (last, before, after, (reason, w', p, fails), c, q ∙ e)

  -- One round of the loop, by what the attempt gives.
  pub attempts-ok :
      (fuel wait cur : ℕ) (w after : W) (conn : Conn)
      → net.connect w ≡ (ok conn, after)
      → attempts net config (suc fuel) wait cur w ≡ some (ok conn, after)
  unfolding attempts
  attempts-ok fuel wait cur w after conn p = rw (p, after_attempt) refl

  abbrev pub failed : (fuel wait current : ℕ) → W → Option (Result Conn String × W)
  failed fuel wait current after =
      if ltb config.exponential_backoff.max_attempts current
      then some (err (gave_up net config (current - 1)), after)
      else attempts net config fuel (next_wait net config wait) current (net.sleep wait after)

  pub attempts-err :
      (fuel wait cur : ℕ) (w after : W) (reason : String)
      → net.connect w ≡ (err reason, after)
      → cur + 1 < 2 ^ 32
      → attempts net config (suc fuel) wait cur w ≡ failed fuel wait (cur + 1) after
  unfolding attempts
  attempts-err fuel wait cur w after reason p small =
      let kept : (cur + 1) % 2 ^ 32 ≡ cur + 1 = omega arith in
      ap (after_attempt net config (attempts net config fuel) wait cur) p
      ∙ unfold after_attempt in ap (λ n. failed fuel wait n after) kept

  failed-last :
      (fuel wait cur : ℕ) (after : W)
      → cur ≡ tries
      → 0 < cur
      → failed fuel wait (cur + 1) after ≡ some (err (gave_up net config tries), after)
  failed-last fuel wait cur after t pos =
      let over : ltb config.exponential_backoff.max_attempts (cur + 1) ≡ true = ground arith in
      let same : cur + 1 - 1 ≡ tries = omega arith in
      if-true _ _ over ∙ ap (λ n. some (err (gave_up net config n), after)) same

  pub failed-again :
      (fuel wait cur : ℕ) (after : W)
      → cur < tries
      → 0 < cur
      → failed fuel wait (cur + 1) after
        ≡ attempts net config fuel (next_wait net config wait) (cur + 1) (net.sleep wait after)
  failed-again fuel wait cur after t pos =
      let under : ltb config.exponential_backoff.max_attempts (cur + 1) ≡ false = ground arith in
      if-false _ _ under

  -- `others` more attempts are allowed after the current one.
  attempts-ends :
      (others fuel wait cur : ℕ) (w : W)
      → cur + others ≡ tries
      → 0 < cur
      → tries + 1 < 2 ^ 32
      → others < fuel
      → Connects others wait w (attempts net config fuel wait cur w)
        ⊎ GivesUp others wait w (attempts net config fuel wait cur w)
  attempts-ends others zero wait cur w t pos small h = absurd (omega arith)
  attempts-ends zero (suc fuel) wait cur w t pos small h = elim (connect-cases (net.connect w)) [
    | inl (conn, after, p) ↦
        inl (0, conn, w, after, omega arith, refl, p, attempts-ok fuel wait cur w after conn p)
    | inr (reason, after, p) ↦ inr (
      reason,
      w,
      after,
      refl,
      p,
      attempts-err fuel wait cur w after reason p (omega arith)
          ∙ failed-last fuel wait cur after (omega arith) pos,
    )
  ]
  attempts-ends (suc others) (suc fuel) wait cur w t pos small h =
      elim (connect-cases (net.connect w)) [
        | inl (conn, after, p) ↦
            inl (0, conn, w, after, omega arith, refl, p, attempts-ok fuel wait cur w after conn p)
        | inr (reason, after, p) ↦
            after_failure others wait w after reason p
              (attempts-err fuel wait cur w after reason p (omega arith)
                ∙ failed-again fuel wait cur after (omega arith) pos)
              (attempts-ends others fuel (next_wait net config wait) (cur + 1)
                (net.sleep wait after) (omega arith) (omega arith) small (omega arith))
      ]

  -- The loop of attempts always ends: with the connection of the first attempt that succeeds,
  -- after less than `tries` that fail, or with an error that names their number after `tries`
  -- attempts fail. Here `tries` is the largest number of attempts, or one where that is 0, and the
  -- largest u32 is not allowed for it.
  pub connect_with_retries-ends :
      (w : W)
      → config.exponential_backoff.max_attempts + 1 < 2 ^ 32
      → Connects
          (tries - 1)
          config.exponential_backoff.initial_delay_ms
          w
          (connect_with_retries net config w)
        ⊎ GivesUp
            (tries - 1)
            config.exponential_backoff.initial_delay_ms
            w
            (connect_with_retries net config w)
  unfolding connect_with_retries
  connect_with_retries-ends w small =
      attempts-ends (tries - 1) (config.exponential_backoff.max_attempts + 1)
        config.exponential_backoff.initial_delay_ms 1 w (ground arith) (omega arith) (ground arith)
        (ground arith)
