-- ===== src/JsonRpc/Handlers/Laws.antt =====
-- What `RequestHandlers` of json_rpc/src/request_handlers.rs guarantees.
use casper_sidecar.Prelude.{
  if◌then◌else◌, Option-cases, ℕ, String, ◌≡◌, refl, ap, inl, inr, Option, none, some, List, [],
  ◌∷◌, arith, str_eq, str_eq_iff,
}
use casper_sidecar.Prelude.Result.{Result, ok, err, Result-cases}
use casper_sidecar.Prelude.Decimal.{decimalℤ}
use casper_sidecar.JsonRpc.Json.{Value}
use casper_sidecar.JsonRpc.Error.{
  Error, reserved_into, rpc_into, ReservedErrorCode-code, RpcErrorCode-code, new_error,
}
use casper_sidecar.JsonRpc.Request.{Request}
use casper_sidecar.JsonRpc.Response.{
  Response, new_success, new_failure, raw_result, response_error, response_id,
}
use casper_sidecar.JsonRpc.Handlers.{
  Governor, Handler, RequestHandlers, lookup, insert, Served, Metric, inc_method_call,
  register_request_size, observe_response_time, run_handler, handle_request,
}
use casper_sidecar.Prelude.Int.{ℤ, pos, neg}

module _ {ℓ} {V : Type ℓ} where
  -- Only the inserted key changes.
  pub lookup-insert :
      (key other : String) (value : V) (map : List (String × V))
      → lookup other (insert key value map)
        ≡ (if str_eq key other then some value else lookup other map)
  unfolding lookup insert
  lookup-insert key other value [] = refl
  lookup-insert key other value (entry ∷ rest) = ground (
    arith,
    str_eq_iff key other,
    str_eq_iff entry.0 key,
    str_eq_iff entry.0 other,
    lookup-insert key other value rest,
  )

-- The code of a failure.
abbrev pub error_code : {N : Type 0} → Response N → Option ℤ
error_code r = elim (response_error r) [ none ↦ none | some e ↦ some e.code ]

module _ {W Q L N : Type 0} (governor : Governor Q L) (now : ℕ) (handlers : RequestHandlers W L N)
    (request : Request N) (size : ℕ) (w : W) where
  abbrev pub served : Served W L N
  served = handle_request governor now handlers request size w

  -- The calls of the metrics for a request with a handler.
  abbrev pub calls : List Metric → List Metric
  calls rest = inc_method_call request.method ∷ register_request_size request.method size ∷ rest

  -- Only the request's own entry has changed, to the given limiter.
  abbrev pub IsCheckedOnly : Handler W (Value N) N → L → RequestHandlers W L N → Type 0
  IsCheckedOnly h l after =
      (j : String)
      → lookup j after ≡ (if str_eq request.method j then some (h, l) else lookup j handlers)

  -- What one request leaves, by what is registered, what the limiter says, and how the handler ends.
  pub data Answers : Served W L N → Type 0 where
    unknown :
        {s : Served W L N}
        → lookup request.method handlers ≡ none
        → response_id s.response ≡ request.id
        → error_code s.response ≡ some (neg 32601)
        → s.world ≡ w
        → s.handlers ≡ handlers
        → s.metrics ≡ observe_response_time "unknown-handler" "unknown-handler" ∷ []
        → Answers s
    throttled :
        {s : Served W L N} (h : Handler W (Value N) N) (l : L) (wait : String)
        → lookup request.method handlers ≡ some (h, l)
        → (governor.check now l).1 ≡ some wait
        → response_id s.response ≡ request.id
        → error_code s.response ≡ some (pos 429)
        → s.world ≡ w
        → IsCheckedOnly h (governor.check now l).0 s.handlers
        → s.metrics ≡ calls []
        → Answers s
    succeeded :
        {s : Served W L N} (h : Handler W (Value N) N) (l : L) (value : Value N)
        → lookup request.method handlers ≡ some (h, l)
        → (governor.check now l).1 ≡ none
        → (h request.params w).0 ≡ ok value
        → response_id s.response ≡ request.id
        → raw_result s.response ≡ some value
        → s.world ≡ (h request.params w).1
        → IsCheckedOnly h (governor.check now l).0 s.handlers
        → s.metrics ≡ calls (observe_response_time request.method "success" ∷ [])
        → Answers s
    failed :
        {s : Served W L N} (h : Handler W (Value N) N) (l : L) (e : Error N)
        → lookup request.method handlers ≡ some (h, l)
        → (governor.check now l).1 ≡ none
        → (h request.params w).0 ≡ err e
        → response_id s.response ≡ request.id
        → response_error s.response ≡ some e
        → s.world ≡ (h request.params w).1
        → IsCheckedOnly h (governor.check now l).0 s.handlers
        → s.metrics ≡ calls (observe_response_time request.method (decimalℤ e.code) ∷ [])
        → Answers s

  run_throttled :
      (h : Handler W (Value N) N) (l : L) (c : L × Option String) (wait : String)
      → lookup request.method handlers ≡ some (h, l)
      → governor.check now l ≡ c
      → c.1 ≡ some wait
      → Answers (run_handler governor request size handlers h c w)
  unfolding response_id response_error new_failure new_error rpc_into
  run_throttled h l (l', some d) wait e same q =
      throttled h l d e (ap (λ x. x.1) same) refl refl refl
        (rw same (λ j. lookup-insert request.method j (h, l') handlers)) refl
  run_throttled h l (l', none) wait e same q = cc

  -- `same` is the check, `outcome` what the handler gave.
  run_admitted :
      (h : Handler W (Value N) N) (l l' : L) (outcome : Result (Value N) (Error N))
      → lookup request.method handlers ≡ some (h, l)
      → governor.check now l ≡ (l', none)
      → (h request.params w).0 ≡ outcome
      → Answers (run_handler governor request size handlers h (l', none) w)
  unfolding response_id raw_result response_error new_success new_failure decimalℤ
  run_admitted h l l' (ok value) e same q =
      succeeded h l value e (ap (λ x. x.1) same) q (rw q refl) (rw q refl) refl
        (rw same (λ j. lookup-insert request.method j (h, l') handlers)) (rw q refl)
  run_admitted h l l' (err x) e same q =
      failed h l x e (ap (λ x. x.1) same) q (rw q refl) (rw q refl) refl
        (rw same (λ j. lookup-insert request.method j (h, l') handlers)) (rw q refl)

  run-Answers :
      (h : Handler W (Value N) N) (l : L) (c : L × Option String)
      → lookup request.method handlers ≡ some (h, l)
      → governor.check now l ≡ c
      → Answers (run_handler governor request size handlers h c w)
  run-Answers h l (l', some wait) e same = run_throttled h l (l', some wait) wait e same refl
  run-Answers h l (l', none) e same = run_admitted h l l' (h request.params w).0 e same refl

  -- Every request is answered under its id, in one of four ways. A method that nothing is registered
  -- for gets -32601. A request that the limiter of its handler refuses gets 429. Otherwise the handler
  -- runs on the params, and the response holds its value, or the error that it gave. The world
  -- changes only by the handler. Of the handlers, only the limiter of this one changes.
  -- The calls of the metrics name the method, its size and how it ended.
  pub handle_request-Answers : Answers served
  handle_request-Answers = elim (Option-cases (lookup request.method handlers)) [
    | inl e ↦
        unfold handle_request response_id response_error new_failure new_error reserved_into in
        rw (e, handle_request) (unknown e refl refl refl refl refl)
    | inr ((h, l), e) ↦
        unfold handle_request in
        rw (e, handle_request) (run-Answers h l (governor.check now l) e refl)
  ]

  run_handler_id :
      (h : Handler W (Value N) N) (c : L × Option String)
      → response_id (run_handler governor request size handlers h c w).response ≡ request.id
  unfolding response_id new_success new_failure
  run_handler_id h (l, some wait) = refl
  run_handler_id h (l, none) = elim (Result-cases (h request.params w).0) [
    | inl (v, e) ↦ rw e refl
    | inr (v, e) ↦ rw e refl
  ]

  -- Whatever happens to a request, the response carries its id.
  pub handle_request_id : response_id served.response ≡ request.id
  handle_request_id = elim (Option-cases (lookup request.method handlers)) [
    | inl e ↦ unfold handle_request response_id new_failure in rw (e, handle_request) refl
    | inr ((h, l), e) ↦
        unfold handle_request in rw (e, handle_request) (run_handler_id h (governor.check now l))
  ]
