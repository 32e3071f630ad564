-- ===== src/JsonRpc/Handlers.antt =====
-- json_rpc/src/request_handlers.rs. A handler is a function that may change a world `W`; a limiter
-- of the `governor` crate is a value of `L`.
pub mod Laws
use casper_sidecar.Prelude.{if◌then◌else◌, ℕ, String, Option, none, some, List, [], ◌∷◌, str_eq}
use casper_sidecar.Prelude.Result.{Result, ok, err, ◌>>=◌, map_err, ◌>>◌}
use casper_sidecar.Prelude.Text.{format}
use casper_sidecar.Prelude.Decimal.{decimalℤ}
use casper_sidecar.JsonRpc.Json.{Value, string}
use casper_sidecar.JsonRpc.Error.{
  method_not_found, internal_error, request_throttled, ReservedErrorCode-code, RpcErrorCode-code,
  Error, new_error,
}
use casper_sidecar.JsonRpc.Params.{Params, to_value}
use casper_sidecar.JsonRpc.Request.{Request}
use casper_sidecar.JsonRpc.Response.{Response, new_success, new_failure}

-- `governor`: a limiter for a quota, and its check at an instant, which yields the wait in seconds
-- with four digits where the limit is met.
pub record Governor (Q L : Type 0) : Type 0 where
  pub direct : Q → L
  pub check : (now : ℕ) → L → L × Option String

-- The calls of the `metrics` crate, without the elapsed time.
pub data Metric : Type 0 where
  inc_method_call : (method : String) → Metric
  register_request_size : (method : String) → (size : ℕ) → Metric
  observe_response_time : (method status : String) → Metric

abbrev pub Handler : (W T N : Type 0) → Type 0
Handler W T N = Option (Params N) → W → Result T (Error N) × W

-- `HashMap<&'static str, (RequestHandler, DefaultDirectRateLimiter)>`
abbrev pub RequestHandlers : (W L N : Type 0) → Type 0
RequestHandlers W L N = List (String × (Handler W (Value N) N × L))

module _ {ℓ} {V : Type ℓ} where
  unfoldable pub lookup : (key : String) → List (String × V) → Option V
  lookup key [] = none
  lookup key (entry ∷ rest) = if str_eq entry.0 key then some entry.1 else lookup key rest

  unfoldable pub insert : (key : String) → (value : V) → List (String × V) → List (String × V)
  insert key value [] = (key, value) ∷ []
  insert key value (entry ∷ rest) =
      if str_eq entry.0 key then (key, value) ∷ rest else entry ∷ insert key value rest

-- What one request leaves: its response, the handlers with the limiter checked, the world and the
-- calls of the metrics.
pub record Served (W L N : Type 0) : Type 0 where
  pub response : Response N
  pub handlers : RequestHandlers W L N
  pub world : W
  pub metrics : List Metric

-- The last `match` of `handle_request`.
abbrev pub respond :
    {N : Type 0}
    → (method : String) → (id : Value N) → Result (Value N) (Error N)
    → Response N × Metric
respond method id (ok value) = (new_success id value, observe_response_time method "success")
respond method id (err e) = (new_failure id e, observe_response_time method (decimalℤ e.code))

module _ {W Q L N : Type 0} (governor : Governor Q L) where
  -- `wrapped_handler`: the handler's result encoded by serde.
  wrapped_handler :
      {T : Type 0} → (T → Result (Value N) String) → Handler W T N → Handler W (Value N) N
  unfolding format
  wrapped_handler to_value handler maybe_params w =
      let (r, w') = handler maybe_params w in
      (
        (do
          t ← r
          map_err
              (λ e.
                new_error internal_error
                  (ok (string (format ("failed to encode json-rpc response value: " ∷ e ∷ [])))))
              (to_value t)),
        w',
      )

  unfoldable pub register_handler :
      {T : Type 0}
      → (T → Result (Value N) String)
      → (method : String) → Handler W T N
      → (quota : Q) → RequestHandlers W L N
      → RequestHandlers W L N
  unfolding wrapped_handler
  register_handler to_value method handler quota =
      insert method (wrapped_handler to_value handler, governor.direct quota)

  abbrev run_handler :
      (request : Request N) (size : ℕ)
      → RequestHandlers W L N
      → Handler W (Value N) N
      → L × Option String
      → W
      → Served W L N
  run_handler request size handlers handler (limiter, some wait) w = record {
    response =
        new_failure request.id
          (new_error request_throttled (ok (string (format ("retry-after " ∷ wait ∷ "s" ∷ [])))));
    handlers = insert request.method (handler, limiter) handlers;
    world = w;
    metrics = inc_method_call request.method ∷ register_request_size request.method size ∷ [];
  }
  run_handler request size handlers handler (limiter, none) w =
      let (outcome, w') = handler request.params w in
      let (response, observed) = respond request.method request.id outcome in
      record {
        response = response;
        handlers = insert request.method (handler, limiter) handlers;
        world = w';
        metrics =
            inc_method_call request.method
            ∷ register_request_size request.method size
            ∷ observed
            ∷ [];
      }

  -- `RequestHandlers::handle_request` at the instant `now`.
  unfoldable pub handle_request :
      (now : ℕ) → RequestHandlers W L N → Request N → (size : ℕ) → W → Served W L N
  handle_request now handlers request size w = elim (lookup request.method handlers) [
    | none ↦ record {
      response = new_failure request.id (
          new_error method_not_found (
            ok (
              string (
                format (
                  "'" ∷ request.method ∷ "' is not a supported json-rpc method on this server"
                  ∷ [])))));
      handlers = handlers;
      world = w;
      metrics = observe_response_time "unknown-handler" "unknown-handler" ∷ [];
    }
    | some (handler, limiter) ↦
        run_handler request size handlers handler (governor.check now limiter) w
  ]
