-- ===== src/JsonRpc/Request/Laws.antt =====
-- When `Request::new` of json_rpc/src/request.rs accepts a request.
use casper_sidecar.Prelude.{
  if◌then◌else◌, String, ◌≡◌, refl, ap, ◌≢◌, ◌↔◌, ◌⊎◌, inl, inr, Bool, true, false, Option, none,
  some, List, [], ◌∷◌, arith, str_eq, str_eq_iff,
}
use casper_sidecar.Prelude.Result.{Result, ok, err, ◌>>=◌, ◌>>◌}
use casper_sidecar.JsonRpc.Json.{
  Value, null, bool, number, string, array, object, nil, Fields, get, without, keys, get-without,
  keys_nil_iff,
}
use casper_sidecar.JsonRpc.Error.{ReservedErrorCode-code, RpcErrorCode-code}
use casper_sidecar.JsonRpc.Params.{ErrorOrRejection, Params, array_params, object_params}
use casper_sidecar.JsonRpc.Request.{
  JsonNumbers, Request, check_jsonrpc, check_method, check_params, take_id, check_unknown, or_null,
  new_request,
}

module _ {N : Type 0} where
  -- The params that a "params" field stands for.
  abbrev pub ParamsOf : Option (Value N) → Option (Params N) → Type 0
  ParamsOf none p = p ≡ none
  ParamsOf (some null) p = p ≡ some (array_params nil)
  ParamsOf (some (array items)) p = p ≡ some (array_params items)
  ParamsOf (some (object fields)) p = p ≡ some (object_params fields)
  ParamsOf (some _) p = ⊥

-- The fields of a request object.
abbrev pub IsRequestField : String → Type 0
IsRequestField k = (k ≡ "jsonrpc") ⊎ (k ≡ "method") ⊎ (k ≡ "params") ⊎ (k ≡ "id")

module _ {N : Type 0} (numbers : JsonNumbers N) where
  open numbers use {is_f64}

  -- A String, Null or a Number with no fractional part.
  abbrev pub IsValidId : Value N → Type 0
  IsValidId (string _) = Unit
  IsValidId null = Unit
  IsValidId (number n) = is_f64 n ≡ false
  IsValidId _ = ⊥

  -- A request object as the JSON-RPC specification has it, and what is read from it.
  pub record Conforms (allow : Bool) (fs : Fields N) (r : Request N) : Type 0 where
    pub version : get "jsonrpc" fs ≡ some (string "2.0")
    pub named : get "method" fs ≡ some (string r.method)
    pub given : ParamsOf (get "params" fs) r.params
    pub identified : get "id" fs ≡ some r.id
    pub valid_id : IsValidId r.id
    pub known : (allow ≡ true) ⊎ ((k : String) → get k fs ≢ none → IsRequestField k)

  pub check_jsonrpc-ok :
      (id : Value N) (o : Option (Value N))
      → (check_jsonrpc numbers id o ≡ ok tt) ↔ (o ≡ some (string "2.0"))
  unfolding check_jsonrpc
  check_jsonrpc-ok id none = (λ h. cc, λ h. cc)
  check_jsonrpc-ok id (some (string s)) =
      (λ h. ground (arith, str_eq_iff s "2.0"), λ h. ground (arith, str_eq_iff s "2.0"))
  check_jsonrpc-ok id (some v) = (λ h. ground arith, λ h. ground arith)

  pub check_method-ok :
      (id : Value N) (o : Option (Value N)) (m : String)
      → (check_method numbers id o ≡ ok m) ↔ (o ≡ some (string m))
  unfolding check_method
  check_method-ok id none m = (λ h. cc, λ h. cc)
  check_method-ok id (some v) m = (λ h. ground arith, λ h. ground arith)

  pub check_params-ok :
      (id : Value N) (o : Option (Value N)) (p : Option (Params N))
      → (check_params numbers id o ≡ ok p) ↔ ParamsOf o p
  unfolding check_params
  check_params-ok id none p = (λ h. ground arith, λ h. ground arith)
  check_params-ok id (some null) p = (λ h. ground arith, λ h. ground arith)
  check_params-ok id (some (bool true)) p = (λ h. ground arith, λ h. absurd h)
  check_params-ok id (some (bool false)) p = (λ h. ground arith, λ h. absurd h)
  check_params-ok id (some v) p = (λ h. ground arith, λ h. ground arith)

  take_valid : (w v : Value N) → (take_id numbers (some w) ≡ ok v) → (w ≡ v) × IsValidId w
  unfolding take_id
  take_valid null v h = (cc, tt)
  take_valid (bool b) v h = absurd (cc)
  take_valid (number n) v h = (ground arith, ground arith)
  take_valid (string s) v h = (cc, tt)
  take_valid (array s) v h = absurd (cc)
  take_valid (object s) v h = absurd (cc)

  take_of_valid : (w : Value N) → IsValidId w → take_id numbers (some w) ≡ ok w
  unfolding take_id
  take_of_valid null h = refl
  take_of_valid (string s) h = refl
  take_of_valid (number n) h = ground arith
  take_of_valid _ h = absurd h

  pub take_id-ok :
      (o : Option (Value N)) (v : Value N)
      → (take_id numbers o ≡ ok v) ↔ ((o ≡ some v) × IsValidId v)
  take_id-ok none v = unfold take_id in (λ h. cc, λ h. cc)
  take_id-ok (some w) v = (
    λ h. let (e, valid) = take_valid w v h in (ap some e, rw (← e) valid),
    λ (e, valid). rw e (take_of_valid v valid),
  )

  check_unknown-ok :
      (allow : Bool) (id : Value N) (rest : List String)
      → (check_unknown numbers allow id rest ≡ ok tt) ↔ ((allow ≡ true) ⊎ (rest ≡ []))
  unfolding check_unknown
  check_unknown-ok true id rest = (λ h. inl refl, λ h. refl)
  check_unknown-ok false id [] = (λ h. inr refl, λ h. refl)
  check_unknown-ok false id (k ∷ rest) = (λ h. cc, λ h. ground arith)

  abbrev pub without_all : Fields N → Fields N
  without_all fs = without "id" (without "params" (without "method" (without "jsonrpc" fs)))

  -- `new_request` with each look-up made in the request as it came.
  pub new_request-eq :
      (fs : Fields N) (allow : Bool)
      → new_request numbers fs allow ≡ (do
        let id = or_null numbers (get "id" fs)
        check_jsonrpc numbers id (get "jsonrpc" fs)
        method ← check_method numbers id (get "method" fs)
        params ← check_params numbers id (get "params" fs)
        id ← take_id numbers (get "id" fs)
        check_unknown numbers allow id (keys (without_all fs))
        ok (record { id = id; method = method; params = params }))
  new_request-eq fs allow = unfold new_request in simp get-without

  get-without_all :
      (k : String) (fs : Fields N)
      → get k (without_all fs) ≡ (
          if str_eq "id" k
          then none
          else if str_eq "params" k
          then none
          else if str_eq "method" k
          then none
          else if str_eq "jsonrpc" k
          then none
          else get k fs)
  get-without_all k fs = simp get-without

  known_iff :
      (allow : Bool) (fs : Fields N)
      → ((allow ≡ true) ⊎ (keys (without_all fs) ≡ []))
        ↔ ((allow ≡ true) ⊎ ((k : String) → get k fs ≢ none → IsRequestField k))
  known_iff allow fs = (
    elim [
      | inl a ↦ inl a
      | inr e ↦ inr (λ k there. only k there ((keys_nil_iff (without_all fs)).0 e k))
    ],
    elim [
      | inl a ↦ inl a
      | inr only ↦ inr ((keys_nil_iff (without_all fs)).1 (λ k. gone k (only k)))
    ],
  )
    where
      only : (k : String) → get k fs ≢ none → get k (without_all fs) ≡ none → IsRequestField k
      only k there e = ground (
        arith,
        there,
        get-without_all k fs,
        str_eq_iff "jsonrpc" k,
        str_eq_iff "method" k,
        str_eq_iff "params" k,
        str_eq_iff "id" k,
      )

      gone : (k : String) → (get k fs ≢ none → IsRequestField k) → get k (without_all fs) ≡ none
      gone k h = ground (
        arith,
        h,
        get-without_all k fs,
        str_eq_iff "jsonrpc" k,
        str_eq_iff "method" k,
        str_eq_iff "params" k,
        str_eq_iff "id" k,
      )

  -- The checks of `new_request` one after the other, whatever they are.
  checks_in_order :
      (version : Result (Unit {0}) (ErrorOrRejection N))
      (method : Result String (ErrorOrRejection N))
      (params : Result (Option (Params N)) (ErrorOrRejection N))
      (id : Result (Value N) (ErrorOrRejection N))
      (known : Value N → Result (Unit {0}) (ErrorOrRejection N)) (r : Request N)
      → ((do
        version
        m ← method
        p ← params
        i ← id
        known i
        ok (record { id = i; method = m; params = p }))
          ≡ ok r)
        ↔ ((version ≡ ok tt)
            × (method ≡ ok r.method)
            × (params ≡ ok r.params)
            × (id ≡ ok r.id)
            × (known r.id ≡ ok tt))
  checks_in_order (err e) method params id known r = (λ h. cc, λ h. cc (h.0))
  checks_in_order (ok u) (err e) params id known r = (λ h. cc, λ h. cc (h.1))
  checks_in_order (ok u) (ok m) (err e) id known r = (λ h. cc, λ h. cc (h.2))
  checks_in_order (ok u) (ok m) (ok p) (err e) known r = (λ h. cc, λ h. cc (h.3))
  checks_in_order (ok u) (ok m) (ok p) (ok i) known r = (λ h. ground arith, λ h. ground arith)

  -- A request is accepted exactly when it conforms, and what is read from it is what it holds.
  pub new_request_iff :
      (fs : Fields N) (allow : Bool) (r : Request N)
      → (new_request numbers fs allow ≡ ok r) ↔ Conforms allow fs r
  new_request_iff fs allow r =
      let id = or_null numbers (get "id" fs) in
      let in_order =
        checks_in_order (check_jsonrpc numbers id (get "jsonrpc" fs))
          (check_method numbers id (get "method" fs)) (check_params numbers id (get "params" fs))
          (take_id numbers (get "id" fs))
          (λ i. check_unknown numbers allow i (keys (without_all fs))) r in
      rw new_request-eq (
        λ h.
            let (v, m, p, i, k) = in_order.0 h in
            record {
              version = (check_jsonrpc-ok id _).0 v;
              named = (check_method-ok id _ r.method).0 m;
              given = (check_params-ok id _ r.params).0 p;
              identified = ((take_id-ok _ r.id).0 i).0;
              valid_id = ((take_id-ok _ r.id).0 i).1;
              known = (known_iff allow fs).0 ((check_unknown-ok allow r.id _).0 k);
            },
        λ c. in_order.1 (
          (check_jsonrpc-ok id _).1 c.version,
          (check_method-ok id _ r.method).1 c.named,
          (check_params-ok id _ r.params).1 c.given,
          (take_id-ok _ r.id).1 (c.identified, c.valid_id),
          (check_unknown-ok allow r.id _).1 ((known_iff allow fs).1 c.known),
        ),
      )
