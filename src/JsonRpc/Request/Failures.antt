-- ===== src/JsonRpc/Request/Failures.antt =====
-- How `Request::new` of json_rpc/src/request.rs fails.
use casper_sidecar.Prelude.{
  Bool-cases, String, ◌≡◌, refl, ◌⊎◌, inl, inr, Bool, true, false, Option, none, some, List, [],
  ◌∷◌, str_eq,
}
use casper_sidecar.Prelude.Int.{neg}
use casper_sidecar.Prelude.Result.{err, FailsWith, FailsWith-bind, FailsWith-elim}
use casper_sidecar.JsonRpc.Json.{Value, null, bool, number, string, array, object, Fields, get}
use casper_sidecar.JsonRpc.Error.{
  reserved_into, ReservedErrorCode-code, RpcErrorCode-code, new_error,
}
use casper_sidecar.JsonRpc.Params.{missing_id, ErrorOrRejection, error, rejection, invalid}
use casper_sidecar.JsonRpc.Request.{
  JsonNumbers, check_jsonrpc, check_method, check_params, take_id, check_unknown, or_null,
  new_request,
}
use casper_sidecar.JsonRpc.Request.Laws.{IsValidId, take_id-ok, new_request-eq}

module _ {N : Type 0} (numbers : JsonNumbers N) where
  -- The failures that a request whose "id" field is `given` may have.
  abbrev pub IsFailureFor : Option (Value N) → ErrorOrRejection N → Type 0
  IsFailureFor given (error id e) =
      (e.code ≡ neg 32600)
      × ((id ≡ or_null numbers given)
          ⊎ ((id ≡ null) × ((v : Value N) × (given ≡ some v) × ¬ IsValidId numbers v)))
  IsFailureFor given (rejection missing_id) = given ≡ none

  invalid_code : (info : String) → (invalid {N = N} info).code ≡ neg 32600
  invalid_code info = unfold new_error reserved_into in refl

  module _ (given : Option (Value N)) where
    pub check_jsonrpc-fails :
        (o : Option (Value N))
        → FailsWith (IsFailureFor given) (check_jsonrpc numbers (or_null numbers given) o)
    unfolding check_jsonrpc
    check_jsonrpc-fails none = (invalid_code _, inl refl)
    check_jsonrpc-fails (some (string s)) = elim (Bool-cases (str_eq s "2.0")) [
      | inl e ↦ rw e tt
      | inr e ↦ rw e (invalid_code _, inl refl)
    ]
    check_jsonrpc-fails (some v) = (invalid_code _, inl refl)

    pub check_method-fails :
        (o : Option (Value N))
        → FailsWith (IsFailureFor given) (check_method numbers (or_null numbers given) o)
    unfolding check_method
    check_method-fails none = (invalid_code _, inl refl)
    check_method-fails (some (string s)) = tt
    check_method-fails (some v) = (invalid_code _, inl refl)

    pub check_params-fails :
        (o : Option (Value N))
        → FailsWith (IsFailureFor given) (check_params numbers (or_null numbers given) o)
    unfolding check_params
    check_params-fails none = tt
    check_params-fails (some null) = tt
    check_params-fails (some (array items)) = tt
    check_params-fails (some (object fields)) = tt
    check_params-fails (some (bool true)) = (invalid_code _, inl refl)
    check_params-fails (some (bool false)) = (invalid_code _, inl refl)
    check_params-fails (some v) = (invalid_code _, inl refl)

    check_unknown-fails :
        (allow : Bool) (id : Value N) (rest : List String)
        → given ≡ some id
        → FailsWith (IsFailureFor given) (check_unknown numbers allow id rest)
    unfolding check_unknown
    check_unknown-fails true id rest h = tt
    check_unknown-fails false id [] h = tt
    check_unknown-fails false id (k ∷ rest) h = (invalid_code _, inl (rw h refl))

  take_id-fails : (o : Option (Value N)) → FailsWith (IsFailureFor o) (take_id numbers o)
  unfolding take_id
  take_id-fails none = refl
  take_id-fails (some null) = tt
  take_id-fails (some (string s)) = tt
  take_id-fails (some (number n)) = elim (Bool-cases (numbers.is_f64 n)) [
    | inl e ↦ rw e (invalid_code _, inr (refl, (number n, refl, rw e (λ h. cc))))
    | inr e ↦ rw e tt
  ]
  take_id-fails (some v) = (invalid_code _, inr (refl, (v, refl, λ h. h)))

  -- An error answers under the request's id, or under null where that id is malformed, always with
  -- the code of an invalid request; a rejection means that there is no id.
  pub new_request_fails :
      (fs : Fields N) (allow : Bool) (f : ErrorOrRejection N)
      → new_request numbers fs allow ≡ err f
      → IsFailureFor (get "id" fs) f
  new_request_fails fs allow f h =
      let given = get "id" fs in
      let P = IsFailureFor given in
      FailsWith-elim P
        (FailsWith-bind P _ _ (check_jsonrpc-fails given _) λ u _.
          FailsWith-bind P _ _ (check_method-fails given _) λ m _.
            FailsWith-bind P _ _ (check_params-fails given _) λ p _.
              FailsWith-bind P _ _ (take_id-fails given) λ i e.
                FailsWith-bind P _ _
                  (check_unknown-fails given allow i _ ((take_id-ok numbers _ i).0 e).0) λ _ _. tt)
        (rw new_request-eq at h)
