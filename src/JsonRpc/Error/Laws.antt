-- ===== src/JsonRpc/Error/Laws.antt =====
-- What `Error::new` of json_rpc/src/error.rs makes of each kind of code and info.
use casper_sidecar.Prelude.{
  String, ◌≡◌, refl, ◌↔◌, ◌⊎◌, inl, inr, Bool-cases, if-false, not, ◌&&◌, ◌+◌, ◌≤◌, true, false,
  Option, none, some, [], ◌∷◌, arith,
}
use casper_sidecar.Prelude.Text.{format}
use casper_sidecar.Prelude.Int.{ℤ, pos, negsuc, neg}
use casper_sidecar.Prelude.Result.{Result, ok, err}
use casper_sidecar.JsonRpc.Json.{Value, null, bool, number, string, array, object}
use casper_sidecar.JsonRpc.Error.{
  Error, ErrorCode, ReservedErrorCode-code, RpcErrorCode-code, in_reserved_range, new_error,
}

-- The "data" field that an info stands for: none for `null`.
abbrev pub carried : {N : Type 0} → Value N → Option (Value N)
carried null = none
carried v = some v

-- The codes from -32768 to -32100; `negsuc n` is -(n + 1).
abbrev pub IsReserved : ℤ → Type 0
IsReserved (pos n) = ⊥
IsReserved (negsuc n) = (32100 ≤ n + 1) × (n + 1 ≤ 32768)

in_reserved_range_iff : (z : ℤ) → (in_reserved_range z ≡ true) ↔ IsReserved z
unfolding in_reserved_range
in_reserved_range_iff (pos n) = (λ h. ground arith, λ h. absurd h)
in_reserved_range_iff (negsuc n) = (λ h. ground arith, λ h. ground arith)

pub not-IsReserved : (z : ℤ) → in_reserved_range z ≡ false → ¬ IsReserved z
not-IsReserved z h r = cc (h, (in_reserved_range_iff z).1 r)

out_of_range : (z : ℤ) → ¬ IsReserved z → in_reserved_range z ≡ false
out_of_range z h = elim (Bool-cases (in_reserved_range z)) [
  | inl r ↦ absurd (h ((in_reserved_range_iff z).0 r))
  | inr r ↦ r
]

-- May a code type use this code?
abbrev pub IsAllowed : {C : Type 0} ⦃t : ErrorCode C⦄ → C → Type 0
IsAllowed ⦃t⦄ c = (t.is_reserved ≡ true) ⊎ ¬ IsReserved (t.into c).0

is_checked :
    {C : Type 0} ⦃t : ErrorCode C⦄ (c : C)
    → IsAllowed c
    → (not t.is_reserved && in_reserved_range (t.into c).0) ≡ false
is_checked ⦃t⦄ c (inl h) = ground (arith, h)
is_checked ⦃t⦄ c (inr h) = ground (arith, out_of_range (t.into c).0 h)

module _ {N : Type 0} {C : Type 0} ⦃t : ErrorCode C⦄ (c : C) where
  -- A code that its type may use is kept, with its message and the info.
  pub new_error-keeps :
      (v : Value N)
      → IsAllowed c
      → new_error c (ok v)
        ≡ record { code = (t.into c).0; message = (t.into c).1; data_field = carried v }
  unfolding new_error
  new_error-keeps null h = if-false _ _ (is_checked c h)
  new_error-keeps (bool b) h = if-false _ _ (is_checked c h)
  new_error-keeps (number b) h = if-false _ _ (is_checked c h)
  new_error-keeps (string b) h = if-false _ _ (is_checked c h)
  new_error-keeps (array b) h = if-false _ _ (is_checked c h)
  new_error-keeps (object b) h = if-false _ _ (is_checked c h)

  -- An internal error with this text as its info.
  abbrev pub internal : (text : String) → Error N
  internal text = record {
    code = neg 32603;
    message = "Internal error";
    data_field = some (string text);
  }

  new_error-misuse :
      (info : Result (Value N) String)
      → t.is_reserved ≡ false
      → IsReserved (t.into c).0
      → new_error c info ≡ internal "attempted to return reserved error code -32603"
  unfolding new_error
  new_error-misuse info h k = rw (h, (in_reserved_range_iff (t.into c).0).1 k) refl

  -- What becomes of a code and an info.
  pub data ErrorOf : Result (Value N) String → Error N → Type 0 where
    kept :
        (v : Value N)
        → IsAllowed c
        → ErrorOf
            (ok v)
            (record { code = (t.into c).0; message = (t.into c).1; data_field = carried v })
    unreadable :
        (e : String)
        → IsAllowed c
        → ErrorOf (err e) (
            internal
              (format ("failed to json-encode additional info in json-rpc error: " ∷ e ∷ [])))
    misused :
        {info : Result (Value N) String}
        → t.is_reserved ≡ false
        → IsReserved (t.into c).0
        → ErrorOf info (internal "attempted to return reserved error code -32603")

  new_error-unreadable :
      (e : String)
      → IsAllowed c
      → new_error c (err e)
        ≡ internal (format ("failed to json-encode additional info in json-rpc error: " ∷ e ∷ []))
  unfolding new_error
  new_error-unreadable e h = if-false _ _ (is_checked c h)

  allowed-ErrorOf : (info : Result (Value N) String) → IsAllowed c → ErrorOf info (new_error c info)
  allowed-ErrorOf (ok v) h = rw (new_error-keeps v h) (kept v h)
  allowed-ErrorOf (err e) h = rw (new_error-unreadable e h) (unreadable e h)

  -- An error has one of three forms. A code that its type may use is kept, with its message and the
  -- info, of which a null is left out. If that info cannot be written as JSON, it is an internal
  -- error that says so. A code from -32768 to -32100 of a type that may not use it becomes an
  -- internal error whose text names -32603, whatever the code and the info were.
  pub new_error-ErrorOf : (info : Result (Value N) String) → ErrorOf info (new_error c info)
  new_error-ErrorOf info = elim (Bool-cases t.is_reserved) [
    | inl h ↦ allowed-ErrorOf info (inl h)
    | inr h ↦ elim (Bool-cases (in_reserved_range (t.into c).0)) [
      | inl r ↦
          let reserved = (in_reserved_range_iff (t.into c).0).0 r in
          rw (new_error-misuse info h reserved) (misused h reserved)
      | inr r ↦ allowed-ErrorOf info (inr (not-IsReserved (t.into c).0 r))
    ]
  ]

  -- Whatever the code type and the info, a reserved code comes from a type that may use it or is
  -- the code of an internal error.
  pub new_error_code :
      (info : Result (Value N) String)
      → in_reserved_range (new_error {N = N} c info).code ≡ true
      → (t.is_reserved ≡ true) ⊎ ((new_error {N = N} c info).code ≡ neg 32603)
  unfolding new_error
  new_error_code (ok null) h = ground arith
  new_error_code (ok (bool b)) h = ground arith
  new_error_code (ok (number b)) h = ground arith
  new_error_code (ok (string b)) h = ground arith
  new_error_code (ok (array b)) h = ground arith
  new_error_code (ok (object b)) h = ground arith
  new_error_code (err e) h = ground arith
