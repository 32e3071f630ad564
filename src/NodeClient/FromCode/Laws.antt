-- ===== src/NodeClient/FromCode/Laws.antt =====
-- Which codes of the node rpc_sidecar/src/node_client.rs tells apart.
use casper_sidecar.Prelude.{
  if-true, if-false, ℕ, ◌≡◌, refl, sym, ap, ◌∙◌, ◌↔◌, true, false, str_eq, str_eq_iff,
}
use casper_sidecar.Prelude.Result.{ok}
use casper_sidecar.NodeClient.Code.{ErrorCode}
use casper_sidecar.NodeClient.FromCode.{Codes, from_known, from_error_code}
use casper_sidecar.NodeClient.FromCode.Inverse.{code_of}

-- The two codes of payments that share their error with another code stand for it.
abbrev pub canonical : ErrorCode → ErrorCode
canonical ErrorCode.deploy_missing_payment_amount = ErrorCode.invalid_deploy_missing_payment_amount
canonical ErrorCode.deploy_failed_to_parse_payment_amount =
    ErrorCode.invalid_deploy_failed_to_parse_payment_amount
canonical code = code

module _ (codes : Codes) where
  -- The two codes of speculative execution differ in their texts.
  abbrev pub TextsDiffer : Type 0
  TextsDiffer =
      str_eq (codes.to_string ErrorCode.invalid_item_variant)
        (codes.to_string ErrorCode.wasm_preprocessing)
      ≡ false

  same_text :
      str_eq
        (codes.to_string ErrorCode.wasm_preprocessing)
        (codes.to_string ErrorCode.wasm_preprocessing)
      ≡ true
  same_text = (str_eq_iff _ _).1 refl

  code_of-from_known :
      TextsDiffer → (c : ErrorCode) → code_of codes (from_known codes c) ≡ canonical c
  unfolding code_of from_known
  code_of-from_known h ErrorCode.function_disabled = refl
  code_of-from_known h ErrorCode.wasm_preprocessing = if-true _ _ same_text
  code_of-from_known h ErrorCode.invalid_item_variant = if-false _ _ h
  code_of-from_known h _ = refl

  from_known-canonical : (c : ErrorCode) → from_known codes (canonical c) ≡ from_known codes c
  unfolding from_known
  from_known-canonical ErrorCode.function_disabled = refl
  from_known-canonical _ = refl

  from_error_code-known :
      {n : ℕ} {c : ErrorCode}
      → codes.try_from n ≡ ok c
      → from_error_code codes n ≡ from_known codes c
  unfolding from_error_code
  from_error_code-known h = rw (h, from_error_code) refl

  -- Two numbers of known codes become the same error exactly if the codes are the same, or are
  -- the two of a missing payment amount or the two of a payment amount that does not parse. The
  -- texts of the two codes of speculative execution differ.
  pub from_error_code_iff :
      {n m : ℕ} {c d : ErrorCode}
      → TextsDiffer
      → codes.try_from n ≡ ok c
      → codes.try_from m ≡ ok d
      → (from_error_code codes n ≡ from_error_code codes m) ↔ (canonical c ≡ canonical d)
  from_error_code_iff {n} {m} {c} {d} h p q = (
    λ e.
        sym (code_of-from_known h c)
        ∙ ap (code_of codes) (sym (from_error_code-known p) ∙ e ∙ from_error_code-known q)
        ∙ code_of-from_known h d,
    λ e.
        from_error_code-known p
        ∙ sym (from_known-canonical c)
        ∙ ap (from_known codes) e
        ∙ from_known-canonical d
        ∙ sym (from_error_code-known q),
  )
