-- ===== src/JsonRpc/Json.antt =====
-- `serde_json::Value` as json_rpc/src/request/params.rs matches on it, over a type `N` of numbers, and
-- the operations of `Map<String, Value>` that json_rpc/src/request.rs calls.
use casper_sidecar.Prelude.{
  if◌then◌else◌, String, ◌≡◌, refl, ◌↔◌, Bool, Option, none, some, List, [], ◌∷◌, arith, str_eq,
  str_eq_iff,
}

mutual
  pub data Value (N : Type 0) : Type 0 where
    null : Value N
    bool : Bool → Value N
    number : N → Value N
    string : String → Value N
    array : Items N → Value N
    object : Fields N → Value N

  pub data Items (N : Type 0) : Type 0 where
    nil : Items N
    cons : Value N → Items N → Items N

  pub data Fields (N : Type 0) : Type 0 where
    end : Fields N
    field : String → Value N → Fields N → Fields N

module _ {N : Type 0} where
  unfoldable pub get : String → Fields N → Option (Value N)
  get k end = none
  get k (field j v fs) = if str_eq j k then some v else get k fs

  -- What `Map::remove` leaves.
  unfoldable pub without : String → Fields N → Fields N
  without k end = end
  without k (field j v fs) = if str_eq j k then without k fs else field j v (without k fs)

  unfoldable pub keys : Fields N → List String
  keys end = []
  keys (field j v fs) = j ∷ keys fs

  pub get-without :
      (k j : String) (fs : Fields N)
      → get j (without k fs) ≡ (if str_eq k j then none else get j fs)
  unfolding get without
  get-without k j end = ground arith
  get-without k j (field i v fs) =
      ground (arith, get-without k j fs, str_eq_iff i k, str_eq_iff i j, str_eq_iff k j)

  -- No key is left exactly when every look-up fails.
  pub keys_nil_iff : (fs : Fields N) → (keys fs ≡ []) ↔ ((k : String) → get k fs ≡ none)
  unfolding keys get
  keys_nil_iff end = (λ h k. refl, λ h. refl)
  keys_nil_iff (field j v fs) =
      (λ h k. absurd (cc), λ h. absurd (ground (arith, h j, str_eq_iff j j)))
