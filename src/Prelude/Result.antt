-- ===== src/Prelude/Result.antt =====
-- Rust's `Result`, with `?` as the bind.
use mathlib.Core.Path.{◌≡◌, refl, subst}
use mathlib.Core.Logic.{◌⊎◌, inl, inr}

pub data Result {ℓ κ} (A : Type ℓ) (E : Type κ) : Type (ℓ ⊔ κ) where
  ok : A → Result A E
  err : E → Result A E

infixl 5 ◌>>=◌ ◌>>◌
abbrev pub ◌>>=◌ {ℓ κ μ} :
    {A : Type ℓ} {B : Type κ} {E : Type μ} → Result A E → (A → Result B E) → Result B E
ok x >>= next = next x
err e >>= next = err e

abbrev pub map_err {ℓ κ μ} :
    {A : Type ℓ} {E : Type κ} {F : Type μ} → (E → F) → Result A E → Result A F
map_err g (ok x) = ok x
map_err g (err e) = err (g e)

abbrev pub ◌>>◌ {ℓ κ μ} :
    {A : Type ℓ} {B : Type κ} {E : Type μ} → Result A E → Result B E → Result B E
first >> second = first >>= λ _. second

pub Result-cases {ℓ κ} :
    {A : Type ℓ} {E : Type κ} (r : Result A E) → ((a : A) × (r ≡ ok a)) ⊎ ((e : E) × (r ≡ err e))
Result-cases (ok a) = inl (a, refl)
Result-cases (err e) = inr (e, refl)

-- Every error of `r` has the property.
abbrev pub FailsWith {ℓ κ μ} : {A : Type ℓ} {E : Type κ} → (E → Type μ) → Result A E → Type μ
FailsWith P (ok a) = Unit
FailsWith P (err e) = P e

pub FailsWith-bind {ℓ κ μ ν} :
    {A : Type ℓ} {B : Type κ} {E : Type μ} (P : E → Type ν) (m : Result A E) (f : A → Result B E)
    → FailsWith P m
    → ((a : A) → m ≡ ok a → FailsWith P (f a))
    → FailsWith P (m >>= f)
FailsWith-bind P (ok a) f h k = k a refl
FailsWith-bind P (err e) f h k = h

pub FailsWith-elim {ℓ κ μ} :
    {A : Type ℓ} {E : Type κ} (P : E → Type μ) {r : Result A E} {e : E}
    → FailsWith P r
    → r ≡ err e
    → P e
FailsWith-elim P h q = subst (FailsWith P) q h
