-- ===== src/Prelude/Decimal.antt =====
-- Decimal text of integers, as Rust's `Display` prints them.
use Prim.Native.Nat.{ℕ, zero, suc, ◌+◌, ◌/◌, ◌%◌}
use Prim.Native.String
use Prim.Native.String.{String}
use mathlib.Core.Path.{◌≡◌, refl}
use casper_sidecar.Prelude.Tests.{if◌then◌else◌, ltb}
use casper_sidecar.Prelude.Int.{ℤ, pos, negsuc}

digit : ℕ → String
digit zero = "0"
digit (suc zero) = "1"
digit (suc (suc zero)) = "2"
digit (suc (suc (suc zero))) = "3"
digit (suc (suc (suc (suc zero)))) = "4"
digit (suc (suc (suc (suc (suc zero))))) = "5"
digit (suc (suc (suc (suc (suc (suc zero)))))) = "6"
digit (suc (suc (suc (suc (suc (suc (suc zero))))))) = "7"
digit (suc (suc (suc (suc (suc (suc (suc (suc zero)))))))) = "8"
digit _ = "9"

-- The fuel `n + 1` is more than the digits that `n` has.
digits : ℕ → ℕ → String
unfolding digit
digits zero n = ""
digits (suc f) n =
    let more = String.◌++◌ (digits f (n / 10)) (digit (n % 10)) in
    if ltb n 10 then digit n else more

unfoldable pub decimal : ℕ → String
unfolding digits
decimal n = digits (n + 1) n

unfoldable pub decimalℤ : ℤ → String
unfolding decimal
decimalℤ (pos n) = decimal n
decimalℤ (negsuc n) = String.◌++◌ "-" (decimal (n + 1))

decimalℤ_example : decimalℤ (negsuc 32602) ≡ "-32603"
unfolding decimalℤ
decimalℤ_example = refl
