-- ===== src/NodeClient/Call.antt =====
-- Calls of the node client in rpc_sidecar/src/node_client.rs and of the methods over it: they change a state, may
-- fail, and `none` is a panic or a call that never comes back.
use casper_sidecar.Prelude.{Option, none, some}
use casper_sidecar.Prelude.Result.{Result, ok, err}
use casper_sidecar.NodeClient.Error.{Error}

-- A call that may fail with an error of `E`.
abbrev pub Attempt : (S E A : Type 0) → Type 0
Attempt S E A = S → Option (Result A E) × S

abbrev pub Call : (S A : Type 0) → Type 0
Call S A = Attempt S Error A

abbrev pub after_call :
    {S E A B : Type 0} → (A → Attempt S E B) → Option (Result A E) × S → Option (Result B E) × S
after_call next (none, s) = (none, s)
after_call next (some (err e), s) = (some (err e), s)
after_call next (some (ok a), s) = next a s

infixl 5 ◌>>=◌ ◌>>◌
abbrev pub ◌>>=◌ : {S E A B : Type 0} → Attempt S E A → (A → Attempt S E B) → Attempt S E B
◌>>=◌ call next s = after_call next (call s)

abbrev pub ◌>>◌ : {S E A B : Type 0} → Attempt S E A → Attempt S E B → Attempt S E B
◌>>◌ call next s = after_call (λ _. next) (call s)

-- `call.await.map_err(f)`
abbrev pub failing_with :
    {S E F A : Type 0} → (E → F) → Option (Result A E) × S → Option (Result A F) × S
failing_with f (none, s) = (none, s)
failing_with f (some (ok a), s) = (some (ok a), s)
failing_with f (some (err e), s) = (some (err (f e)), s)

abbrev pub map_call_err : {S E F A : Type 0} → (E → F) → Attempt S E A → Attempt S F A
map_call_err f call s = failing_with f (call s)

-- A result that needs no call.
abbrev pub returns : {S E A : Type 0} → Result A E → Attempt S E A
returns r s = (some r, s)

abbrev pub panic : {S E A : Type 0} → Attempt S E A
panic s = (none, s)
