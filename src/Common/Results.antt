-- ===== src/Common/Results.antt =====
-- What a Python function that may raise returns: its value, or the exception's class. The text of
-- an exception's message is not modelled.
use mathlib.Core.Path.{◌≡◌, refl}
use mathlib.Core.Bool.{Bool, true, false}
use mathlib.Core.Logic.{◌⊎◌, inl, inr}

pub data Exception : Type 0 where
  value_error decode_error struct_error overflow_error proto_error ad_error : Exception
  runtime_error link_error link_rejected relay_error control_error index_error : Exception
  protocol_error timeout_error file_not_found connection_error interface_error : Exception
  assertion_error hci_error os_error : Exception

pub data Result {ℓ} (A : Type ℓ) : Type ℓ where
  ok : A → Result A
  err : Exception → Result A

-- `if not test: raise e`
abbrev pub require : Bool → Exception → Result (Unit {0})
require false e = err e
require true e = ok tt

-- What follows a call, and what follows a check: an exception passes through.
infixl 5 ◌>>◌ ◌>>=◌
abbrev pub ◌>>=◌ {ℓ κ} :
    {V : Type ℓ} {W : Type κ} (called : Result V) (next : V → Result W) → Result W
err e >>= next = err e
ok v >>= next = next v

abbrev pub ◌>>◌ {κ} : {W : Type κ} (checked : Result (Unit {0})) (next : Result W) → Result W
checked >> next = checked >>= λ _. next

pub Result-cases {ℓ} :
    {A : Type ℓ} (r : Result A) → ((a : A) × (r ≡ ok a)) ⊎ ((e : Exception) × (r ≡ err e))
Result-cases (ok a) = inl (a, refl)
Result-cases (err e) = inr (e, refl)

abbrev pub result_or {ℓ} : {A : Type ℓ} → Result A → A → A
result_or (err e) d = d
result_or (ok a) d = a
