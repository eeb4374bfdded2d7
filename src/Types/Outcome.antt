-- ===== src/Types/Outcome.antt =====
-- modules/blockchain/include/blockchain/errors.h: the exceptions, and a call that may throw.
-- `length_error` is `std::length_error`; `out_of_bounds` marks a read past a buffer.
use free_labour_common_will.Base.{if◌then◌else◌, ℕ, ◌≡◌, refl, Bool, ◌⊎◌, inl, inr}
use free_labour_common_will.Types.{BlockAddress}

pub data Error : Type 0 where
  crypto_error signature_error chain_integrity_error timestamp_error : Error
  node_not_found : ℕ → Error
  block_not_found : BlockAddress → Error
  storage_error serialization_error invalid_argument_error revocation_error : Error
  length_error out_of_bounds : Error

pub data Result {ℓ} (Value : Type ℓ) : Type ℓ where
  ok : Value → Result Value
  err : Error → Result Value

pub Result-cases {ℓ} :
    {Value : Type ℓ} (r : Result Value) → ((v : Value) × (r ≡ ok v)) ⊎ ((e : Error) × (r ≡ err e))
Result-cases (ok v) = inl (v, refl)
Result-cases (err e) = inr (e, refl)

-- `if (!test) throw error;`
abbrev pub guard : Bool → Error → Result (Unit {0})
guard test error = if test then ok tt else err error

infixl 5 ◌>>=◌
abbrev pub ◌>>=◌ {ℓ ℓ'} :
    {Value : Type ℓ} {Next : Type ℓ'} → Result Value → (Value → Result Next) → Result Next
err e >>= next = err e
ok v >>= next = next v

-- A check before the rest of a function.
infixl 5 ◌>>◌
abbrev pub ◌>>◌ {ℓ} : {Next : Type ℓ} → Result (Unit {0}) → Result Next → Result Next
check >> rest = check >>= λ passed. rest
