-- ===== src/Lsm/Result.antt =====
-- 10-database-internals/src/error.rs. The message of `Corrupt` and the cause of `Io` are left out.
use rust_fundamentals.Base.{Option, none, some, ◌≡◌, refl}

pub data Error : Type 0 where
  io : Error
  corrupt : Error

-- Rust's `Result<A, Error>`, with the panic of an index out of range. `stuck` is no outcome of the
-- program: a loop of the model ran out of fuel.
pub data Result {ℓ} (A : Type ℓ) : Type ℓ where
  ok : A → Result A
  err : Error → Result A
  panic : Result A
  stuck : Result A

infixl 5 ◌>>=◌
abbrev pub ◌>>=◌ {ℓ κ} : {S : Type ℓ} {T : Type κ} → Result S → (S → Result T) → Result T
panic >>= next = panic
stuck >>= next = stuck
err e >>= next = err e
ok s >>= next = next s

-- `.ok_or_else(|| Error::Corrupt(..))`
abbrev pub ok_or {ℓ} : {A : Type ℓ} → Error → Option A → Result A
ok_or e none = err e
ok_or e (some a) = ok a

-- A slice index, which panics where `get` gives `None`.
abbrev pub or_panic {ℓ} : {A : Type ℓ} → Option A → Result A
or_panic none = panic
or_panic (some a) = ok a

-- A chain that succeeds has succeeded at its first step.
pub >>=-eq-ok {ℓ κ} :
    {S : Type ℓ} {T : Type κ} (step : Result S) (next : S → Result T) {t : T}
    → (step >>= next) ≡ ok t
    → (s : S) × (step ≡ ok s) × (next s ≡ ok t)
>>=-eq-ok panic next h = absurd (cc)
>>=-eq-ok stuck next h = absurd (cc)
>>=-eq-ok (err e) next h = absurd (cc)
>>=-eq-ok (ok s) next h = (s, refl, h)
