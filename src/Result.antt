-- ===== src/Result.antt =====
-- What a Go function of type `(T, error)` returns: a value with a nil error, or an error.
use insider_one_notification.Prelude.{◌≡◌, refl}
use insider_one_notification.Errors.{Error}

pub data Result {ℓ} (T : Type ℓ) : Type ℓ where
  err : Error → Result T
  ok : T → Result T

-- `if err != nil { return err }`
infixl 6 ◌>>=◌
abbrev pub ◌>>=◌ {ℓ ℓ'} : {S : Type ℓ} {T : Type ℓ'} → Result S → (S → Result T) → Result T
err failure >>= next = err failure
ok value >>= next = next value

pub ok-injective {ℓ} : {T : Type ℓ} {x y : T} → ok x ≡ ok y → x ≡ y
ok-injective same = cc

pub ok≢err {ℓ} : {T : Type ℓ} {x : T} {failure : Error} → ok x ≡ err failure → ⊥
ok≢err same = cc

-- Inversion of a successful bind, for proofs where the parts stay shut.
pub >>=-eq-ok {ℓ ℓ'} :
    {S : Type ℓ} {T : Type ℓ'} (first : Result S) (next : S → Result T) {y : T}
    → (first >>= next) ≡ ok y
    → (x : S) × (first ≡ ok x) × (next x ≡ ok y)
>>=-eq-ok (err failure) next h = cc
>>=-eq-ok (ok value) next h = (value, refl, h)
