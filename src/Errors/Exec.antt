-- ===== src/Errors/Exec.antt =====
-- Go functions with effects and a result `(T, error)`: what they do to the world stays done when they
-- return an error, so the world comes back beside the error too. `Result` is `(T, error)` with the
-- value dropped where the error is not nil.
use kagen.Prelude.{Option, none, some}
use kagen.Errors.{Err}

pub data Result {ℓ} (A : Type ℓ) : Type ℓ where
  ok : A → Result A
  err : Err → Result A

abbrev pub Exec {ℓ} : Type ℓ → Type ℓ → Type ℓ
Exec W A = W → Result A × W

module _ {ℓ} {W A : Type ℓ} where
  abbrev pub pure : A → Exec W A
  pure a w = (ok a, w)

  abbrev pub raise : Err → Exec W A
  raise e w = (err e, w)

abbrev pub from_error {ℓ} : {A : Type ℓ} → A → Option Err → Result A
from_error a none = ok a
from_error a (some e) = err e

module _ {ℓ} {W A B : Type ℓ} where
  abbrev continue : Result A → (A → Exec W B) → Exec W B
  continue (ok a) f w = f a w
  continue (err e) f w = (err e, w)

  infixl 10 ◌>>=◌ ◌>>◌
  abbrev pub ◌>>=◌ : Exec W A → (A → Exec W B) → Exec W B
  ◌>>=◌ m f w = let (r, w') = m w in continue r f w'

  abbrev pub ◌>>◌ : Exec W A → Exec W B → Exec W B
  m >> n = m >>= λ _. n

-- `if err != nil { return fmt.Errorf(…, err) }`
abbrev pub map_err {ℓ} : {A : Type ℓ} → (Err → Err) → Result A → Result A
map_err f (ok a) = ok a
map_err f (err e) = err (f e)

infixl 20 ◌or_wrap◌
abbrev pub ◌or_wrap◌ {ℓ} : {W A : Type ℓ} → Exec W A → (Err → Err) → Exec W A
◌or_wrap◌ m f w = let (r, w') = m w in (map_err f r, w')

infixr 8 ◌or_else◌
-- The first check that fails, of several made in turn.
abbrev pub ◌or_else◌ : Option Err → Option Err → Option Err
none or_else e = e
(some e) or_else rest = some e
