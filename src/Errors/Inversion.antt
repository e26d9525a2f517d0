-- ===== src/Errors/Inversion.antt =====
-- What a run without an error says of its parts: every part came back without an error.
use kagen.Prelude.{◌≡◌, refl, arith}
use kagen.Errors.{Err}
use kagen.Errors.Exec.{Result, ok, err, Exec, ◌>>=◌, ◌or_wrap◌}

pub bind-ok :
    {W A B : Type 0} (m : Exec W A) (f : A → Exec W B) (w w' : W) (b : B)
    → (m >>= f) w ≡ (ok b, w')
    → (a : A) × (w1 : W) × (m w ≡ (ok a, w1)) × (f a w1 ≡ (ok b, w'))
bind-ok {W = W} {A = A} {B = B} m f w w' b h = go (m w) refl h
  where
    go :
        (o : Result A × W)
        → m w ≡ o
        → (((λ v. o) >>= f) w) ≡ (ok b, w')
        → (a : A) × (w1 : W) × (m w ≡ (ok a, w1)) × (f a w1 ≡ (ok b, w'))
    go (ok a, w1) same h = (a, w1, same, h)
    go (err e, w1) same h = absurd (ground arith)

pub or_wrap-ok :
    {W A : Type 0} (m : Exec W A) (g : Err → Err) (w w' : W) (a : A)
    → (m or_wrap g) w ≡ (ok a, w')
    → m w ≡ (ok a, w')
or_wrap-ok {W = W} {A = A} m g w w' a h = go (m w) refl h
  where
    go : (o : Result A × W) → m w ≡ o → ((λ v. o) or_wrap g) w ≡ (ok a, w') → m w ≡ (ok a, w')
    go (ok x, w1) same h = ground arith
    go (err e, w1) same h = absurd (ground arith)
