-- ===== src/Session/Tables/Updates.antt =====
-- What an UPDATE of internal/session does to the rows of a table.
use kagen.Prelude.{
  Bool, true, false, ◌≡◌, refl, ◌||◌, not, List, [], ◌∷◌, arith, nat_eq, if◌then◌else◌,
}
use mathlib.Core.Option.{Option, none, some}
use kagen.Session.Tables.{update_where}

abbrev pub any {ℓ} : {A : Type ℓ} → (A → Bool) → List A → Bool
any test [] = false
any test (x ∷ xs) = test x || any test xs

abbrev pub set_where {ℓ} : {A : Type ℓ} → (A → Bool) → (A → A) → List A → List A
set_where test change [] = []
set_where test change (x ∷ xs) = (if test x then change x else x) ∷ set_where test change xs

pub update_where-rows {ℓ} :
    {A : Type ℓ} (test : A → Bool) (change : A → A) (xs : List A)
    → (update_where test change xs).0 ≡ set_where test change xs
unfolding update_where
update_where-rows test change [] = refl
update_where-rows test change (x ∷ xs) = ground (arith, update_where-rows test change xs)

pub update_where-count {ℓ} :
    {A : Type ℓ} (test : A → Bool) (change : A → A) (xs : List A)
    → nat_eq (update_where test change xs).1 0 ≡ not (any test xs)
unfolding update_where
update_where-count test change [] = refl
update_where-count test change (x ∷ xs) = ground (arith, update_where-count test change xs)

abbrev pub is_none {ℓ} : {A : Type ℓ} → Option A → Bool
is_none none = true
is_none (some a) = false
