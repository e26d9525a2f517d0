-- ===== src/Prelude/Maps.antt =====
-- Go's maps with text keys, as association lists. The program never depends on the order in which a
-- map is ranged over, so the order of the entries carries no meaning.
use Prim.Native.String.{String}
use mathlib.Core.Path.{◌≡◌, refl, ◌∙◌}
use mathlib.Core.Logic.{inl, inr}
use mathlib.Core.Bool.{Bool, true, false, ◌||◌}
use mathlib.Core.Option.{Option, none, some}
use mathlib.Core.List.{List, [], ◌∷◌}
use native.Mathlib.Omega.{arith}
use text.Mathlib.Text.{◌==◌}
use text.Mathlib.TextEquality.{eq_iff}
use kagen.Prelude.Tests.{if◌then◌else◌, Bool-cases}
use kagen.Prelude.Lists.{contains}
use kagen.Prelude.Sort.{HasDistinct}

abbrev pub Map {ℓ} : Type ℓ → Type ℓ
Map V = List (String × V)

module _ {ℓ} {V : Type ℓ} where
  -- m[key], with the second result of Go's two-valued form
  unfoldable pub lookup : String → Map V → Option V
  lookup key [] = none
  lookup key ((name, value) ∷ rest) =
      let later = lookup key rest in if name == key then some value else later

  -- m[key] = value
  unfoldable pub insert : String → V → Map V → Map V
  insert key value [] = (key, value) ∷ []
  insert key value ((name, old) ∷ rest) =
      let after = insert key value rest in
      if name == key then (key, value) ∷ rest else (name, old) ∷ after

  -- A read after a write gives what was written at its key, and what was there at any other.
  pub lookup-insert :
      (written read : String) (value : V) (m : Map V)
      → lookup read (insert written value m)
        ≡ (if written == read then some value else lookup read m)
  unfolding lookup insert
  lookup-insert written read value [] = refl
  lookup-insert written read value ((name, old) ∷ rest) = ground (
    arith,
    lookup-insert written read value rest,
    eq_iff name written,
    eq_iff name read,
    eq_iff written read,
  )

-- Whether m has the key.
abbrev pub is_some {ℓ} : {A : Type ℓ} → Option A → Bool
is_some none = false
is_some (some a) = true

-- The keys that `for k := range m` goes through.
unfoldable pub keys {ℓ} : {V : Type ℓ} → Map V → List String
keys [] = []
keys ((k, v) ∷ m) = k ∷ keys m

pub contains-keys {ℓ} :
    {V : Type ℓ} (k : String) (m : Map V) → contains k (keys m) ≡ is_some (lookup k m)
unfolding keys lookup
contains-keys k [] = refl
contains-keys k ((j, v) ∷ m) = ground (arith, eq_iff k j, eq_iff j k, contains-keys k m)

contains-keys-insert {ℓ} :
    {V : Type ℓ} (a k : String) (v : V) (m : Map V)
    → contains a (keys (insert k v m)) ≡ (a == k || contains a (keys m))
contains-keys-insert a k v m =
    contains-keys a (insert k v m)
    ∙ (rw lookup-insert (ground (arith, eq_iff a k, eq_iff k a, contains-keys a m)))

-- A write keeps every key single.
pub insert-HasDistinct {ℓ} :
    {V : Type ℓ} (k : String) (v : V) (m : Map V)
    → HasDistinct (keys m)
    → HasDistinct (keys (insert k v m))
unfolding keys insert
insert-HasDistinct k v [] h = (refl, tt)
insert-HasDistinct k v ((j, w) ∷ m) (h, hs) = elim (Bool-cases (j == k)) [
  | inl same ↦ rw same (ground (arith, eq_iff j k), hs)
  | inr other ↦ rw other (ground (arith, contains-keys-insert j k v m), insert-HasDistinct k v m hs)
]

-- m[k] of a map to texts: the empty text where the key is missing
unfoldable pub lookup_text : String → Map String → String
unfolding lookup
lookup_text k m = elim (lookup k m) [ none ↦ "" | some v ↦ v ]
