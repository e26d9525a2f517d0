-- ===== src/Git/Laws.antt =====
-- Laws of AddSubaddress, internal/git/config.go.
use text.Mathlib.TextLemmas.{cons-append, nil-append}
use kagen.Prelude.{ℕ, String, Bool, false, ◌≡◌, refl, none, some, arith, nat_eq}
use kagen.Prelude.Text.{◌+s◌, contains_any}
use kagen.Git.Config.{split_at, add_subaddress}

abbrev pub is_at : ℕ → Bool
is_at c = nat_eq c 64

split_at-append :
    (local domain : String)
    → contains_any local is_at ≡ false
    → split_at (local +s ("@" +s domain)) ≡ some (local, domain)
unfolding split_at contains_any
split_at-append String.[] domain h = rw (nil-append, cons-append, nil-append) refl
split_at-append (String.◌∷◌ c local) domain h =
    rw cons-append (ground (arith, split_at-append local domain (ground arith)))

split_at-none : (text : String) → contains_any text is_at ≡ false → split_at text ≡ none
unfolding split_at contains_any
split_at-none String.[] h = refl
split_at-none (String.◌∷◌ c text) h = ground (arith, split_at-none text (ground arith))

-- For two texts of which the first has no "@": AddSubaddress puts the tag, after a "+", at the end of the
-- first one where they stand around an "@", whatever the second one holds; and it leaves the first one
-- alone, which is no address.
pub add_subaddress_lem :
    (local domain tag : String)
    → contains_any local is_at ≡ false
    → (add_subaddress (local +s ("@" +s domain)) tag ≡ local +s "+" +s tag +s "@" +s domain)
      × (add_subaddress local tag ≡ local)
unfolding add_subaddress
add_subaddress_lem local domain tag h = (
  rw (split_at-append local domain h, add_subaddress) refl,
  rw (split_at-none local h, add_subaddress) refl,
)
