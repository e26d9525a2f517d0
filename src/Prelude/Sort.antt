-- ===== src/Prelude/Sort.antt =====
-- `slices.Sort` and `sort.Strings` on texts: the order, and a sort by insertion. On a total order every
-- sort of distinct texts has the same result.
use Prim.Native.Char.{code}
use Prim.Native.String
use Prim.Native.String.{String}
use mathlib.Core.Path.{◌≡◌, refl, ap₂, ◌∙◌}
use mathlib.Core.Logic.{inl, inr}
use mathlib.Core.Bool.{Bool, true, false, ◌||◌}
use mathlib.Core.List.{List, [], ◌∷◌, Perm}
use mathlib.Core.List.Perm
use native.Mathlib.Omega.{arith}
use text.Mathlib.Text.{◌==◌}
use text.Mathlib.TextLemmas.{cons-append, nil-append}
use text.Mathlib.TextEquality.{eq_iff, Char-path}
use text.Mathlib.TextPositions.{eq_refl}
use kagen.Prelude.Tests.{ltb, if◌then◌else◌, Bool-cases}
use kagen.Prelude.Lists.{contains, All}

-- s < t, code point by code point.
unfoldable pub str_ltb : String → String → Bool
str_ltb String.[] String.[] = false
str_ltb String.[] (String.◌∷◌ d t) = true
str_ltb (String.◌∷◌ c s) String.[] = false
str_ltb (String.◌∷◌ c s) (String.◌∷◌ d t) =
    if ltb (code c) (code d) then true else if ltb (code d) (code c) then false else str_ltb s t

pub str_ltb_irrefl : (s : String) → str_ltb s s ≡ false
unfolding str_ltb
str_ltb_irrefl String.[] = refl
str_ltb_irrefl (String.◌∷◌ c s) = ground (arith, str_ltb_irrefl s)

pub str_ltb_trans : (s t u : String) → str_ltb s t ≡ true → str_ltb t u ≡ true → str_ltb s u ≡ true
unfolding str_ltb
str_ltb_trans String.[] String.[] u h k = ground arith
str_ltb_trans String.[] (String.◌∷◌ d t) String.[] h k = ground arith
str_ltb_trans String.[] (String.◌∷◌ d t) (String.◌∷◌ e u) h k = refl
str_ltb_trans (String.◌∷◌ c s) String.[] u h k = ground arith
str_ltb_trans (String.◌∷◌ c s) (String.◌∷◌ d t) String.[] h k = ground arith
str_ltb_trans (String.◌∷◌ c s) (String.◌∷◌ d t) (String.◌∷◌ e u) h k =
    ground (arith, str_ltb_trans s t u)

-- Of two texts neither of which is smaller, both are the same.
pub str_ltb_total : (s t : String) → str_ltb s t ≡ false → str_ltb t s ≡ false → s ≡ t
unfolding str_ltb
str_ltb_total String.[] String.[] h k = refl
str_ltb_total String.[] (String.◌∷◌ d t) h k = ground arith
str_ltb_total (String.◌∷◌ c s) String.[] h k = ground arith
str_ltb_total (String.◌∷◌ c s) (String.◌∷◌ d t) h k =
    ap₂ String.◌∷◌ (Char-path c d (ground arith)) (str_ltb_total s t (ground arith) (ground arith))

-- A common start does not change the order.
pub str_ltb-append : (p s t : String) → str_ltb (String.◌++◌ p s) (String.◌++◌ p t) ≡ str_ltb s t
unfolding str_ltb
str_ltb-append String.[] s t = rw (nil-append s, nil-append t)
str_ltb-append (String.◌∷◌ c p) s t =
    rw (cons-append c p s, cons-append c p t) (ground (arith, str_ltb-append p s t))

pub str_ltb_dot : (s : String) → str_ltb (String.◌++◌ "." s) "Z" ≡ true
unfolding str_ltb
str_ltb_dot s = rw cons-append

insert_sorted : String → List String → List String
insert_sorted x [] = x ∷ []
insert_sorted x (y ∷ ys) = if str_ltb y x then y ∷ insert_sorted x ys else x ∷ y ∷ ys

pub sort : List String → List String
unfolding insert_sorted
sort [] = []
sort (x ∷ xs) = insert_sorted x (sort xs)

insert_sorted-perm : (x : String) (xs : List String) → Perm (insert_sorted x xs) (x ∷ xs)
unfolding insert_sorted
insert_sorted-perm x [] = Perm.refl (x ∷ [])
insert_sorted-perm x (y ∷ ys) = elim (Bool-cases (str_ltb y x)) [
  | inl h ↦ rw h (Perm.trans (Perm.cons y (insert_sorted-perm x ys)) (Perm.swap x y ys))
  | inr h ↦ rw h (Perm.refl (x ∷ y ∷ ys))
]

pub sort-perm : (xs : List String) → Perm (sort xs) xs
unfolding sort
sort-perm [] = Perm.refl []
sort-perm (x ∷ xs) = Perm.trans (insert_sorted-perm x (sort xs)) (Perm.cons x (sort-perm xs))

contains-insert_sorted :
    (a x : String) (xs : List String) → contains a (insert_sorted x xs) ≡ (a == x || contains a xs)
unfolding insert_sorted
contains-insert_sorted a x [] = refl
contains-insert_sorted a x (y ∷ ys) = ground (arith, contains-insert_sorted a x ys)

-- Sorting keeps what the list holds.
pub contains-sort : (a : String) (xs : List String) → contains a (sort xs) ≡ contains a xs
unfolding sort
contains-sort a [] = refl
contains-sort a (x ∷ xs) = ground (arith, contains-sort a xs, contains-insert_sorted a x (sort xs))

abbrev pub IsBelow : String → List String → Type 0
IsBelow x xs = All (λ y. str_ltb x y ≡ true) xs

-- Strictly ascending, so without repetition.
abbrev pub IsAscending : List String → Type 0
IsAscending [] = Unit
IsAscending (x ∷ xs) = IsBelow x xs × IsAscending xs

-- No text stands twice.
abbrev pub HasDistinct : List String → Type 0
HasDistinct [] = Unit
HasDistinct (x ∷ xs) = (contains x xs ≡ false) × HasDistinct xs

IsBelow-trans : (x y : String) (ys : List String) → str_ltb x y ≡ true → IsBelow y ys → IsBelow x ys
IsBelow-trans x y [] h k = tt
IsBelow-trans x y (z ∷ zs) h (k, ks) = (str_ltb_trans x y z h k, IsBelow-trans x y zs h ks)

IsBelow-insert_sorted :
    (z x : String) (xs : List String)
    → str_ltb z x ≡ true
    → IsBelow z xs
    → IsBelow z (insert_sorted x xs)
unfolding insert_sorted
IsBelow-insert_sorted z x [] h k = (h, tt)
IsBelow-insert_sorted z x (y ∷ ys) h (k, ks) = elim (Bool-cases (str_ltb y x)) [
  | inl e ↦ rw e (k, IsBelow-insert_sorted z x ys h ks)
  | inr e ↦ rw e (h, (k, ks))
]

insert_sorted-IsAscending :
    (x : String) (xs : List String)
    → contains x xs ≡ false
    → IsAscending xs
    → IsAscending (insert_sorted x xs)
unfolding insert_sorted
insert_sorted-IsAscending x [] h k = (tt, tt)
insert_sorted-IsAscending x (y ∷ ys) h (k, ks) = elim (Bool-cases (str_ltb y x)) [
  | inl e ↦
      rw e (IsBelow-insert_sorted y x ys e k, insert_sorted-IsAscending x ys (ground arith) ks)
  | inr e ↦ elim (Bool-cases (str_ltb x y)) [
    | inl f ↦ rw e ((f, IsBelow-trans x y ys f k), (k, ks))
    | inr f ↦ absurd (ground (arith, eq_iff x y, str_ltb_total x y f e))
  ]
]

-- Texts without repetition are strictly ascending once sorted.
pub sort-IsAscending : (xs : List String) → HasDistinct xs → IsAscending (sort xs)
unfolding sort
sort-IsAscending [] h = tt
sort-IsAscending (x ∷ xs) (h, k) =
    insert_sorted-IsAscending x (sort xs) (contains-sort x xs ∙ h) (sort-IsAscending xs k)

contains_of_IsBelow : (x : String) (xs : List String) → IsBelow x xs → contains x xs ≡ false
contains_of_IsBelow x [] h = refl
contains_of_IsBelow x (y ∷ ys) (h, k) =
    ground (arith, eq_iff x y, str_ltb_irrefl x, contains_of_IsBelow x ys k)

-- Two strictly ascending lists that hold the same texts are the same list.
pub IsAscending-unique :
    (xs ys : List String)
    → IsAscending xs
    → IsAscending ys
    → ((a : String) → contains a xs ≡ contains a ys)
    → xs ≡ ys
IsAscending-unique [] [] h k same = refl
IsAscending-unique [] (y ∷ ys) h k same = ground (arith, same y, eq_refl y)
IsAscending-unique (x ∷ xs) [] h k same = ground (arith, same x, eq_refl x)
IsAscending-unique (x ∷ xs) (y ∷ ys) (h, hs) (k, ks) same =
    ap₂ ◌∷◌ heads (IsAscending-unique xs ys hs ks tails)
  where
    x-le-y : str_ltb x y ≡ false
    x-le-y = elim (Bool-cases (str_ltb x y)) [
      | inl e ↦ absurd (
          ground (
            arith,
            same x,
            eq_refl x,
            eq_iff x y,
            str_ltb_irrefl x,
            contains_of_IsBelow x ys (IsBelow-trans x y ys e k),
          ))
      | inr e ↦ e
    ]

    y-le-x : str_ltb y x ≡ false
    y-le-x = elim (Bool-cases (str_ltb y x)) [
      | inl e ↦ absurd (
          ground (
            arith,
            same y,
            eq_refl y,
            eq_iff y x,
            str_ltb_irrefl x,
            contains_of_IsBelow y xs (IsBelow-trans y x xs e h),
          ))
      | inr e ↦ e
    ]

    heads : x ≡ y
    heads = str_ltb_total x y x-le-y y-le-x

    tails : (a : String) → contains a xs ≡ contains a ys
    tails a = ground (
      arith,
      same a,
      eq_iff a x,
      eq_iff a y,
      heads,
      contains_of_IsBelow x xs h,
      contains_of_IsBelow y ys k,
    )
