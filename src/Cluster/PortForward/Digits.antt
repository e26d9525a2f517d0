-- ===== src/Cluster/PortForward/Digits.antt =====
-- Decimal numerals and the texts around them, as internal/cluster/portforward.go reads them.
use Prim.Native.Char.{Char, code}
use Prim.Native.String.{String, [], ◌∷◌}
use Prim.Native.Nat.{◌/◌, ◌%◌}
use kagen.Prelude.{
  ℕ, zero, suc, ◌+◌, ◌-◌, ◌*◌, ◌<◌, Bool, true, false, ◌&&◌, some, ◌==◌, ◌≡◌, refl, sym, ap, ◌∙◌,
  arith,
}
use kagen.Prelude.Text.{trim_right, is_space, ◌+s◌, digit, decimal, decimal_from}
use text.Mathlib.TextEquality.{eq_iff}
use text.Mathlib.TextLemmas.{cons-ne-nil, nil-append, cons-append, append-nil}
use kagen.Cluster.PortForward.Lines.{is_digit, span_digits, strip_prefix, value}

abbrev pub all_digits : String → Bool
all_digits [] = true
all_digits (c ∷ s) = is_digit (code c) && all_digits s

-- A number below ten and its digit.
pub value-digit : (m n : ℕ) → n < 10 → value m (digit n) ≡ m * 10 + n
unfolding value digit
value-digit m zero h = omega arith
value-digit m (suc zero) h = omega arith
value-digit m (suc (suc zero)) h = omega arith
value-digit m (suc (suc (suc zero))) h = omega arith
value-digit m (suc (suc (suc (suc zero)))) h = omega arith
value-digit m (suc (suc (suc (suc (suc zero))))) h = omega arith
value-digit m (suc (suc (suc (suc (suc (suc zero)))))) h = omega arith
value-digit m (suc (suc (suc (suc (suc (suc (suc zero))))))) h = omega arith
value-digit m (suc (suc (suc (suc (suc (suc (suc (suc zero)))))))) h = omega arith
value-digit m (suc (suc (suc (suc (suc (suc (suc (suc (suc zero))))))))) h = omega arith
value-digit m (suc (suc (suc (suc (suc (suc (suc (suc (suc (suc n)))))))))) h = absurd (omega arith)

pub all_digits-digit : (n : ℕ) → n < 10 → all_digits (digit n) ≡ true
unfolding digit
all_digits-digit zero h = refl
all_digits-digit (suc zero) h = refl
all_digits-digit (suc (suc zero)) h = refl
all_digits-digit (suc (suc (suc zero))) h = refl
all_digits-digit (suc (suc (suc (suc zero)))) h = refl
all_digits-digit (suc (suc (suc (suc (suc zero))))) h = refl
all_digits-digit (suc (suc (suc (suc (suc (suc zero)))))) h = refl
all_digits-digit (suc (suc (suc (suc (suc (suc (suc zero))))))) h = refl
all_digits-digit (suc (suc (suc (suc (suc (suc (suc (suc zero)))))))) h = refl
all_digits-digit (suc (suc (suc (suc (suc (suc (suc (suc (suc zero))))))))) h = refl
all_digits-digit (suc (suc (suc (suc (suc (suc (suc (suc (suc (suc n)))))))))) h =
    absurd (omega arith)

pub value-append : (s t : String) (n : ℕ) → value n (s +s t) ≡ value (value n s) t
unfolding value
value-append [] t n = rw nil-append refl
value-append (c ∷ s) t n = rw (cons-append, value) (value-append s t (n * 10 + (code c - b'0')))

pub all_digits-append :
    (s t : String) → all_digits s ≡ true → all_digits t ≡ true → all_digits (s +s t) ≡ true
all_digits-append [] t h k = rw nil-append k
all_digits-append (c ∷ s) t h k = rw cons-append (ground (arith, all_digits-append s t))

pub value-decimal_from : (fuel n : ℕ) → n < fuel → value 0 (decimal_from fuel n) ≡ n
unfolding decimal_from
value-decimal_from zero n h = absurd (omega arith)
value-decimal_from (suc fuel) n h = ground (
  arith,
  value-decimal_from fuel (n / 10),
  value-digit 0 n,
  value-digit (n / 10) (n % 10),
  value-append (decimal_from fuel (n / 10)) (digit (n % 10)) 0,
)

pub all_digits-decimal_from : (fuel n : ℕ) → all_digits (decimal_from fuel n) ≡ true
unfolding decimal_from
all_digits-decimal_from zero n = refl
all_digits-decimal_from (suc fuel) n = ground (
  arith,
  all_digits-decimal_from fuel (n / 10),
  all_digits-digit n,
  all_digits-digit (n % 10),
  all_digits-append (decimal_from fuel (n / 10)) (digit (n % 10)),
)

pub span_digits-append :
    (s t : String) → all_digits s ≡ true → span_digits t ≡ ([], t) → span_digits (s +s t) ≡ (s, t)
unfolding span_digits
span_digits-append [] t h k = rw nil-append k
span_digits-append (c ∷ s) t h k = rw cons-append (ground (arith, span_digits-append s t))

pub cons_not_empty : (c : Char) (s : String) → (c ∷ s == "") ≡ false
cons_not_empty c s = ground (arith, eq_iff (c ∷ s) "", cons-ne-nil c s)

pub append_not_empty : (s t : String) → (t == "") ≡ false → (s +s t == "") ≡ false
append_not_empty [] t k = rw nil-append k
append_not_empty (c ∷ s) t k = rw cons-append (cons_not_empty c (s +s t))

pub trim_right-digits : (t : String) → all_digits t ≡ true → trim_right t ≡ t
unfolding trim_right is_space
trim_right-digits [] h = refl
trim_right-digits (c ∷ t) h = rw (trim_right, trim_right-digits t (ground arith)) (ground arith)

pub trim_right-append :
    (s t : String) → trim_right t ≡ t → (t == "") ≡ false → trim_right (s +s t) ≡ s +s t
unfolding trim_right
trim_right-append [] t h k = rw nil-append h
trim_right-append (c ∷ s) t h k =
    rw (cons-append c s t, trim_right, trim_right-append s t h k, append_not_empty s t k)
      (ground arith)

pub strip_prefix-append : (p s : String) → strip_prefix (p +s s) p ≡ some s
unfolding strip_prefix
strip_prefix-append [] s = rw nil-append refl
strip_prefix-append (c ∷ p) s =
    rw (cons-append c p s, strip_prefix, strip_prefix-append p s) (ground arith)

pub digit_not_empty : (n : ℕ) → n < 10 → (digit n == "") ≡ false
unfolding digit
digit_not_empty zero h = refl
digit_not_empty (suc zero) h = refl
digit_not_empty (suc (suc zero)) h = refl
digit_not_empty (suc (suc (suc zero))) h = refl
digit_not_empty (suc (suc (suc (suc zero)))) h = refl
digit_not_empty (suc (suc (suc (suc (suc zero))))) h = refl
digit_not_empty (suc (suc (suc (suc (suc (suc zero)))))) h = refl
digit_not_empty (suc (suc (suc (suc (suc (suc (suc zero))))))) h = refl
digit_not_empty (suc (suc (suc (suc (suc (suc (suc (suc zero)))))))) h = refl
digit_not_empty (suc (suc (suc (suc (suc (suc (suc (suc (suc zero))))))))) h = refl
digit_not_empty (suc (suc (suc (suc (suc (suc (suc (suc (suc (suc n)))))))))) h =
    absurd (omega arith)

pub value-decimal : (n : ℕ) → value 0 (decimal n) ≡ n
unfolding decimal
value-decimal n = value-decimal_from (suc n) n (omega arith)

pub all_digits-decimal : (n : ℕ) → all_digits (decimal n) ≡ true
unfolding decimal
all_digits-decimal n = all_digits-decimal_from (suc n) n

pub decimal_not_empty : (n : ℕ) → (decimal n == "") ≡ false
unfolding decimal decimal_from
decimal_not_empty n = ground (
  arith,
  digit_not_empty n,
  append_not_empty (decimal_from n (n / 10)) (digit (n % 10))
      (digit_not_empty (n % 10) (omega arith)),
)

pub span_digits-decimal : (n : ℕ) → span_digits (decimal n) ≡ (decimal n, "")
unfolding span_digits
span_digits-decimal n =
    ap span_digits (sym (append-nil (decimal n)))
    ∙ span_digits-append (decimal n) "" (all_digits-decimal n) refl

pub span_digits-arrow : (s : String) → span_digits (" -> " +s s) ≡ ("", " -> " +s s)
unfolding span_digits
span_digits-arrow s = rw (cons-append " " "-> " s, span_digits) refl
