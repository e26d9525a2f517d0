-- ===== src/Session/Timestamps.antt =====
-- internal/session/values.go: times as texts in the format RFC3339Nano, in UTC. The date and the time of
-- day to the second are `stamp`, of package time; the fraction is written out here.
use Prim.Native.Nat.{◌/◌, ◌%◌}
use text.Mathlib.TextLemmas.{nil-append, append_assoc}
use kagen.Prelude.{
  ℕ, zero, suc, ◌+◌, ◌*◌, ◌<◌, String, true, false, ◌≡◌, refl, ◌==◌, nat_eq, arith, if◌then◌else◌,
  Option, none, some,
}
use kagen.Prelude.Text.{◌+s◌, trim_space, digit}
use kagen.Prelude.Sort.{str_ltb, str_ltb-append, str_ltb_dot}
use kagen.Session.{Time}

-- The lowest k digits of n.
padded : ℕ → ℕ → String
unfolding digit
padded zero n = ""
padded (suc k) n = padded k (n / 10) +s digit (n % 10)

-- The lowest k digits of n without the zeros at their end.
unfoldable pub significant : ℕ → ℕ → String
unfolding digit padded
significant zero n = ""
significant (suc k) n =
    let trimmed = significant k (n / 10) in
    if nat_eq (n % 10) 0 then trimmed else padded k (n / 10) +s digit (n % 10)

-- The layout's ".999999999": nothing at 0.
fraction : ℕ → String
fraction nanos = if nat_eq nanos 0 then "" else "." +s significant 9 nanos

abbrev pub nanos_per_second : ℕ
nanos_per_second = 1000000000

unfoldable pub format_timestamp : (ℕ → String) → Time → String
unfolding fraction
format_timestamp stamp t = stamp (t / nanos_per_second) +s (fraction (t % nanos_per_second) +s "Z")

unfoldable pub nullable_string : String → Option String
nullable_string value =
    let trimmed = trim_space value in if trimmed == "" then none else some trimmed

format_test : format_timestamp (λ s. "T") 5120000000 ≡ "T.12Z"
unfolding format_timestamp significant
format_test = refl

-- A whole second is written after every later time of the same second, since "." is before "Z": the
-- order of the texts is not the order of the times.
pub format_timestamp_misordered :
    (stamp : ℕ → String) (s n : ℕ)
    → 0 < n
    → n < nanos_per_second
    → (s * nanos_per_second < s * nanos_per_second + n)
      × (str_ltb
            (format_timestamp stamp (s * nanos_per_second + n))
            (format_timestamp stamp (s * nanos_per_second))
          ≡ true)
unfolding format_timestamp fraction
format_timestamp_misordered stamp s n h k = (omega arith, misordered)
  where
    same_second : (s * nanos_per_second + n) / nanos_per_second ≡ s
    same_second = omega arith

    later : (s * nanos_per_second + n) % nanos_per_second ≡ n
    later = omega arith

    whole_second : (s * nanos_per_second) / nanos_per_second ≡ s
    whole_second = omega arith

    whole : (s * nanos_per_second) % nanos_per_second ≡ 0
    whole = omega arith

    positive : nat_eq n 0 ≡ false
    positive = ground arith

    misordered :
        str_ltb
          (format_timestamp stamp (s * nanos_per_second + n))
          (format_timestamp stamp (s * nanos_per_second))
        ≡ true
    misordered =
        rw (same_second, later, whole_second, whole, positive)
          (rw (str_ltb-append (stamp s)) (rw append_assoc (rw nil-append (str_ltb_dot _))))
