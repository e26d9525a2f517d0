-- ===== src/Cluster/PortForward/RoundTrip.antt =====
-- The forwarding line that kubectl prints, read by internal/cluster/portforward.go.
use Prim.Native.Char.{code}
use Prim.Native.String.{String, [], ◌∷◌}
use kagen.Prelude.{
  ℕ, ◌^◌, ◌<◌, Bool, true, false, ◌&&◌, not, none, some, ◌==◌, nat_eq, ◌≡◌, refl, ap, ◌∙◌, arith,
}
use kagen.Prelude.Int.{pos}
use kagen.Prelude.Text.{trim_space, trim_left, trim_right, is_space, ◌+s◌, decimal}
use text.Mathlib.TextLemmas.{nil-append, cons-append}
use kagen.Errors.Exec.{ok}
use kagen.Cluster.PortForward.Lines.{
  match_ports, match_colon, match_address, match_line, atoi, parse_forwarding_line,
}
use kagen.Cluster.PortForward.Digits.{
  all_digits, span_digits-append, cons_not_empty, append_not_empty, trim_right-digits,
  trim_right-append, strip_prefix-append, value-decimal, all_digits-decimal, decimal_not_empty,
  span_digits-decimal, span_digits-arrow,
}

-- Texts in which the colon and the newline do not occur.
abbrev is_plain : String → Bool
is_plain [] = true
is_plain (c ∷ s) = not (nat_eq (code c) b':') && not (nat_eq (code c) b'\n') && is_plain s

is_plain-digits : (s : String) → all_digits s ≡ true → is_plain s ≡ true
is_plain-digits [] h = refl
is_plain-digits (c ∷ s) h = ground (arith, is_plain-digits s)

is_plain-append : (s t : String) → is_plain s ≡ true → is_plain t ≡ true → is_plain (s +s t) ≡ true
is_plain-append [] t h k = rw nil-append k
is_plain-append (c ∷ s) t h k = rw cons-append (ground (arith, is_plain-append s t))

match_address-plain : (s : String) → is_plain s ≡ true → match_address s ≡ none
unfolding match_address match_colon
match_address-plain [] h = refl
match_address-plain (c ∷ []) h = ground arith
match_address-plain (c ∷ d ∷ s) h = ground (arith, match_address-plain (d ∷ s))

-- Hosts: no newline.
abbrev is_line : String → Bool
is_line [] = true
is_line (c ∷ s) = not (nat_eq (code c) b'\n') && is_line s

match_colon-plain : (s : String) → is_plain s ≡ true → match_colon s ≡ none
unfolding match_colon
match_colon-plain [] h = refl
match_colon-plain (c ∷ s) h = ground arith

match_colon-colon : (s : String) → match_colon (":" +s s) ≡ match_ports s
unfolding match_colon match_ports
match_colon-colon s = rw (cons-append ":" "" s, nil-append s, match_colon) refl

match_address-colon : (s : String) → is_plain s ≡ true → match_address (":" +s s) ≡ none
unfolding match_address
match_address-colon s h =
    rw
      (
        cons-append ":" "" s,
        nil-append s,
        match_address,
        match_address-plain s h,
        match_colon-plain s h,
      )
      refl

match_address-append :
    (host tail : String) (groups : String × String)
    → is_line host ≡ true
    → (host == "") ≡ false
    → is_plain tail ≡ true
    → match_ports tail ≡ some groups
    → match_address (host +s (":" +s tail)) ≡ some groups
unfolding match_address
match_address-append [] tail groups h k p m = absurd (ground arith)
match_address-append (c ∷ []) tail groups h k p m =
    rw (cons-append c "" (":" +s tail), nil-append (":" +s tail))
      (ground (arith, match_address-colon tail p, match_colon-colon tail))
match_address-append (c ∷ d ∷ s) tail groups h k p m =
    let rest : is_line (d ∷ s) ≡ true = ground arith in
    rw
      (
        cons-append c (d ∷ s) (":" +s tail),
        match_address,
        match_address-append (d ∷ s) tail groups rest (cons_not_empty d s) p m,
      )
      (ground arith)

-- Both ports, as kubectl prints them.
abbrev ports_text : ℕ → ℕ → String
ports_text l r = decimal l +s (" -> " +s decimal r)

match_ports-ports_text : (l r : ℕ) → match_ports (ports_text l r) ≡ some (decimal l, decimal r)
unfolding match_ports
match_ports-ports_text l r =
    rw
      (
        match_ports,
        span_digits-append (decimal l) (" -> " +s decimal r) (all_digits-decimal l)
            (span_digits-arrow (decimal r)),
        decimal_not_empty l,
        strip_prefix-append " -> " (decimal r),
        span_digits-decimal r,
        decimal_not_empty r,
      )
      refl

is_plain-ports_text : (l r : ℕ) → is_plain (ports_text l r) ≡ true
is_plain-ports_text l r =
    is_plain-append (decimal l) (" -> " +s decimal r)
      (is_plain-digits (decimal l) (all_digits-decimal l))
      (is_plain-append " -> " (decimal r) refl (is_plain-digits (decimal r) (all_digits-decimal r)))

-- The line that kubectl prints.
abbrev pub forwarding_line : String → ℕ → ℕ → String
forwarding_line host l r = "Forwarding from " +s (host +s (":" +s ports_text l r))

trim_left-forwarding : (s : String) → trim_left ("Forwarding from " +s s) ≡ "Forwarding from " +s s
unfolding trim_left is_space
trim_left-forwarding s = rw (cons-append "F" "orwarding from " s, trim_left) refl

trim_space-forwarding_line :
    (host : String) (l r : ℕ) → trim_space (forwarding_line host l r) ≡ forwarding_line host l r
unfolding trim_space
trim_space-forwarding_line host l r =
    let arrow = " -> " +s decimal r in
    let some_arrow = append_not_empty " -> " (decimal r) (decimal_not_empty r) in
    let some_ports = append_not_empty (decimal l) arrow some_arrow in
    let some_colon = append_not_empty ":" (ports_text l r) some_ports in
    let some_host = append_not_empty host (":" +s ports_text l r) some_colon in
    let r_kept = trim_right-digits (decimal r) (all_digits-decimal r) in
    let arrow_kept = trim_right-append " -> " (decimal r) r_kept (decimal_not_empty r) in
    let ports_kept = trim_right-append (decimal l) arrow arrow_kept some_arrow in
    let colon_kept = trim_right-append ":" (ports_text l r) ports_kept some_ports in
    let host_kept = trim_right-append host (":" +s ports_text l r) colon_kept some_colon in
    let rest = host +s (":" +s ports_text l r) in
    ap trim_right (trim_left-forwarding rest)
    ∙ trim_right-append "Forwarding from " rest host_kept some_host

atoi-decimal : (n : ℕ) → n < 2 ^ 63 → atoi (decimal n) ≡ ok (pos n)
unfolding atoi
atoi-decimal n h = rw (atoi, value-decimal n) (ground arith)

-- The line that kubectl prints for a host and two ports is read back as these ports, for every host
-- that is not empty and has no newline and all ports below 2^63.
pub parse_forwarding_line-forwarding_line :
    (host : String) (l r : ℕ)
    → is_line host ≡ true
    → (host == "") ≡ false
    → l < 2 ^ 63
    → r < 2 ^ 63
    → parse_forwarding_line (forwarding_line host l r) ≡ ok (pos l, pos r)
unfolding parse_forwarding_line match_line
parse_forwarding_line-forwarding_line host l r line some_host hl hr =
    rw
      (
        parse_forwarding_line,
        trim_space-forwarding_line host l r,
        match_line,
        strip_prefix-append "Forwarding from " (host +s (":" +s ports_text l r)),
        match_address-append host (ports_text l r) (decimal l, decimal r) line some_host
            (is_plain-ports_text l r) (match_ports-ports_text l r),
        atoi-decimal l hl,
        atoi-decimal r hr,
      )
      refl
