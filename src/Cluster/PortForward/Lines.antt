-- ===== src/Cluster/PortForward/Lines.antt =====
-- internal/cluster/portforward.go: the line in which kubectl reports what it forwards. The pattern is
-- `^Forwarding from .+:(\d+) -> (\d+)$`.
use Prim.Native.Char.{code}
use Prim.Native.String.{String, [], ◌∷◌}
use kagen.Prelude.{
  ℕ, ◌+◌, ◌-◌, ◌*◌, ◌^◌, Bool, ◌&&◌, Option, none, some, List, ◌==◌, ltb, leb, nat_eq,
  if◌then◌else◌, ◌≡◌, refl,
}
use kagen.Prelude.Int.{ℤ, pos}
use kagen.Prelude.Text.{trim_space}
use kagen.Errors.{message, wrapped}
use kagen.Errors.Exec.{Result, ok, err}

abbrev pub is_digit : ℕ → Bool
is_digit c = leb b'0' c && leb c b'9'

-- The digits at the front of a text, and the rest: `\d+` takes as many as there are.
unfoldable pub span_digits : String → String × String
span_digits [] = ([], [])
span_digits (c ∷ s) =
    let (digits, rest) = span_digits s in
    if is_digit (code c) then (c ∷ digits, rest) else ([], c ∷ s)

-- What follows a prefix of a text.
unfoldable pub strip_prefix : String → String → Option String
strip_prefix s [] = some s
strip_prefix [] (d ∷ p) = none
strip_prefix (c ∷ s) (d ∷ p) =
    let rest = strip_prefix s p in if nat_eq (code c) (code d) then rest else none

abbrev last_number : String → String × String → Option (String × String)
last_number first (second, rest) =
    if second == "" then none else if rest == "" then some (first, second) else none

abbrev after_arrow : String → Option String → Option (String × String)
unfolding span_digits
after_arrow first none = none
after_arrow first (some rest) = last_number first (span_digits rest)

-- `(\d+) -> (\d+)$`
unfoldable pub match_ports : String → Option (String × String)
unfolding span_digits strip_prefix
match_ports s =
    let (first, rest) = span_digits s in
    if first == "" then none else after_arrow first (strip_prefix rest " -> ")

unfoldable pub match_colon : String → Option (String × String)
unfolding match_ports
match_colon [] = none
match_colon (c ∷ s) = let found = match_ports s in if nat_eq (code c) b':' then found else none

abbrev pub or_match : Option (String × String) → Option (String × String) → Option (String × String)
or_match none e = e
or_match (some found) e = some found

-- `.+:(\d+) -> (\d+)$`: the dots take as much as they can, and no newline.
unfoldable pub match_address : String → Option (String × String)
unfolding match_colon
match_address [] = none
match_address (c ∷ s) =
    let later = match_address s in
    if nat_eq (code c) b'\n' then none else or_match later (match_colon s)

-- The groups of `forwardingLinePattern`.
unfoldable pub match_line : String → Option (String × String)
unfolding match_address strip_prefix
match_line s = elim (strip_prefix s "Forwarding from ") [
  | none ↦ none
  | some rest ↦ match_address rest
]

-- The number that digits spell behind `n`.
unfoldable pub value : ℕ → String → ℕ
value n [] = n
value n (c ∷ s) = value (n * 10 + (code c - b'0')) s

-- strconv.Atoi of digits, with the 64 bits of `int`
unfoldable pub atoi : String → Result ℤ
unfolding value
atoi s =
    if ltb (value 0 s) (2 ^ 63)
    then ok (pos (value 0 s))
    else err (message "strconv.Atoi: parsing %q: value out of range" (List.◌∷◌ s List.[]))

abbrev parse_remote : ℤ → String → Result ℤ → Result (ℤ × ℤ)
parse_remote local_port text (ok remote_port) = ok (local_port, remote_port)
parse_remote local_port text (err e) =
    err (wrapped "parsing remote port %q: %w" (List.◌∷◌ text List.[]) e)

abbrev parse_ports : Result ℤ → String × String → Result (ℤ × ℤ)
unfolding atoi
parse_ports (ok local_port) (first, second) = parse_remote local_port second (atoi second)
parse_ports (err e) (first, second) =
    err (wrapped "parsing local port %q: %w" (List.◌∷◌ first List.[]) e)

-- `parseForwardingLine`: the local port and the remote one
unfoldable pub parse_forwarding_line : String → Result (ℤ × ℤ)
unfolding match_line atoi
parse_forwarding_line line = elim (match_line (trim_space line)) [
  | none ↦ err (message "missing forwarding line" List.[])
  | some groups ↦ parse_ports (atoi groups.0) groups
]

loopback_test :
    parse_forwarding_line " Forwarding from 127.0.0.1:41583 -> 3000" ≡ ok (pos 41583, pos 3000)
unfolding parse_forwarding_line trim_space
loopback_test = refl

ipv6_test : parse_forwarding_line "Forwarding from [::1]:80 -> 22" ≡ ok (pos 80, pos 22)
unfolding parse_forwarding_line trim_space
ipv6_test = refl

no_host_test :
    parse_forwarding_line "Forwarding from :80 -> 22"
    ≡ err (message "missing forwarding line" List.[])
unfolding parse_forwarding_line trim_space
no_host_test = refl
