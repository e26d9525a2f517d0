-- ===== src/Prelude/Text.antt =====
-- Go's `strings` package, as far as the program uses it. A text is its list of code points, so for
-- valid UTF-8 the byte order of Go is the order of the code points.
use Prim.Native.Char.{Char, code}
use Prim.Native.String
use Prim.Native.String.{String, [], ◌∷◌}
use Prim.Native.Nat.{ℕ, zero, suc, ◌/◌, ◌%◌}
use mathlib.Core.Path.{◌≡◌, refl}
use mathlib.Core.Bool.{Bool, true, false, ◌&&◌, ◌||◌}
use mathlib.Core.List.{List}
use text.Mathlib.Text.{◌==◌}
use kagen.Prelude.Int.{ℤ, pos, negsuc}
use kagen.Prelude.Tests.{leb, ltb, nat_eq, if◌then◌else◌}

infixl 65 ◌+s◌
-- Concatenation of texts.
abbrev pub ◌+s◌ : String → String → String
s +s t = String.◌++◌ s t

-- unicode.IsSpace
unfoldable pub is_space : ℕ → Bool
is_space c =
    leb 9 c && leb c 13
    || nat_eq c 32
    || nat_eq c 0x85
    || nat_eq c 0xA0
    || nat_eq c 0x1680
    || leb 0x2000 c && leb c 0x200a
    || nat_eq c 0x2028
    || nat_eq c 0x2029
    || nat_eq c 0x202f
    || nat_eq c 0x205f
    || nat_eq c 0x3000

unfoldable pub trim_left : String → String
unfolding is_space
trim_left [] = []
trim_left (c ∷ s) = if is_space (code c) then trim_left s else c ∷ s

unfoldable pub trim_right : String → String
unfolding is_space
trim_right [] = []
trim_right (c ∷ s) = let r = trim_right s in if is_space (code c) && r == "" then [] else c ∷ r

-- strings.TrimSpace
unfoldable pub trim_space : String → String
unfolding trim_left trim_right
trim_space s = trim_right (trim_left s)

-- strings.HasPrefix
unfoldable pub has_prefix : String → String → Bool
has_prefix s [] = true
has_prefix [] (d ∷ p) = false
has_prefix (c ∷ s) (d ∷ p) = nat_eq (code c) (code d) && has_prefix s p

-- strings.HasSuffix
unfoldable pub has_suffix : String → String → Bool
has_suffix [] p = p == ""
has_suffix (c ∷ s) p = (c ∷ s) == p || has_suffix s p

-- strings.Contains
unfoldable pub contains_text : String → String → Bool
unfolding has_prefix
contains_text [] p = p == ""
contains_text (c ∷ s) p = has_prefix (c ∷ s) p || contains_text s p

-- strings.ContainsAny with a set of characters
unfoldable pub contains_any : String → (ℕ → Bool) → Bool
contains_any [] f = false
contains_any (c ∷ s) f = f (code c) || contains_any s f

-- A letter in lower case, or the character as it is, before a text.
push_lower : Char → String → String
push_lower ch s =
    let c = code ch in
    if nat_eq c b'A'
    then "a" +s s
    else if nat_eq c b'B'
    then "b" +s s
    else if nat_eq c b'C'
    then "c" +s s
    else if nat_eq c b'D'
    then "d" +s s
    else if nat_eq c b'E'
    then "e" +s s
    else if nat_eq c b'F'
    then "f" +s s
    else if nat_eq c b'G'
    then "g" +s s
    else if nat_eq c b'H'
    then "h" +s s
    else if nat_eq c b'I'
    then "i" +s s
    else if nat_eq c b'J'
    then "j" +s s
    else if nat_eq c b'K'
    then "k" +s s
    else if nat_eq c b'L'
    then "l" +s s
    else if nat_eq c b'M'
    then "m" +s s
    else if nat_eq c b'N'
    then "n" +s s
    else if nat_eq c b'O'
    then "o" +s s
    else if nat_eq c b'P'
    then "p" +s s
    else if nat_eq c b'Q'
    then "q" +s s
    else if nat_eq c b'R'
    then "r" +s s
    else if nat_eq c b'S'
    then "s" +s s
    else if nat_eq c b'T'
    then "t" +s s
    else if nat_eq c b'U'
    then "u" +s s
    else if nat_eq c b'V'
    then "v" +s s
    else if nat_eq c b'W'
    then "w" +s s
    else if nat_eq c b'X'
    then "x" +s s
    else if nat_eq c b'Y'
    then "y" +s s
    else if nat_eq c b'Z'
    then "z" +s s
    else ch ∷ s

-- strings.ToLower, on ASCII: other letters are kept.
unfoldable pub to_lower : String → String
unfolding push_lower
to_lower [] = []
to_lower (c ∷ s) = push_lower c (to_lower s)

-- strings.Join
unfoldable pub join : List String → String → String
join List.[] sep = []
join (List.◌∷◌ s List.[]) sep = s
join (List.◌∷◌ s (List.◌∷◌ t more)) sep = s +s sep +s join (List.◌∷◌ t more) sep

abbrev push_word : String → List String → List String
push_word [] words = words
push_word (c ∷ w) words = List.◌∷◌ (c ∷ w) words

-- The word being read and the words after it.
fields_from : String → String × List String
fields_from [] = ([], List.[])
fields_from (c ∷ s) =
    let (word, words) = fields_from s in
    if is_space (code c) then ([], push_word word words) else (c ∷ word, words)

-- strings.Fields
unfoldable pub fields : String → List String
unfolding fields_from is_space
fields s = let (word, words) = fields_from s in push_word word words

fields_test : fields " ab  c " ≡ List.◌∷◌ "ab" (List.◌∷◌ "c" List.[])
unfolding fields
fields_test = refl

-- The text of a digit.
unfoldable pub digit : ℕ → String
digit n =
    if nat_eq n 0
    then "0"
    else if nat_eq n 1
    then "1"
    else if nat_eq n 2
    then "2"
    else if nat_eq n 3
    then "3"
    else if nat_eq n 4
    then "4"
    else if nat_eq n 5
    then "5"
    else if nat_eq n 6
    then "6"
    else if nat_eq n 7
    then "7"
    else if nat_eq n 8
    then "8"
    else "9"

unfoldable pub decimal_from : ℕ → ℕ → String
unfolding digit
decimal_from zero n = ""
decimal_from (suc fuel) n =
    let front = decimal_from fuel (n / 10) in if ltb n 10 then digit n else front +s digit (n % 10)

-- The decimal numeral; a number has fewer digits than its successor.
unfoldable pub decimal : ℕ → String
unfolding decimal_from
decimal n = decimal_from (suc n) n

-- strconv.FormatInt in base 10, and `%d`
unfoldable pub itoa : ℤ → String
unfolding decimal
itoa (pos n) = decimal n
itoa (negsuc n) = "-" +s decimal (suc n)

decimal_test : decimal 65535 ≡ "65535"
unfolding decimal
decimal_test = refl

trim_test : trim_space "  a b\t " ≡ "a b"
unfolding trim_space
trim_test = refl

contains_test : contains_text "a://b" "://" ≡ true
unfolding contains_text
contains_test = refl
