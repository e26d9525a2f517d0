-- ===== src/Prelude/Paths.antt =====
-- Go's `path.Join` and `path.Clean` (`filepath.Join` on Unix), as far as the program uses them.
use Prim.Native.Char.{Char, code}
use Prim.Native.String.{String}
use mathlib.Core.Path.{◌≡◌, refl}
use mathlib.Core.Bool.{Bool, ◌||◌}
use mathlib.Core.List.{List, [], ◌∷◌, reverse}
use text.Mathlib.Text.{◌==◌}
use kagen.Prelude.Tests.{nat_eq, if◌then◌else◌}
use kagen.Prelude.Text.{has_prefix, join, ◌+s◌}

abbrev push_char : Char → List String → List String
push_char c [] = (String.◌∷◌ c String.[]) ∷ []
push_char c (s ∷ rest) = (String.◌∷◌ c s) ∷ rest

-- The parts of a path between its slashes.
unfoldable pub split_slash : String → List String
split_slash String.[] = "" ∷ []
split_slash (String.◌∷◌ c s) =
    let rest = split_slash s in if nat_eq (code c) b'/' then "" ∷ rest else push_char c rest

-- ".." takes the last part back; at the root it is dropped, and otherwise it is kept.
up : Bool → List String → List String
up rooted [] = if rooted then [] else ".." ∷ []
up rooted (part ∷ stack) = if part == ".." then ".." ∷ part ∷ stack else stack

-- The stack of the parts read so far has the last one at its head.
clean_parts : Bool → List String → List String → List String
clean_parts rooted stack [] = reverse stack
clean_parts rooted stack (part ∷ parts) =
    clean_parts rooted
      (if part == "" || part == "."
        then stack
        else if part == ".."
        then up rooted stack
        else part ∷ stack)
      parts

-- path.Clean
unfoldable pub clean : String → String
unfolding has_prefix split_slash up clean_parts join
clean s =
    let rooted = has_prefix s "/" in
    let rest = join (clean_parts rooted [] (split_slash s)) "/" in
    let path = if rooted then "/" +s rest else rest in if path == "" then "." else path

nonempty : List String → List String
nonempty [] = []
nonempty (s ∷ more) = let rest = nonempty more in if s == "" then rest else s ∷ rest

-- path.Join
unfoldable pub join_path : List String → String
unfolding clean nonempty
join_path elems = let path = join (nonempty elems) "/" in if path == "" then "" else clean path

join_path_test : join_path ("/a/" ∷ "" ∷ "../b" ∷ "c/./d" ∷ []) ≡ "/b/c/d"
unfolding join_path
join_path_test = refl
