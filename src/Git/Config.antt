-- ===== src/Git/Config.antt =====
-- internal/git/config.go: the user that commits are made for.
use Prim.Native.Char.{code}
use Prim.Native.String.{String}
use kagen.Prelude.{Option, none, some, List, [], ◌∷◌, ◌==◌, nat_eq, if◌then◌else◌}
use kagen.Prelude.Text.{trim_space, ◌+s◌}
use kagen.Errors.{Err}
use kagen.Errors.Exec.{Result, ok, err, Exec}

-- The text before the first "@" and the text after it.
unfoldable pub split_at : String → Option (String × String)
split_at String.[] = none
split_at (String.◌∷◌ c s) =
    let rest = split_at s in
    if nat_eq (code c) b'@'
    then some ("", s)
    else elim rest [ none ↦ none | some (before, after) ↦ some (String.◌∷◌ c before, after) ]

unfoldable pub add_subaddress : String → String → String
unfolding split_at
add_subaddress email tag = elim (split_at email) [
  | none ↦ email
  | some (local, domain) ↦ local +s "+" +s tag +s "@" +s domain
]

pub record UserConfig : Type 0 where
  pub name : String
  pub email : String

-- What the process answered, trimmed.
config_value : String × Option Err → Result String
config_value (out, none) = ok (trim_space out)
config_value (out, some e) = err e

-- `git` answers with the standard output and the error of `git` with the given arguments, and `getenv`
-- is `os.Getenv`.
module _ {W : Type 0} (git : List String → W → (String × Option Err) × W)
    (getenv : String → String) where
  -- The global value, or else the local one.
  local_config : String → String × Option Err → Exec W String
  unfolding config_value
  local_config key (out, none) w = (config_value (out, none), w)
  local_config key (out, some e) w =
      let (a, w') = git ("config" ∷ key ∷ []) w in (config_value a, w')

  unfoldable pub get_git_config : String → Exec W String
  unfolding local_config
  get_git_config key w =
      let (a, w') = git ("config" ∷ "--global" ∷ key ∷ []) w in local_config key a w'

  unfoldable pub get_os_username : String
  get_os_username =
      if getenv "USER" == ""
      then (if getenv "USERNAME" == "" then "unknown" else getenv "USERNAME")
      else getenv "USER"

  name_or_username : Result String → String
  unfolding get_os_username
  name_or_username (ok name) = if name == "" then get_os_username else name
  name_or_username (err e) = get_os_username

  value_or_empty : Result String → String
  value_or_empty (ok email) = email
  value_or_empty (err e) = ""

  unfoldable pub get_host_user : W → UserConfig × W
  unfolding get_git_config name_or_username value_or_empty
  get_host_user w =
      let (name, w') = get_git_config "user.name" w in
      let (email, w'') = get_git_config "user.email" w' in
      (record { name = name_or_username name; email = value_or_empty email }, w'')
