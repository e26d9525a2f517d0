-- ===== src/Session/Paths.antt =====
-- internal/session/paths.go. The file system is the parameter `FileSystem`.
use kagen.Prelude.{String, [], ◌∷◌}
use kagen.Prelude.Paths.{clean, join_path}
use kagen.Errors.{Err, wrapped}
use kagen.Errors.Exec.{Result, ok, err}

-- An error of `EvalSymlinks`: whether it says that the file does not exist.
pub data Links : Type 0 where
  resolved : String → Links
  missing : Err → Links
  failed : Err → Links

pub record FileSystem : Type 0 where
  pub absolute : String → Result String
  pub eval_symlinks : String → Links
  pub user_config_dir : Result String

unfoldable pub default_db_path : FileSystem → Result String
default_db_path fs = elim fs.user_config_dir [
  | ok dir ↦ ok (join_path (dir ∷ "kagen" ∷ "sessions.db" ∷ []))
  | err e ↦ err (wrapped "finding user config directory: %w" [] e)
]

follow : String → Links → Result String
follow path (resolved target) = ok (clean target)
follow path (missing e) = ok (clean path)
follow path (failed e) = err e

unfoldable pub normalise_repo_path : FileSystem → String → Result String
unfolding follow
normalise_repo_path fs path = elim (fs.absolute path) [
  | ok absolute ↦ follow absolute (fs.eval_symlinks absolute)
  | err e ↦ err e
]
