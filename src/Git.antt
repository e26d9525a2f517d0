-- ===== src/Git.antt =====
-- internal/git/repo.go: the identity of a repository and the git commands that it runs. The git process
-- and what the program takes from its environment are the parameter `GitProcess`.
pub mod Commands
pub mod Config
pub mod Laws
use Prim.Native.String.{String}
use Prim.Native.Nat.{ℕ, zero, suc}
use kagen.Prelude.{◌≡◌}
use kagen.Prelude.Text.{◌+s◌}

pub record Repository : Type 0 where
  pub path : String
  pub current_branch : String
  pub head_sha : String

pub record BasicAuth : Type 0 where
  pub username : String
  pub password : String

take : ℕ → String → String
take zero s = ""
take (suc n) String.[] = ""
take (suc n) (String.◌∷◌ c s) = String.◌∷◌ c (take n s)

-- The first 8 characters of the hexadecimal SHA-1 of the path.
unfoldable pub repo_id : (String → String) → Repository → String
unfolding take
repo_id sha1_hex r = take 8 (sha1_hex r.path)

unfoldable pub kagen_branch : Repository → String
kagen_branch r = "kagen/" +s r.current_branch

unfoldable pub kagen_remote_tracking_branch : Repository → String → String
unfolding kagen_branch
kagen_remote_tracking_branch r remote = remote +s "/" +s kagen_branch r

unfoldable pub remote_tracking_branch : Repository → String → String
remote_tracking_branch r remote = remote +s "/" +s r.current_branch
