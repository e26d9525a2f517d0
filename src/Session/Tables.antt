-- ===== src/Session/Tables.antt =====
-- The two tables of internal/session/migrations.go and what its statements do to them, by the meaning of
-- SQL: the keys are single, and an agent session refers to a kagen session. A failing statement changes
-- nothing.
pub mod Laws
pub mod Updates
use kagen.Prelude.{
  ℕ, suc, ◌+◌, String, Bool, true, false, ◌||◌, not, Option, none, some, List, [], ◌∷◌, ◌++◌, ◌==◌,
  map, if◌then◌else◌,
}
use kagen.Prelude.Lists.{contains}
use kagen.Errors.{Err, message}

pub record KagenRow : Type 0 where
  pub id : ℕ
  pub uid : String
  pub repo_id : String
  pub repo_path : String
  pub base_branch : String
  pub workspace_branch : String
  pub head_sha_at_start : String
  pub namespace : String
  pub pod_name : String
  pub status : String
  pub created_at : String
  pub last_used_at : String

-- `name` and `branch` may be NULL.
pub record AgentRow : Type 0 where
  pub id : String
  pub kagen_session_uid : String
  pub agent_type : String
  pub name : Option String
  pub working_mode : String
  pub branch : Option String
  pub state_path : String
  pub created_at : String
  pub last_used_at : String

-- `last_id` is the largest id that AUTOINCREMENT has given.
pub record Db : Type 0 where
  pub sessions : List KagenRow
  pub agents : List AgentRow
  pub last_id : ℕ

abbrev pub empty_db : Db
empty_db = record { sessions = []; agents = []; last_id = 0 }

abbrev pub uids : List KagenRow → List String
uids [] = []
uids (r ∷ rs) = r.uid ∷ uids rs

abbrev pub ids : List KagenRow → List ℕ
ids [] = []
ids (r ∷ rs) = r.id ∷ ids rs

abbrev pub agent_ids : List AgentRow → List String
agent_ids [] = []
agent_ids (a ∷ as') = a.id ∷ agent_ids as'

abbrev pub unique_failed : Err
unique_failed = message "UNIQUE constraint failed" []

abbrev pub foreign_key_failed : Err
foreign_key_failed = message "FOREIGN KEY constraint failed" []

-- What a statement answers: the error, or the result and the tables after it.
pub data Statement (A : Type 0) : Type 0 where
  done : A → Db → Statement A
  failed : Err → Statement A

-- INSERT INTO kagen_sessions; the result is the id of the new row.
unfoldable pub insert_session : KagenRow → Db → Statement ℕ
insert_session row db =
    if contains row.uid (uids db.sessions)
    then failed unique_failed
    else done (suc db.last_id) (record db {
      sessions = db.sessions ++ record row { id = suc db.last_id } ∷ [];
      last_id = suc db.last_id;
    })

-- INSERT INTO agent_sessions
unfoldable pub insert_agent : AgentRow → Db → Statement Unit
insert_agent row db =
    if contains row.id (agent_ids db.agents)
    then failed unique_failed
    else if not (contains row.kagen_session_uid (uids db.sessions))
    then failed foreign_key_failed
    else done tt (record db { agents = db.agents ++ row ∷ [] })

abbrev count_if : Bool → ℕ → ℕ
count_if b n = if b then suc n else n

-- UPDATE: the rows after it, and how many it has changed.
unfoldable pub update_where {ℓ} : {A : Type ℓ} → (A → Bool) → (A → A) → List A → List A × ℕ
update_where test change [] = ([], 0)
update_where test change (x ∷ xs) =
    let (rest, n) = update_where test change xs in
    ((if test x then change x else x) ∷ rest, count_if (test x) n)

-- UPDATE kagen_sessions SET … WHERE …; the result is the number of rows.
unfoldable pub update_sessions : (KagenRow → Bool) → (KagenRow → KagenRow) → Db → Statement ℕ
unfolding update_where
update_sessions test change db =
    let (rows, n) = update_where test change db.sessions in done n (record db { sessions = rows })

-- UPDATE agent_sessions SET … WHERE …
unfoldable pub update_agents : (AgentRow → Bool) → (AgentRow → AgentRow) → Db → Statement ℕ
unfolding update_where
update_agents test change db =
    let (rows, n) = update_where test change db.agents in done n (record db { agents = rows })
