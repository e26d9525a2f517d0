-- ===== src/Session/Create/Laws.antt =====
-- Laws of CreateKagenSession and CreateAgentSession, internal/session/writes.go.
use kagen.Prelude.{ℕ, String, ◌≡◌, refl, Option, none, some, Option-cases, inl, inr}
use kagen.Errors.{Err}
use kagen.Errors.Exec.{Result, ok, err}
use kagen.Session.{CreateKagenSessionParams, CreateAgentSessionParams}
use kagen.Session.Tables.{Db, Statement, done, failed, insert_session, insert_agent}
use kagen.Session.Tables.Laws.{IsSound, insert_session-IsSound, insert_agent-IsSound}
use kagen.Session.Store.{Store, Reply, Env, with_connection, run_statement}
use kagen.Session.Create.{
  create_kagen_session, create_agent_session, create_with_path, kagen_session_reply, kagen_row,
  complete_kagen_session, create_agent, agent_session_reply, agent_row, complete_agent_session,
}

-- The tables of the store are sound, if there is a store.
abbrev pub IsSoundStore : Option Store → Type 0
IsSoundStore none = Unit
IsSoundStore (some s) = IsSound s.db

pub run_statement-IsSound :
    {A : Type 0} (fault : Option Err) (st : Statement A) (s : Store)
    → IsSound s.db
    → ((a : A) (after : Db) → st ≡ done a after → IsSound after)
    → IsSound (run_statement fault st s).1.db
unfolding run_statement
run_statement-IsSound none (done a after) s h k = k a after refl
run_statement-IsSound none (failed e) s h k = h
run_statement-IsSound (some e) st s h k = h

pub with_connection-IsSound :
    {A : Type 0} (f : Store → Reply A × Store) (s : Store)
    → IsSound s.db
    → ((t : Store) → IsSound t.db → IsSound (f t).1.db)
    → IsSound (with_connection f s).1.db
unfolding with_connection
with_connection-IsSound f s h k = elim (Option-cases s.open_tx) [
  | inl free ↦ rw free (k (record { db = s.db; open_tx = none }) h)
  | inr (tx, busy) ↦ rw busy h
]

kagen_session_reply-db :
    (env : Env) (p : CreateKagenSessionParams) (id_fault : Option Err) (r : Result ℕ × Store)
    → (kagen_session_reply env p id_fault r).1 ≡ r.1
unfolding kagen_session_reply
kagen_session_reply-db env p none (err e, s) = refl
kagen_session_reply-db env p (some f) (err e, s) = refl
kagen_session_reply-db env p none (ok id, s) = refl
kagen_session_reply-db env p (some e) (ok id, s) = refl

agent_session_reply-db :
    (env : Env) (p : CreateAgentSessionParams) (r : Result (Unit {0}) × Store)
    → (agent_session_reply env p r).1 ≡ r.1
unfolding agent_session_reply
agent_session_reply-db env p (err e, s) = refl
agent_session_reply-db env p (ok u, s) = refl

create_with_path-IsSound :
    (env : Env) (fault id_fault : Option Err) (params : CreateKagenSessionParams)
    (path : Result String) (s : Store)
    → IsSound s.db
    → IsSound (create_with_path env fault id_fault params path s).1.db
unfolding create_with_path
create_with_path-IsSound env fault id_fault params (err e) s h = h
create_with_path-IsSound env fault id_fault params (ok path) s h =
    let p = complete_kagen_session env params path in
    with_connection-IsSound
      (λ t.
        kagen_session_reply env p id_fault
          (run_statement fault (insert_session (kagen_row env p) t.db) t))
      s h
      λ t sound. rw kagen_session_reply-db (
        run_statement-IsSound fault (insert_session (kagen_row env p) t.db) t sound
          (λ id after e. insert_session-IsSound (kagen_row env p) t.db after id sound e))

-- CreateKagenSession keeps the tables sound, whatever its parameters and whichever way it ends.
pub create_kagen_session-IsSound :
    (env : Env) (fault id_fault : Option Err) (params : CreateKagenSessionParams)
    (store : Option Store)
    → IsSoundStore store
    → IsSoundStore (create_kagen_session env fault id_fault params store).1
unfolding create_kagen_session
create_kagen_session-IsSound env fault id_fault params none h = tt
create_kagen_session-IsSound env fault id_fault params (some s) h =
    create_with_path-IsSound env fault id_fault params _ s h

-- CreateAgentSession keeps the tables sound, so it makes no agent session without its kagen session.
pub create_agent_session-IsSound :
    (env : Env) (fault : Option Err) (params : CreateAgentSessionParams) (store : Option Store)
    → IsSoundStore store
    → IsSoundStore (create_agent_session env fault params store).1
unfolding create_agent_session create_agent
create_agent_session-IsSound env fault params none h = tt
create_agent_session-IsSound env fault params (some s) h =
    let p = complete_agent_session env params in
    with_connection-IsSound
      (λ t. agent_session_reply env p (run_statement fault (insert_agent (agent_row env p) t.db) t))
      s h
      λ t sound. rw agent_session_reply-db (
        run_statement-IsSound fault (insert_agent (agent_row env p) t.db) t sound
          (λ u after e. insert_agent-IsSound (agent_row env p) t.db after u sound e))
