-- ===== src/Session/Attach/Laws.antt =====
-- Laws of RecordAttach, internal/session/writes.go.
use kagen.Prelude.{
  String, Bool, true, false, ◌≡◌, ◌∙◌, ◌&&◌, refl, Option, none, some, ◌==◌, arith, if◌then◌else◌,
}
use kagen.Prelude.Int.{ℤ}
use kagen.Errors.{Err}
use kagen.Session.{Time}
use kagen.Session.Timestamps.{format_timestamp}
use kagen.Session.Tables.{Db, KagenRow, AgentRow, update_where, update_sessions, update_agents}
use kagen.Session.Tables.Updates.{any, set_where, update_where-rows, update_where-count, is_none}
use kagen.Session.Tables.Laws.{IsSound, update_sessions-IsSound, update_agents-IsSound}
use kagen.Session.Store.{Store, Reply, waits, Env, with_connection, run_statement, is_ok}
use kagen.Session.Create.Laws.{IsSoundStore, with_connection-IsSound}
use kagen.Session.Update.{
  id_is, status_reply, set_status, update_status, update_kagen_session_status,
}
use kagen.Session.Attach.{
  Point, touch_session, touch_agent, record_attach, begun, begin, session_update, session_rows,
  agent_update, agent_rows, commit,
}

abbrev pub has_session : ℤ → Db → Bool
has_session id db = any (λ r. id_is id r.id) db.sessions

abbrev pub has_agent : String → Db → Bool
has_agent agent db = any (λ a. a.id == agent) db.agents

-- The tables with the time at both rows, and nothing else changed.
abbrev pub attached : ℤ → String → String → Db → Db
attached id agent stamp db = record db {
  sessions = set_where (λ r. id_is id r.id) (λ r. record r { last_used_at = stamp }) db.sessions;
  agents = set_where (λ a. a.id == agent) (λ a. record a { last_used_at = stamp }) db.agents;
}

-- No statement of the transaction meets an error of the database.
abbrev pub no_fault : (Point → Option Err) → Bool
no_fault fault =
    is_none (fault begin)
    && is_none (fault session_update)
    && is_none (fault session_rows)
    && is_none (fault agent_update)
    && is_none (fault agent_rows)
    && is_none (fault commit)

abbrev pub db_of : Db → Option Store → Db
db_of db none = db
db_of db (some s) = s.db

module _ (env : Env) (fault : Point → Option Err) (id : ℤ) (agent : String) (at : Time) where
  begun-atomic :
      (s : Store)
      → (is_ok (begun env fault id agent at (fault begin) s).0
          ≡ (no_fault fault && has_session id s.db && has_agent agent s.db))
        × ((begun env fault id agent at (fault begin) s).1.db ≡ (
            if no_fault fault && has_session id s.db && has_agent agent s.db
            then attached id agent (format_timestamp env.stamp at) s.db
            else s.db))
  unfolding begun touch_session touch_agent update_sessions update_agents
  begun-atomic s = ground (
    arith,
    update_where-count (λ r. id_is id r.id)
        (λ r. record r { last_used_at = format_timestamp env.stamp at }) s.db.sessions,
    update_where-rows (λ r. id_is id r.id)
        (λ r. record r { last_used_at = format_timestamp env.stamp at }) s.db.sessions,
    update_where-count (λ a. a.id == agent)
        (λ a. record a { last_used_at = format_timestamp env.stamp at }) s.db.agents,
    update_where-rows (λ a. a.id == agent)
        (λ a. record a { last_used_at = format_timestamp env.stamp at }) s.db.agents,
  )

-- On a store whose connection is free, RecordAttach succeeds exactly when no statement meets an error
-- and both rows are there. Then both have the time, and nothing else has changed; if it fails, the
-- tables are as they were.
pub record_attach_atomic :
    (env : Env) (fault : Point → Option Err) (id : ℤ) (agent : String) (at : Time) (s : Store)
    → s.open_tx ≡ none
    → (is_ok (record_attach env fault id agent at (some s)).0
        ≡ (no_fault fault && has_session id s.db && has_agent agent s.db))
      × (db_of s.db (record_attach env fault id agent at (some s)).1 ≡ (
          if no_fault fault && has_session id s.db && has_agent agent s.db
          then attached id agent (format_timestamp env.stamp at) s.db
          else s.db))
unfolding record_attach
record_attach_atomic env fault id agent at s free =
    let t : Store = record { db = s.db; open_tx = none } in
    rw free (begun-atomic env fault id agent at t)

abbrev open_tx_of : Option Store → Option Db
open_tx_of none = none
open_tx_of (some s) = s.open_tx

begun-left_open :
    (env : Env) (id : ℤ) (agent : String) (at : Time) (s : Store)
    → is_none s.open_tx ≡ true
    → is_none (begun env (λ _. none) id agent at none s).1.open_tx
      ≡ (has_session id s.db && has_agent agent s.db)
unfolding begun touch_session touch_agent update_sessions update_agents
begun-left_open env id agent at s free = ground (
  arith,
  update_where-count (λ r. id_is id r.id)
      (λ r. record r { last_used_at = format_timestamp env.stamp at }) s.db.sessions,
  update_where-count (λ a. a.id == agent)
      (λ a. record a { last_used_at = format_timestamp env.stamp at }) s.db.agents,
)

with_connection-waits :
    {A : Type 0} (f : Store → Reply A × Store) (s : Store)
    → is_none s.open_tx ≡ false
    → (with_connection f s).0 ≡ waits
unfolding with_connection
with_connection-waits f s h = ground arith

-- If one of the two rows is missing, RecordAttach returns its error without ending the transaction, and
-- the next statement on the store waits for the connection: here the change of a status. This holds on a
-- store whose connection is free, and where the database has no error.
pub update_kagen_session_status-record_attach :
    (env : Env) (id other : ℤ) (agent status : String) (at : Time) (s : Store)
    (fault rows : Option Err)
    → s.open_tx ≡ none
    → (has_session id s.db && has_agent agent s.db) ≡ false
    → (update_kagen_session_status fault rows other status
        (record_attach env (λ _. none) id agent at (some s)).1).0
      ≡ waits
unfolding record_attach update_kagen_session_status update_status
update_kagen_session_status-record_attach env id other agent status at s fault rows free missing =
    let t : Store = record { db = s.db; open_tx = none } in
    rw free (
      with_connection-waits
        (λ u. status_reply other rows (run_statement fault (set_status other status u.db) u))
        (begun env (λ _. none) id agent at none t).1
        (begun-left_open env id agent at t refl ∙ missing))

attached-IsSound :
    (id : ℤ) (agent stamp : String) (db : Db) → IsSound db → IsSound (attached id agent stamp db)
unfolding update_sessions update_agents
attached-IsSound id agent stamp db sound =
    let touch : KagenRow → KagenRow = λ r. record r { last_used_at = stamp } in
    let mark : AgentRow → AgentRow = λ a. record a { last_used_at = stamp } in
    let this : KagenRow → Bool = λ r. id_is id r.id in
    let that : AgentRow → Bool = λ a. a.id == agent in
    let between : Db = record db { sessions = (update_where this touch db.sessions).0 } in
    let after : Db = record between { agents = (update_where that mark db.agents).0 } in
    let half : IsSound between =
      update_sessions-IsSound this touch (λ r. refl) (λ r. refl) db between _ sound refl in
    let full : IsSound after =
      update_agents-IsSound that mark (λ a. refl) (λ a. refl) between after _ half refl in
    rw (update_where-rows this touch db.sessions, update_where-rows that mark db.agents) at full

-- RecordAttach keeps the tables sound, whichever way it ends.
pub record_attach-IsSound :
    (env : Env) (fault : Point → Option Err) (id : ℤ) (agent : String) (at : Time)
    (store : Option Store)
    → IsSoundStore store
    → IsSoundStore (record_attach env fault id agent at store).1
unfolding record_attach
record_attach-IsSound env fault id agent at none h = tt
record_attach-IsSound env fault id agent at (some s) h =
    with_connection-IsSound (begun env fault id agent at (fault begin)) s h λ t sound.
      rw ((begun-atomic env fault id agent at t).1)
        (if-IsSound _ (attached-IsSound id agent _ t.db sound) sound)
  where
    if-IsSound : (b : Bool) {x y : Db} → IsSound x → IsSound y → IsSound (if b then x else y)
    if-IsSound true hx hy = hx
    if-IsSound false hx hy = hy
