-- ===== src/Session/Attach.antt =====
-- internal/session/writes.go: RecordAttach, which updates both tables in one transaction.
pub mod Laws
use kagen.Prelude.{
  ℕ, zero, suc, String, Bool, true, false, ◌||◌, ◌≡◌, Option, none, some, List, [], ◌∷◌, ◌==◌,
  nat_eq, if◌then◌else◌,
}
use kagen.Prelude.Int.{ℤ, pos, negsuc}
use kagen.Prelude.Text.{to_lower, contains_text, itoa}
use kagen.Errors.{Err, message, wrapped, error_text}
use kagen.Errors.Exec.{Result, ok, err}
use kagen.Session.{
  Time, KagenSession, AgentSession, CreateKagenSessionParams, CreateAgentSessionParams,
}
use kagen.Session.Timestamps.{format_timestamp, nullable_string}
use kagen.Session.Paths.{FileSystem, normalise_repo_path}
use kagen.Session.Tables.{
  KagenRow, AgentRow, Db, Statement, done, failed, insert_session, insert_agent, update_sessions,
  update_agents,
}
use kagen.Session.Store.{
  Store, Reply, replies, waits, fails, Env, wrap_write_error, on_open, run_statement,
  with_connection,
}
use kagen.Session.Update.{id_is}

-- The statements of `RecordAttach`, for the errors of the database.
pub data Point : Type 0 where
  begin session_update session_rows agent_update agent_rows commit : Point

-- A transaction at work: its tables, and the store beneath it.
rolled_back : Err → Store → Reply (Unit {0}) × Store
rolled_back e s = (fails e, s)

-- `err` is nil here, so the deferred function does not roll back, and the transaction stays open.
left_open : Err → Db → Store → Reply (Unit {0}) × Store
left_open e work s = (fails e, record s { open_tx = some work })

-- The answer of a statement in the transaction.
in_tx : {A : Type 0} → Option Err → Statement A → Statement A
in_tx none st = st
in_tx (some e) st = failed e

end_tx : ℤ → Option Err → Db → Store → Reply (Unit {0}) × Store
unfolding rolled_back
end_tx id (some e) work s =
    rolled_back (wrapped "recording attach: committing transaction: %w" [] e) s
end_tx id none work s = (replies (ok tt), record s { db = work })

after_agent :
    (Point → Option Err) → ℤ → String → Statement ℕ → Option Err → Store → Reply (Unit {0}) × Store
unfolding rolled_back left_open end_tx
after_agent fault id agent (failed e) rows s =
    rolled_back
      (wrapped "recording attach for session %d agent session %s: %w" (itoa id ∷ agent ∷ []) e) s
after_agent fault id agent (done n work) (some e) s =
    rolled_back (wrapped "reading agent attach rows affected for session %d: %w" (itoa id ∷ []) e) s
after_agent fault id agent (done n work) none s =
    if nat_eq n 0
    then left_open
        (message "recording attach for session %d: agent session %s not found"
          (itoa id ∷ agent ∷ []))
        work s
    else end_tx id (fault commit) work s

-- UPDATE agent_sessions SET last_used_at = ? WHERE id = ?
unfoldable pub touch_agent : String → String → Db → Statement ℕ
touch_agent agent stamp =
    update_agents (λ a. a.id == agent) (λ a. record a { last_used_at = stamp })

-- UPDATE kagen_sessions SET last_used_at = ? WHERE id = ?
unfoldable pub touch_session : ℤ → String → Db → Statement ℕ
touch_session id stamp =
    update_sessions (λ r. id_is id r.id) (λ r. record r { last_used_at = stamp })

after_session :
    (Point → Option Err)
    → ℤ
    → String
    → String
    → Statement ℕ
    → Option Err
    → Store
    → Reply (Unit {0}) × Store
unfolding rolled_back left_open in_tx after_agent
after_session fault id agent stamp (failed e) rows s =
    rolled_back (wrapped "recording attach for session %d: %w" (itoa id ∷ []) e) s
after_session fault id agent stamp (done n work) (some e) s =
    rolled_back (wrapped "reading session attach rows affected for %d: %w" (itoa id ∷ []) e) s
after_session fault id agent stamp (done n work) none s =
    if nat_eq n 0
    then left_open (message "recording attach for session %d: session not found" (itoa id ∷ []))
        work s
    else after_agent fault id agent (in_tx (fault agent_update) (touch_agent agent stamp work))
        (fault agent_rows) s

begun :
    Env → (Point → Option Err) → ℤ → String → Time → Option Err → Store → Reply (Unit {0}) × Store
unfolding in_tx after_session
begun env fault id agent attached_at (some e) s =
    (fails (wrapped "recording attach: starting transaction: %w" [] e), s)
begun env fault id agent attached_at none s =
    let stamp = format_timestamp env.stamp attached_at in
    after_session fault id agent stamp (in_tx (fault session_update) (touch_session id stamp s.db))
      (fault session_rows) s

attach : Env → (Point → Option Err) → ℤ → String → Time → Store → Reply (Unit {0}) × Store
unfolding with_connection begun
attach env fault id agent attached_at =
    with_connection (begun env fault id agent attached_at (fault begin))

pub record_attach :
    Env → (Point → Option Err) → ℤ → String → Time → Option Store → Reply (Unit {0}) × Option Store
unfolding on_open attach
record_attach env fault id agent attached_at =
    on_open "recording attach: store is closed" (attach env fault id agent attached_at)
