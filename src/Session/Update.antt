-- ===== src/Session/Update.antt =====
-- internal/session/writes.go: UpdateKagenSessionStatus.
pub mod Laws
use kagen.Prelude.{
  ℕ, zero, suc, String, Bool, true, false, ◌||◌, ◌≡◌, Option, none, some, List, [], ◌∷◌, ◌==◌,
  nat_eq, if◌then◌else◌,
}
use kagen.Prelude.Int.{ℤ, pos, negsuc}
use kagen.Prelude.Text.{to_lower, contains_text, itoa}
use kagen.Errors.{Err, message, wrapped, error_text}
use kagen.Errors.Exec.{Result, ok, err}
use kagen.Session.{
  Time, KagenSession, AgentSession, CreateKagenSessionParams, CreateAgentSessionParams,
}
use kagen.Session.Timestamps.{format_timestamp, nullable_string}
use kagen.Session.Paths.{FileSystem, normalise_repo_path}
use kagen.Session.Tables.{
  KagenRow, AgentRow, Db, Statement, done, failed, insert_session, insert_agent, update_sessions,
  update_agents,
}
use kagen.Session.Store.{
  Store, Reply, replies, waits, fails, Env, wrap_write_error, on_open, run_statement,
  with_connection,
}

-- WHERE id = ?, at an id of the request.
abbrev pub id_is : ℤ → ℕ → Bool
id_is (pos n) id = nat_eq n id
id_is (negsuc n) id = false

unfoldable pub status_reply : ℤ → Option Err → Result ℕ × Store → Reply (Unit {0}) × Store
status_reply id rows_fault (err e, s) =
    (fails (wrapped "updating kagen session status for %d: %w" (itoa id ∷ []) e), s)
status_reply id (some e) (ok n, s) =
    (fails (wrapped "reading affected rows for session %d status update: %w" (itoa id ∷ []) e), s)
status_reply id none (ok n, s) =
    if nat_eq n 0
    then (
      fails (message "updating kagen session status for %d: session not found" (itoa id ∷ [])),
      s,
    )
    else (replies (ok tt), s)

-- UPDATE kagen_sessions SET status = ? WHERE id = ?
unfoldable pub set_status : ℤ → String → Db → Statement ℕ
set_status id status = update_sessions (λ r. id_is id r.id) (λ r. record r { status = status })

unfoldable pub update_status :
    Option Err → Option Err → ℤ → String → Store → Reply (Unit {0}) × Store
update_status fault rows_fault id status =
    with_connection
      (λ t. status_reply id rows_fault (run_statement fault (set_status id status t.db) t))

-- `rows_fault` is the error of `RowsAffected`.
unfoldable pub update_kagen_session_status :
    Option Err → Option Err → ℤ → String → Option Store → Reply (Unit {0}) × Option Store
unfolding on_open
update_kagen_session_status fault rows_fault id status =
    on_open "updating kagen session status: store is closed"
      (update_status fault rows_fault id status)
