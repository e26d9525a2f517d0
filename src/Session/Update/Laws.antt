-- ===== src/Session/Update/Laws.antt =====
-- Laws of UpdateKagenSessionStatus, internal/session/writes.go.
use kagen.Prelude.{String, ◌≡◌, ◌&&◌, Option, none, some, arith, if◌then◌else◌}
use kagen.Prelude.Int.{ℤ}
use kagen.Errors.{Err}
use kagen.Session.Tables.{update_sessions}
use kagen.Session.Tables.Updates.{any, set_where, is_none, update_where-rows, update_where-count}
use kagen.Session.Store.{Store, is_ok, run_statement, with_connection}
use kagen.Session.Update.{
  id_is, set_status, status_reply, update_status, update_kagen_session_status,
}

-- UpdateKagenSessionStatus on a store whose connection is free succeeds exactly when the database has no
-- error and the session is there. Unless the statement itself fails, the session then has the status;
-- nothing else changes, and the connection stays free.
pub update_kagen_session_status_lem :
    (fault rows : Option Err) (id : ℤ) (status : String) (s : Store)
    → s.open_tx ≡ none
    → (is_ok (update_kagen_session_status fault rows id status (some s)).0
        ≡ (is_none fault && is_none rows && any (λ r. id_is id r.id) s.db.sessions))
      × ((update_kagen_session_status fault rows id status (some s)).1
          ≡ some (record {
            db =
                if is_none fault
                then record s.db {
                  sessions =
                      set_where
                        (λ r. id_is id r.id)
                        (λ r. record r { status = status })
                        s.db.sessions;
                }
                else s.db;
            open_tx = none;
          }))
unfolding update_kagen_session_status update_status status_reply set_status update_sessions
    run_statement with_connection
update_kagen_session_status_lem fault rows id status s free = ground (
  arith,
  update_where-count (λ r. id_is id r.id) (λ r. record r { status = status }) s.db.sessions,
  update_where-rows (λ r. id_is id r.id) (λ r. record r { status = status }) s.db.sessions,
)
