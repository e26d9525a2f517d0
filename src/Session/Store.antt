-- ===== src/Session/Store.antt =====
-- internal/session/store.go and values.go: the store, and how a statement runs on it. The database has
-- one connection (`SetMaxOpenConns(1)`), so a transaction that is neither committed nor rolled back keeps
-- every later statement waiting: `waits`. An error of the database itself is given to the statement.
use kagen.Prelude.{ℕ, Bool, true, false, String, Option, none, some, List, [], ◌∷◌, if◌then◌else◌}
use kagen.Prelude.Text.{to_lower, contains_text}
use kagen.Errors.{Err, message, wrapped, error_text}
use kagen.Errors.Exec.{Result, ok, err}
use kagen.Session.{Time}
use kagen.Session.Paths.{FileSystem}
use kagen.Session.Tables.{Db, Statement, done, failed}

-- `open_tx` holds the tables of a transaction that was left open.
pub record Store : Type 0 where
  pub db : Db
  pub open_tx : Option Db

pub data Reply (A : Type 0) : Type 0 where
  replies : Result A → Reply A
  waits : Reply A

abbrev pub fails : {A : Type 0} → Err → Reply A
fails e = replies (err e)

-- What the store is opened with, and what each call takes from outside: the layout of times to the
-- second, `fmt.Sprintf`, the file system, the clock and a new UUID.
pub record Env : Type 0 where
  pub stamp : ℕ → String
  pub sprintf : String → List String → String
  pub files : FileSystem
  pub now : Time
  pub new_uuid : String

unfoldable pub wrap_write_error : Env → String → Err → Err
wrap_write_error env prefix e =
    let text = to_lower (error_text env.sprintf e) in
    if contains_text text "unique constraint failed"
    then wrapped "%s: record already exists: %w" (prefix ∷ []) e
    else if contains_text text "foreign key constraint failed"
    then wrapped "%s: referenced kagen session does not exist: %w" (prefix ∷ []) e
    else wrapped "%s: %w" (prefix ∷ []) e

-- A nil store, or one with no database, is `none`.
unfoldable pub on_open :
    {A : Type 0} → String → (Store → Reply A × Store) → Option Store → Reply A × Option Store
on_open closed f none = (fails (message closed []), none)
on_open closed f (some s) = let (r, s') = f s in (r, some s')

-- A statement outside a transaction, with the error of the database if it has one.
unfoldable pub run_statement : {A : Type 0} → Option Err → Statement A → Store → Result A × Store
run_statement none (done a after) s = (ok a, record s { db = after })
run_statement none (failed e) s = (err e, s)
run_statement (some e) _ s = (err e, s)

-- Waiting for the connection.
unfoldable pub with_connection : {A : Type 0} → (Store → Reply A × Store) → Store → Reply A × Store
with_connection f s = elim s.open_tx [ none ↦ f s | some work ↦ (waits, s) ]

-- Whether a call has come back without an error.
abbrev pub is_ok : {A : Type 0} → Reply A → Bool
is_ok (replies (ok a)) = true
is_ok (replies (err e)) = false
is_ok waits = false
