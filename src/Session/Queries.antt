-- ===== src/Session/Queries.antt =====
-- internal/session/queries.go: List, GetSummary and FindMostRecentReady. A query waits for the connection
-- as a write does, and changes nothing.
pub mod Laws
pub mod Times
pub mod Ready
use kagen.Prelude.{
  ℕ, String, Bool, true, false, ◌&&◌, Option, none, some, List, [], ◌∷◌, ◌==◌, if◌then◌else◌,
}
use kagen.Prelude.Int.{ℤ}
use kagen.Prelude.Text.{itoa, ◌+s◌}
use kagen.Errors.{Err, message, wrapped}
use kagen.Errors.Exec.{Result, ok, err, map_err}
use kagen.Session.{Summary, ListOptions}
use kagen.Session.Paths.{FileSystem, normalise_repo_path}
use kagen.Session.Tables.{Db, KagenRow}
use kagen.Session.Rows.{Driver, JoinRow, left_join, scan_summaries}
use kagen.Session.Rows.Order.{session_before, summary_before, order_by}
use kagen.Session.Store.{Store, Reply, replies, waits, fails}
use kagen.Session.Update.{id_is}

abbrev pub no_rows : Driver → String → Err → Result (List Summary)
no_rows driver action e =
    if driver.is_no_rows e then ok [] else err (wrapped "%s: %w" (action ∷ []) e)

unfoldable pub closed_rows : Driver → String → Result (List Summary) → Result (List Summary)
closed_rows driver action (err e) = err e
closed_rows driver action (ok ss) = elim driver.close_error [
  | none ↦ ok ss
  | some e ↦ err (wrapped "%s: closing query rows: %w" (action ∷ []) e)
]

-- The rows of the query, scanned; the error of the close is returned only where there is no other.
unfoldable pub list_summaries : Driver → String → List JoinRow → Result (List Summary)
unfolding closed_rows
list_summaries driver action rows = elim driver.query_error [
  | some e ↦ err (wrapped "%s: %w" (action ∷ []) e)
  | none ↦
      closed_rows driver action
        (elim (scan_summaries driver rows) [ ok ss ↦ ok ss | err e ↦ no_rows driver action e ])
]

unfoldable pub rows_where : (KagenRow → Bool) → List KagenRow → List KagenRow
rows_where test [] = []
rows_where test (r ∷ rs) = let rest = rows_where test rs in if test r then r ∷ rest else rest

-- SELECT … LEFT JOIN … WHERE … ORDER BY …
unfoldable pub selected : (KagenRow → Bool) → Db → List JoinRow
selected test db = order_by summary_before (left_join (rows_where test db.sessions) db.agents)

abbrev pub reading : {A : Type 0} → String → (Db → Result A) → Option Store → Reply A
reading closed f none = fails (message closed [])
reading closed f (some s) = elim s.open_tx [ none ↦ replies (f s.db) | some work ↦ waits ]

matches_options : FileSystem → ListOptions → Result (KagenRow → Bool)
matches_options files opts =
    if opts.repo_path == ""
    then ok (λ r. true)
    else elim (normalise_repo_path files opts.repo_path) [
      | ok path ↦ ok (λ r. r.repo_path == path)
      | err e ↦ err (wrapped "normalising repository path: %w" [] e)
    ]

listed : Driver → FileSystem → ListOptions → Db → Result (List Summary)
unfolding matches_options
listed driver files opts db = elim (matches_options files opts) [
  | ok test ↦ list_summaries driver "listing sessions" (selected test db)
  | err e ↦ err e
]

-- `List`
unfoldable pub list_sessions :
    Driver → FileSystem → ListOptions → Option Store → Reply (List Summary)
unfolding listed
list_sessions driver files opts =
    reading "listing sessions: store is closed" (listed driver files opts)

abbrev pub first_of : List Summary → Option Summary
first_of [] = none
first_of (s ∷ ss) = some s

abbrev first_result : Result (List Summary) → Result (Option Summary)
first_result (ok ss) = ok (first_of ss)
first_result (err e) = err e

unfoldable pub get_summary : Driver → ℤ → Option Store → Reply (Option Summary)
get_summary driver id = reading "getting session summary: store is closed" λ db. first_result (
    list_summaries driver ("getting session summary " +s itoa id)
      (selected (λ r. id_is id r.id) db))

-- WHERE repo_path = ? AND status = 'ready'
abbrev pub is_ready : String → KagenRow → Bool
is_ready path r = r.repo_path == path && r.status == "ready"

unfoldable pub limit_one : List KagenRow → List KagenRow
limit_one [] = []
limit_one (r ∷ rs) = r ∷ []

-- The subquery: ORDER BY last_used_at DESC, id DESC LIMIT 1
unfoldable pub most_recent : String → Db → List KagenRow
unfolding limit_one
most_recent path db = limit_one (order_by session_before (rows_where (is_ready path) db.sessions))

unfoldable pub ready_rows : String → Db → List JoinRow
ready_rows path db = order_by summary_before (left_join (most_recent path db) db.agents)

unfoldable pub found_ready : Driver → FileSystem → String → Db → Result (Option Summary)
found_ready driver files repo_path db = elim (normalise_repo_path files repo_path) [
  | ok path ↦ first_result (list_summaries driver "finding ready session" (ready_rows path db))
  | err e ↦ err (wrapped "normalising repository path: %w" [] e)
]

unfoldable pub find_most_recent_ready :
    Driver → FileSystem → String → Option Store → Reply (Option Summary)
unfolding found_ready
find_most_recent_ready driver files repo_path =
    reading "finding ready session: store is closed" (found_ready driver files repo_path)
