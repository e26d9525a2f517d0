-- ===== src/Session/Queries/Ready.antt =====
-- What FindMostRecentReady, internal/session/queries.go, returns.
use kagen.Prelude.{
  ◌≡◌, ◌∙◌, ◌==◌, ◌&&◌, refl, String, Bool, true, false, Option, none, some, List, [], ◌∷◌, ◌++◌,
  arith,
}
use kagen.Prelude.Lists.{All}
use kagen.Prelude.Maps.{is_some}
use kagen.Errors.Exec.{Result, ok, err}
use kagen.Session.{Summary, KagenSession}
use kagen.Session.Paths.{FileSystem, normalise_repo_path}
use kagen.Session.Tables.{Db, KagenRow, AgentRow}
use kagen.Session.Rows.{Driver, JoinRow, scan_summaries, scan_rows}
use kagen.Session.Rows.Laws.{
  IsWorking, ParsesSession, ParsesAgent, ParsesRow, scan_rows_total, first_session,
  first_session-scan_summaries, scan_summary_row-columns,
}
use kagen.Session.Store.{Store, replies}
use kagen.Session.Rows.{left_join, with_agents, agents_of}
use kagen.Session.Rows.Order.{order_by, insert_by, summary_before, session_before}
use kagen.Session.Tables.Updates.{any}
use kagen.Session.Queries.{
  limit_one, rows_where, most_recent, is_ready, closed_rows, ready_rows, list_summaries,
  find_most_recent_ready, found_ready, first_of, first_result,
}
use kagen.Session.Queries.Laws.{IsMostRecent, ready_rows-IsMostRecent}
use kagen.Session.Queries.Times.{ready_rows-ParsesRow}

first_of-first_session :
    (ss : List Summary) (s : Summary) → first_of ss ≡ some s → first_session ss ≡ some s.session
first_of-first_session [] s h = ground arith
first_of-first_session (t ∷ ss) s h = ground arith

-- A list of summaries that is not empty is what the scan gave.
list_summaries-scan :
    (driver : Driver) (action : String) (rows : List JoinRow) (ss : List Summary) (s : Summary)
    → list_summaries driver action rows ≡ ok ss
    → first_of ss ≡ some s
    → scan_summaries driver rows ≡ ok ss
unfolding list_summaries closed_rows
list_summaries-scan driver action rows ss s h first = ground arith

first_result-list :
    (driver : Driver) (action : String) (rows : List JoinRow) (s : Summary)
    → first_result (list_summaries driver action rows) ≡ ok (some s)
    → (ss : List Summary) × ((scan_summaries driver rows ≡ ok ss) × (first_of ss ≡ some s))
first_result-list driver action rows s h = go (list_summaries driver action rows) refl h
  where
    go :
        (o : Result (List Summary))
        → list_summaries driver action rows ≡ o
        → first_result o ≡ ok (some s)
        → (ss : List Summary) × ((scan_summaries driver rows ≡ ok ss) × (first_of ss ≡ some s))
    go (err e) same h = absurd (ground arith)
    go (ok ss) same h =
        (ss, (list_summaries-scan driver action rows ss s same (ground arith), ground arith))

-- What a summary says of the session is what stands in the row.
abbrev pub Describes : Summary → KagenRow → Type 0
Describes s r =
    (s.session.id ≡ r.id)
    × ((s.session.uid ≡ r.uid)
        × ((s.session.status ≡ r.status) × (s.session.repo_path ≡ r.repo_path)))

-- The first summary of rows that all have the property describes a row that has it.
first_of-rows :
    (driver : Driver) (P : KagenRow → Type 0) (rows : List JoinRow) (ss : List Summary)
    (s : Summary)
    → All (λ row. P row.0) rows
    → scan_summaries driver rows ≡ ok ss
    → first_of ss ≡ some s
    → (r : KagenRow) × (P r × Describes s r)
unfolding scan_summaries scan_rows
first_of-rows driver P [] ss s h scan first = absurd (ground arith)
first_of-rows driver P ((r, agent) ∷ rows) ss s (h, hs) scan first =
    let (scanned, (same, top)) = first_session-scan_summaries driver (r, agent) rows ss scan in
    let same_session : s.session ≡ scanned.0 =
      ground (arith, top, first_of-first_session ss s first) in
    (r, (h, rw same_session (scan_summary_row-columns driver r agent scanned.0 scanned.1 same)))

-- Where FindMostRecentReady returns a summary, on a store whose connection is free and for a path that
-- is normalised to `path`, the summary describes a row of the table that has that path and the status "ready", and
-- of the rows that have both, none was used later, by the order of the texts of `last_used_at`, nor at the same time
-- with a higher id.
pub find_most_recent_ready-IsMostRecent :
    (driver : Driver) (files : FileSystem) (repo_path path : String) (s : Store) (summary : Summary)
    → normalise_repo_path files repo_path ≡ ok path
    → s.open_tx ≡ none
    → find_most_recent_ready driver files repo_path (some s) ≡ replies (ok (some summary))
    → (r : KagenRow) × (IsMostRecent path s.db r × Describes summary r)
unfolding find_most_recent_ready found_ready
find_most_recent_ready-IsMostRecent driver files repo_path path s summary path-is free h =
    let reply : first_result (list_summaries driver "finding ready session" (ready_rows path s.db))
        ≡ ok (some summary) =
      ground arith in
    let (ss, (scan, first)) =
      first_result-list driver "finding ready session" (ready_rows path s.db) summary reply in
    first_of-rows driver (IsMostRecent path s.db) (ready_rows path s.db) ss summary
      (ready_rows-IsMostRecent path s.db) scan first

abbrev is_some_row : {A : Type 0} → List A → Bool
is_some_row [] = false
is_some_row (row ∷ rows) = true

first_of-nonempty :
    (ss : List Summary) (k : KagenSession)
    → first_session ss ≡ some k
    → is_some (first_of ss) ≡ true
first_of-nonempty [] k h = ground arith
first_of-nonempty (s ∷ ss) k h = refl

list_summaries_total :
    (driver : Driver) (action : String) (rows : List JoinRow)
    → IsWorking driver
    → All (ParsesRow driver) rows
    → (ss : List Summary) × ((list_summaries driver action rows ≡ ok ss)
        × (scan_summaries driver rows ≡ ok ss))
unfolding list_summaries closed_rows scan_summaries
list_summaries_total driver action rows h parses =
    let (ss, same) = scan_rows_total driver rows ([], []) h parses in
    (ss, (rw (h.1, same, h.3, list_summaries, closed_rows, scan_summaries) refl, same))

is_some-first_of :
    (driver : Driver) (rows : List JoinRow) (ss : List Summary)
    → scan_summaries driver rows ≡ ok ss
    → driver.rows_error ≡ none
    → is_some (first_of ss) ≡ is_some_row rows
unfolding scan_summaries scan_rows
is_some-first_of driver [] ss scan h = ground arith
is_some-first_of driver (row ∷ rows) ss scan h =
    let (scanned, (same, top)) = first_session-scan_summaries driver row rows ss scan in
    first_of-nonempty ss scanned.0 top

is_some_row-order_by :
    {A : Type 0} (before : A → A → Bool) (xs : List A)
    → is_some_row (order_by before xs) ≡ is_some_row xs
unfolding order_by insert_by
is_some_row-order_by {A = A} before [] = refl
is_some_row-order_by {A = A} before (x ∷ xs) = go (order_by before xs)
  where
    go : (ys : List A) → is_some_row (insert_by before x ys) ≡ true
    go [] = refl
    go (y ∷ ys) = ground arith

is_some_row-left_join :
    (rs : List KagenRow) (agents : List AgentRow)
    → is_some_row (left_join rs agents) ≡ is_some_row rs
unfolding left_join with_agents
is_some_row-left_join [] agents = refl
is_some_row-left_join (r ∷ rs) agents = go (agents_of r.uid agents)
  where
    go : (as' : List AgentRow) → is_some_row (with_agents r as' ++ left_join rs agents) ≡ true
    go [] = refl
    go (a ∷ as') = refl

is_some_row-limit_one : (rs : List KagenRow) → is_some_row (limit_one rs) ≡ is_some_row rs
unfolding limit_one
is_some_row-limit_one [] = refl
is_some_row-limit_one (r ∷ rs) = refl

is_some_row-rows_where :
    (test : KagenRow → Bool) (rs : List KagenRow) → is_some_row (rows_where test rs) ≡ any test rs
unfolding rows_where
is_some_row-rows_where test [] = refl
is_some_row-rows_where test (r ∷ rs) = ground (arith, is_some_row-rows_where test rs)

is_some_row-ready_rows :
    (path : String) (db : Db) → is_some_row (ready_rows path db) ≡ any (is_ready path) db.sessions
unfolding ready_rows most_recent
is_some_row-ready_rows path db =
    is_some_row-order_by summary_before (left_join (most_recent path db) db.agents)
    ∙ (is_some_row-left_join (most_recent path db) db.agents
        ∙ (is_some_row-limit_one (order_by session_before (rows_where (is_ready path) db.sessions))
            ∙ (is_some_row-order_by session_before (rows_where (is_ready path) db.sessions)
                ∙ is_some_row-rows_where (is_ready path) db.sessions)))

-- With a driver without errors and where the times of both tables can be parsed, on a store whose connection is free
-- and for a path that is normalised to `path`, FindMostRecentReady returns without an error, and it finds a
-- session exactly where the table has one of that path whose status is "ready".
pub find_most_recent_ready_total :
    (driver : Driver) (files : FileSystem) (repo_path path : String) (s : Store)
    → IsWorking driver
    → All (ParsesSession driver) s.db.sessions
    → All (ParsesAgent driver) s.db.agents
    → normalise_repo_path files repo_path ≡ ok path
    → s.open_tx ≡ none
    → (found : Option Summary) × ((find_most_recent_ready driver files repo_path (some s)
          ≡ replies (ok found))
        × (is_some found ≡ any (λ r. (r.repo_path == path) && (r.status == "ready")) s.db.sessions))
unfolding find_most_recent_ready found_ready
find_most_recent_ready_total driver files repo_path path s h sessions agents path-is free =
    let (ss, (listed, scan)) =
      list_summaries_total driver "finding ready session" (ready_rows path s.db) h
        (ready_rows-ParsesRow driver path s.db sessions agents) in
    (
      first_of ss,
      (
        ground arith,
        is_some-first_of driver (ready_rows path s.db) ss scan h.2
            ∙ is_some_row-ready_rows path s.db,
      ),
    )
