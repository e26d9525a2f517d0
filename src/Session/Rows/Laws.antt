-- ===== src/Session/Rows/Laws.antt =====
-- Laws of the scan of internal/session/scan.go: which session the first summary is of, and that rows
-- without errors give a summary.
use kagen.Prelude.{
  ℕ, zero, suc, ◌≡◌, ◌∙◌, refl, String, Option, none, some, List, [], ◌∷◌, ◌++◌, map, arith,
}
use kagen.Prelude.Lists.{length, All}
use kagen.Prelude.Maps.{Map, lookup}
use kagen.Errors.Exec.{Result, ok, err}
use kagen.Session.{Time, Summary, KagenSession, AgentSession}
use kagen.Session.Tables.{KagenRow, AgentRow}
use kagen.Session.Rows.{
  Driver, JoinRow, place, scan_row, scan_rows, scan_summaries, scan_summary_row, scan_session,
  scan_agent, parsed, with_agent_types, add_agent,
}

-- The session of the first summary.
abbrev pub first_session : List Summary → Option KagenSession
first_session [] = none
first_session (s ∷ ss) = some s.session

first_session-add_agent :
    (agent : Option AgentSession) (ss : List Summary) (i : ℕ)
    → first_session (add_agent agent ss i) ≡ first_session ss
first_session-add_agent none ss i = refl
first_session-add_agent (some a) [] i = refl
first_session-add_agent (some a) (s ∷ ss) zero = refl
first_session-add_agent (some a) (s ∷ ss) (suc i) = refl

first_session-append :
    (ss ts : List Summary) (k : KagenSession)
    → first_session ss ≡ some k
    → first_session (ss ++ ts) ≡ some k
first_session-append [] ts k h = ground arith
first_session-append (s ∷ ss) ts k h = h

first_session-place :
    (session : KagenSession) (agent : Option AgentSession) (ss : List Summary) (index : Map ℕ)
    (i : Option ℕ) (k : KagenSession)
    → first_session ss ≡ some k
    → first_session (place session agent ss index i).0 ≡ some k
unfolding place
first_session-place session agent ss index (some i) k h = first_session-add_agent agent ss i ∙ h
first_session-place session agent ss index none k h =
    first_session-add_agent agent (ss ++ _ ∷ []) (length ss) ∙ first_session-append ss _ k h

-- A row leaves the first summary at its session.
first_session-scan_row :
    (scanned : KagenSession × Option AgentSession) (state : List Summary × Map ℕ) (k : KagenSession)
    → first_session state.0 ≡ some k
    → first_session (scan_row scanned state).0 ≡ some k
unfolding scan_row
first_session-scan_row (session, agent) (ss, index) k h =
    first_session-place session agent ss index (lookup session.uid index) k h

first_session-with_agent_types :
    (driver : Driver) (ss : List Summary)
    → first_session (map (with_agent_types driver) ss) ≡ first_session ss
first_session-with_agent_types driver [] = refl
first_session-with_agent_types driver (s ∷ ss) = refl

first_session-scan_rows :
    (driver : Driver) (rows : List JoinRow) (state : List Summary × Map ℕ) (k : KagenSession)
    (res : List Summary)
    → first_session state.0 ≡ some k
    → scan_rows driver rows state ≡ ok res
    → first_session res ≡ some k
unfolding scan_rows
first_session-scan_rows driver [] (ss, index) k res h r =
    ground (arith, first_session-with_agent_types driver ss)
first_session-scan_rows driver (row ∷ rows) state k res h r =
    go (scan_summary_row driver row) r (λ scanned.
      first_session-scan_rows driver rows (scan_row scanned state) k res
        (first_session-scan_row scanned state k h))
  where
    go :
        (o : Result (KagenSession × Option AgentSession))
        → elim o [ err e ↦ err e | ok scanned ↦ scan_rows driver rows (scan_row scanned state) ]
          ≡ ok res
        → ((scanned : KagenSession × Option AgentSession)
            → scan_rows driver rows (scan_row scanned state) ≡ ok res
            → first_session res ≡ some k)
        → first_session res ≡ some k
    go (err e) r rest = ground arith
    go (ok scanned) r rest = rest scanned r

-- Rows that are not empty give summaries, and the first is of the session of the first row.
pub first_session-scan_summaries :
    (driver : Driver) (row : JoinRow) (rows : List JoinRow) (res : List Summary)
    → scan_summaries driver (row ∷ rows) ≡ ok res
    → (scanned : KagenSession × Option AgentSession) × ((scan_summary_row driver row ≡ ok scanned)
        × (first_session res ≡ some scanned.0))
unfolding scan_summaries scan_rows scan_row place lookup
first_session-scan_summaries driver row rows res r = go (scan_summary_row driver row) refl r
  where
    go :
        (o : Result (KagenSession × Option AgentSession))
        → scan_summary_row driver row ≡ o
        → elim o [ err e ↦ err e | ok scanned ↦ scan_rows driver rows (scan_row scanned ([], [])) ]
          ≡ ok res
        → (scanned : KagenSession × Option AgentSession) × ((scan_summary_row driver row
              ≡ ok scanned)
            × (first_session res ≡ some scanned.0))
    go (err e) same r = absurd (ground arith)
    go (ok scanned) same r = (
      scanned,
      (
        same,
        first_session-scan_rows driver rows (scan_row scanned ([], [])) scanned.0 res
            (first_row scanned) r,
      ),
    )
      where
        first_row :
            (x : KagenSession × Option AgentSession)
            → first_session (scan_row x ([], [])).0 ≡ some x.0
        first_row (session, none) = refl
        first_row (session, some a) = refl

-- What a scanned row has of its session is what stands in the row.
pub scan_summary_row-columns :
    (driver : Driver) (r : KagenRow) (agent : Option AgentRow) (k : KagenSession)
    (a : Option AgentSession)
    → scan_summary_row driver (r, agent) ≡ ok (k, a)
    → (k.id ≡ r.id) × ((k.uid ≡ r.uid) × ((k.status ≡ r.status) × (k.repo_path ≡ r.repo_path)))
unfolding scan_summary_row scan_session scan_agent parsed
scan_summary_row-columns driver r none k a h = ground arith
scan_summary_row-columns driver r (some b) k a h = ground arith

-- A driver whose answers have no error.
abbrev pub IsWorking : Driver → Type 0
IsWorking driver =
    ((row : JoinRow) → driver.scan_error row ≡ none)
    × (driver.query_error ≡ none)
    × (driver.rows_error ≡ none)
    × (driver.close_error ≡ none)

-- The text is a time.
abbrev pub Parses : Driver → String → Type 0
Parses driver text = (t : Time) × (driver.parse_timestamp text ≡ ok t)

abbrev pub ParsesSession : Driver → KagenRow → Type 0
ParsesSession driver r = Parses driver r.created_at × Parses driver r.last_used_at

abbrev pub ParsesAgent : Driver → AgentRow → Type 0
ParsesAgent driver a = Parses driver a.created_at × Parses driver a.last_used_at

abbrev pub ParsesOption : Driver → Option AgentRow → Type 0
ParsesOption driver none = Unit
ParsesOption driver (some a) = ParsesAgent driver a

abbrev pub ParsesRow : Driver → JoinRow → Type 0
ParsesRow driver row = ParsesSession driver row.0 × ParsesOption driver row.1

scan_agent_total :
    (driver : Driver) (k : KagenSession) (agent : Option AgentRow)
    → ParsesOption driver agent
    → (scanned : KagenSession × Option AgentSession) × (scan_agent driver k agent ≡ ok scanned)
unfolding scan_agent parsed
scan_agent_total driver k none h = (_, refl)
scan_agent_total driver k (some a) (created, used) =
    rw (created.1, used.1, scan_agent, parsed) (_, refl)

scan_summary_row_total :
    (driver : Driver) (row : JoinRow)
    → IsWorking driver
    → ParsesRow driver row
    → (scanned : KagenSession × Option AgentSession) × (scan_summary_row driver row ≡ ok scanned)
unfolding scan_summary_row scan_session parsed
scan_summary_row_total driver (r, agent) h ((created, used), agent_parses) =
    rw (h.0 (r, agent), created.1, used.1, scan_summary_row, scan_session, parsed)
      (scan_agent_total driver _ agent agent_parses)

-- A driver without errors lets every row be scanned whose times are times.
pub scan_rows_total :
    (driver : Driver) (rows : List JoinRow) (state : List Summary × Map ℕ)
    → IsWorking driver
    → All (ParsesRow driver) rows
    → (res : List Summary) × (scan_rows driver rows state ≡ ok res)
unfolding scan_rows
scan_rows_total driver [] (ss, index) h parses = rw (h.2, scan_rows) (_, refl)
scan_rows_total driver (row ∷ rows) state h (here, there) =
    let (scanned, same) = scan_summary_row_total driver row h here in
    rw (same, scan_rows) (scan_rows_total driver rows (scan_row scanned state) h there)
