-- ===== src/Session/Rows.antt =====
-- internal/session/scan.go and the parts of its queries that queries.go shares: the join of the two
-- tables, its order, and the summaries made from its rows. Package time's parser of a timestamp and what
-- the driver may answer are parameters.
pub mod Order
pub mod Laws
use kagen.Prelude.{
  ℕ, zero, suc, String, Bool, true, false, Option, none, some, List, [], ◌∷◌, ◌++◌, ◌==◌, ltb,
  nat_eq, if◌then◌else◌, map,
}
use kagen.Prelude.Int.{ℤ, pos}
use kagen.Prelude.Text.{to_lower, itoa}
use kagen.Prelude.Lists.{length}
use kagen.Prelude.Maps.{Map, lookup, insert}
use kagen.Prelude.Sort.{str_ltb}
use kagen.Errors.{Err, wrapped}
use kagen.Errors.Exec.{Result, ok, err}
use kagen.Session.{Time, KagenSession, AgentSession, Summary}
use kagen.Session.Tables.{KagenRow, AgentRow}

-- A row of the join; `none` is a session without agent sessions, whose columns are NULL.
abbrev pub JoinRow : Type 0
JoinRow = KagenRow × Option AgentRow

unfoldable pub agents_of : String → List AgentRow → List AgentRow
agents_of uid [] = []
agents_of uid (a ∷ as') =
    let rest = agents_of uid as' in if a.kagen_session_uid == uid then a ∷ rest else rest

unfoldable pub with_agents : KagenRow → List AgentRow → List JoinRow
with_agents r [] = (r, none) ∷ []
with_agents r (a ∷ as') = (r, some a) ∷ map (λ b. (r, some b)) as'

-- FROM kagen_sessions ks LEFT JOIN agent_sessions ag ON ag.kagen_session_uid = ks.uid
unfoldable pub left_join : List KagenRow → List AgentRow → List JoinRow
unfolding agents_of with_agents
left_join [] agents = []
left_join (r ∷ rs) agents = with_agents r (agents_of r.uid agents) ++ left_join rs agents

-- The driver: an error of the query, of the scan of a row, of the iteration and of the close; and
-- whether an error is `sql.ErrNoRows`. `parse_timestamp` is that of package time and `equal_fold` that of
-- package strings.
pub record Driver : Type 0 where
  pub parse_timestamp : String → Result Time
  pub query_error : Option Err
  pub scan_error : JoinRow → Option Err
  pub rows_error : Option Err
  pub close_error : Option Err
  pub is_no_rows : Err → Bool
  pub equal_fold : String → String → Bool

unfoldable pub parsed : {A : Type 0} → Driver → (Err → Err) → String → (Time → Result A) → Result A
parsed driver wrap text f = elim (driver.parse_timestamp text) [ ok t ↦ f t | err e ↦ err (wrap e) ]

or_null : Option String → String
or_null none = ""
or_null (some s) = s

unfoldable pub scan_agent :
    Driver → KagenSession → Option AgentRow → Result (KagenSession × Option AgentSession)
unfolding parsed or_null
scan_agent driver session none = ok (session, none)
scan_agent driver session (some a) =
    parsed driver (wrapped "parsing agent session created_at for %s: %w" (a.id ∷ [])) a.created_at
      λ created.
        parsed driver (wrapped "parsing agent session last_used_at for %s: %w" (a.id ∷ []))
          a.last_used_at
          λ last_used. ok (
            session,
            some (record {
              id = a.id;
              kagen_session_uid = a.kagen_session_uid;
              agent_type = a.agent_type;
              name = or_null a.name;
              working_mode = a.working_mode;
              branch = or_null a.branch;
              state_path = a.state_path;
              created_at = created;
              last_used_at = last_used;
            }),
          )

unfoldable pub scan_session : Driver → JoinRow → Result (KagenSession × Option AgentSession)
unfolding parsed scan_agent
scan_session driver (r, agent) =
    parsed driver (wrapped "parsing created_at for session %d: %w" (itoa (pos r.id) ∷ []))
      r.created_at
      λ created.
        parsed driver (wrapped "parsing last_used_at for session %d: %w" (itoa (pos r.id) ∷ []))
          r.last_used_at
          λ last_used.
            let session : KagenSession = record {
              id = r.id;
              uid = r.uid;
              repo_id = r.repo_id;
              repo_path = r.repo_path;
              base_branch = r.base_branch;
              workspace_branch = r.workspace_branch;
              head_sha_at_start = r.head_sha_at_start;
              namespace = r.namespace;
              pod_name = r.pod_name;
              status = r.status;
              created_at = created;
              last_used_at = last_used;
            } in
            scan_agent driver session agent

unfoldable pub scan_summary_row : Driver → JoinRow → Result (KagenSession × Option AgentSession)
unfolding scan_session
scan_summary_row driver row = elim (driver.scan_error row) [
  | none ↦ scan_session driver row
  | some e ↦ err (wrapped "scanning session summary row: %w" [] e)
]

skip_same : Driver → String → List AgentSession → List String
skip_same driver last [] = []
skip_same driver last (a ∷ as') =
    let same = skip_same driver last as' in
    let other = skip_same driver a.agent_type as' in
    if driver.equal_fold a.agent_type last then same else a.agent_type ∷ other

-- The agent types in order, without one that is the same as the one before but for case.
unfoldable pub collect_agent_types : Driver → List AgentSession → List String
unfolding skip_same
collect_agent_types driver agents = skip_same driver "" agents

abbrev pub add_agent : Option AgentSession → List Summary → ℕ → List Summary
add_agent none ss i = ss
add_agent (some a) [] i = []
add_agent (some a) (s ∷ ss) zero = record s { agent_sessions = s.agent_sessions ++ a ∷ [] } ∷ ss
add_agent (some a) (s ∷ ss) (suc i) = s ∷ add_agent (some a) ss i

unfoldable pub place :
    KagenSession → Option AgentSession → List Summary → Map ℕ → Option ℕ → List Summary × Map ℕ
place session agent ss index_by_uid (some i) = (add_agent agent ss i, index_by_uid)
place session agent ss index_by_uid none =
    let made = ss ++ record { session = session; agent_sessions = []; agent_types = [] } ∷ [] in
    (add_agent agent made (length ss), insert session.uid (length ss) index_by_uid)

-- One row: the summary of its session, made where there is none yet, is given its agent session.
unfoldable pub scan_row :
    KagenSession × Option AgentSession → List Summary × Map ℕ → List Summary × Map ℕ
unfolding place
scan_row (session, agent) (ss, index_by_uid) =
    place session agent ss index_by_uid (lookup session.uid index_by_uid)

abbrev pub with_agent_types : Driver → Summary → Summary
with_agent_types driver s = record s { agent_types = collect_agent_types driver s.agent_sessions }

unfoldable pub scan_rows : Driver → List JoinRow → List Summary × Map ℕ → Result (List Summary)
unfolding scan_row scan_summary_row
scan_rows driver [] (ss, index) = elim driver.rows_error [
  | none ↦ ok (map (with_agent_types driver) ss)
  | some e ↦ err (wrapped "iterating session rows: %w" [] e)
]
scan_rows driver (row ∷ rows) state = elim (scan_summary_row driver row) [
  | err e ↦ err e
  | ok scanned ↦ scan_rows driver rows (scan_row scanned state)
]

unfoldable pub scan_summaries : Driver → List JoinRow → Result (List Summary)
unfolding scan_rows
scan_summaries driver rows = scan_rows driver rows ([], [])
