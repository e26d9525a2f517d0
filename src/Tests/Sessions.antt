-- ===== src/Tests/Sessions.antt =====
-- The theorems of the session store at concrete data.
use kagen.Prelude.{true, ◌==◌, ◌&&◌, ◌≡◌, ◌<◌, refl, Option, none, some, [], ◌∷◌, arith}
use kagen.Prelude.Lists.{All}
use kagen.Prelude.Int.{pos}
use kagen.Prelude.Maps.{is_some}
use kagen.Prelude.Sort.{str_ltb}
use kagen.Errors.Exec.{ok}
use kagen.Session.{Summary, CreateKagenSessionParams, CreateAgentSessionParams}
use kagen.Session.Timestamps.{format_timestamp, format_timestamp_misordered}
use kagen.Session.Paths.{normalise_repo_path}
use kagen.Session.Tables.{KagenRow}
use kagen.Session.Tables.Laws.{IsSound}
use kagen.Session.Tables.Updates.{any}
use kagen.Session.Store.{replies, waits, is_ok}
use kagen.Session.Create.{create_kagen_session, create_agent_session}
use kagen.Session.Create.Laws.{
  IsSoundStore, create_kagen_session-IsSound, create_agent_session-IsSound,
}
use kagen.Session.Update.{update_kagen_session_status}
use kagen.Session.Update.Laws.{update_kagen_session_status_lem}
use kagen.Session.Attach.{record_attach}
use kagen.Session.Attach.Laws.{
  attached, db_of, record_attach_atomic, update_kagen_session_status-record_attach,
}
use kagen.Session.Queries.{
  find_most_recent_ready, found_ready, list_summaries, closed_rows, ready_rows, most_recent,
  limit_one, rows_where,
}
use kagen.Session.Rows.{
  left_join, with_agents, agents_of, scan_summaries, scan_rows, scan_row, place, scan_summary_row,
  scan_session, scan_agent, parsed, collect_agent_types,
}
use kagen.Session.Rows.Order.{order_by, insert_by, session_before, summary_before}
use kagen.Prelude.Maps.{lookup, insert}
use kagen.Prelude.Paths.{clean}
use kagen.Session.Queries.Laws.{IsMostRecent}
use kagen.Session.Queries.Ready.{
  Describes, find_most_recent_ready-IsMostRecent, find_most_recent_ready_total,
}
use kagen.Session.Rows.Laws.{IsWorking, ParsesSession, ParsesAgent}
use kagen.Tests.Data.{env, files, driver, db, store, row}

store-IsSound : IsSound db
store-IsSound = record {
  uids_single = (refl, (refl, tt));
  ids_ascend = ground arith;
  agents_single = (refl, tt);
  no_orphan = (refl, tt);
}

normalised : normalise_repo_path files "/repo" ≡ ok "/repo"
unfolding normalise_repo_path clean
normalised = refl

working : IsWorking driver
working = ((λ r. refl), refl, refl, refl)

sessions_parse : All (ParsesSession driver) db.sessions
sessions_parse = (((7, refl), (7, refl)), (((7, refl), (8, refl)), tt))

agents_parse : All (ParsesAgent driver) db.agents
agents_parse = (((7, refl), (7, refl)), tt)

-- RecordAttach of the first session.
record_attach_atomic_example :
    (is_ok (record_attach env (λ _. none) (pos 1) "a1" 3000000000 (some store)).0 ≡ true)
    × (db_of db (record_attach env (λ _. none) (pos 1) "a1" 3000000000 (some store)).1
        ≡ attached (pos 1) "a1" (format_timestamp env.stamp 3000000000) db)
record_attach_atomic_example =
    record_attach_atomic env (λ _. none) (pos 1) "a1" 3000000000 store refl

-- There is no session 3.
update_kagen_session_status-record_attach_example :
    (update_kagen_session_status none none
      (pos 1)
      "failed"
      (record_attach env (λ _. none) (pos 3) "a1" 0 (some store)).1).0
    ≡ waits
update_kagen_session_status-record_attach_example =
    update_kagen_session_status-record_attach env (pos 3) (pos 1) "a1" "failed" 0 store none none
      refl refl

abbrev new_session : CreateKagenSessionParams
new_session = record {
  uid = "";
  repo_id = "0a1b2c3d";
  repo_path = "/repo";
  base_branch = "main";
  workspace_branch = "kagen/main";
  head_sha_at_start = "abc";
  namespace = "kagen-0a1b2c3d";
  pod_name = "agent";
  status = "starting";
  created_at = 0;
  last_used_at = 0;
}

create_kagen_session-IsSound_example :
    IsSoundStore (create_kagen_session env none none new_session (some store)).1
create_kagen_session-IsSound_example =
    create_kagen_session-IsSound env none none new_session (some store) store-IsSound

abbrev new_agent : CreateAgentSessionParams
new_agent = record {
  id = "a2";
  kagen_session_uid = "u2";
  agent_type = "claude";
  name = "";
  working_mode = "shared_workspace";
  branch = "";
  state_path = "/home/kagen/.claude/a2";
  created_at = 0;
  last_used_at = 0;
}

create_agent_session-IsSound_example :
    IsSoundStore (create_agent_session env none new_agent (some store)).1
create_agent_session-IsSound_example =
    create_agent_session-IsSound env none new_agent (some store) store-IsSound

abbrev failed_row : KagenRow
failed_row = record (row 1 "u1" "2026-01-01T00:00:00Z") { status = "failed" }

update_kagen_session_status_lem_example :
    (is_ok (update_kagen_session_status none none (pos 1) "failed" (some store)).0 ≡ true)
    × ((update_kagen_session_status none none (pos 1) "failed" (some store)).1
        ≡ some (record {
          db = record db { sessions = failed_row ∷ row 2 "u2" "2026-01-02T00:00:00Z" ∷ [] };
          open_tx = none;
        }))
update_kagen_session_status_lem_example =
    update_kagen_session_status_lem none none (pos 1) "failed" store refl

abbrev most_recent_summary : Summary
most_recent_summary = record {
  session = record {
    id = 2;
    uid = "u2";
    repo_id = "0a1b2c3d";
    repo_path = "/repo";
    base_branch = "main";
    workspace_branch = "kagen/main";
    head_sha_at_start = "abc";
    namespace = "kagen-0a1b2c3d";
    pod_name = "agent";
    status = "ready";
    created_at = 7;
    last_used_at = 8;
  };
  agent_sessions = [];
  agent_types = [];
}

found :
    find_most_recent_ready driver files "/repo" (some store)
    ≡ replies (ok (some most_recent_summary))
unfolding find_most_recent_ready found_ready list_summaries closed_rows ready_rows most_recent
    limit_one rows_where order_by insert_by session_before left_join with_agents agents_of
    scan_summaries scan_rows scan_row place lookup insert scan_summary_row scan_session scan_agent
    parsed summary_before collect_agent_types normalise_repo_path clean str_ltb
found = refl

find_most_recent_ready-IsMostRecent_example :
    (r : KagenRow) × (IsMostRecent "/repo" db r × Describes most_recent_summary r)
find_most_recent_ready-IsMostRecent_example =
    find_most_recent_ready-IsMostRecent driver files "/repo" "/repo" store most_recent_summary
      normalised refl found

find_most_recent_ready_total_example :
    (found : Option Summary) × ((find_most_recent_ready driver files "/repo" (some store)
        ≡ replies (ok found))
      × (is_some found ≡ any (λ r. (r.repo_path == "/repo") && (r.status == "ready")) db.sessions))
find_most_recent_ready_total_example =
    find_most_recent_ready_total driver files "/repo" "/repo" store working sessions_parse
      agents_parse normalised refl

format_timestamp_misordered_example :
    (5000000000 < 5120000000)
    × (str_ltb (format_timestamp env.stamp 5120000000) (format_timestamp env.stamp 5000000000)
        ≡ true)
format_timestamp_misordered_example =
    format_timestamp_misordered env.stamp 5 120000000 (omega arith) (omega arith)
