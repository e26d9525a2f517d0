-- ===== src/Session/Queries/Times.antt =====
-- The times in the rows of FindMostRecentReady's query, internal/session/queries.go.
use kagen.Prelude.{◌≡◌, inl, inr, String, true, some, List, [], ◌∷◌, ◌==◌, map, Bool-cases}
use kagen.Prelude.Lists.{All, All-append}
use kagen.Session.Tables.{Db, KagenRow, AgentRow}
use kagen.Session.Rows.Laws.{ParsesSession, ParsesAgent, ParsesRow}
use kagen.Session.Rows.{Driver, left_join, agents_of, with_agents}
use kagen.Session.Rows.Order.{session_before, summary_before, order_by}
use kagen.Session.Queries.{rows_where, is_ready, most_recent, ready_rows}
use kagen.Session.Queries.Laws.{limit_one-All, order_by-All, All-map, rows_where-All}

agents_of-All :
    (Q : AgentRow → Type 0) (uid : String) (agents : List AgentRow)
    → All Q agents
    → All Q (agents_of uid agents)
unfolding agents_of
agents_of-All Q uid [] h = tt
agents_of-All Q uid (a ∷ as') (h, hs) = elim (Bool-cases (a.kagen_session_uid == uid)) [
  | inl e ↦ rw e (h, agents_of-All Q uid as' hs)
  | inr e ↦ rw e (agents_of-All Q uid as' hs)
]

module _ (driver : Driver) (r : KagenRow) (h : ParsesSession driver r) where
  map-ParsesRow :
      (as' : List AgentRow)
      → All (ParsesAgent driver) as'
      → All (ParsesRow driver) (map (λ a. (r, some a)) as')
  map-ParsesRow [] hs = tt
  map-ParsesRow (a ∷ as') (k, ks) = ((h, k), map-ParsesRow as' ks)

  with_agents-ParsesRow :
      (as' : List AgentRow)
      → All (ParsesAgent driver) as'
      → All (ParsesRow driver) (with_agents r as')
  unfolding with_agents
  with_agents-ParsesRow [] hs = ((h, tt), tt)
  with_agents-ParsesRow (a ∷ as') (k, ks) = ((h, k), map-ParsesRow as' ks)

left_join-ParsesRow :
    (driver : Driver) (rs : List KagenRow) (agents : List AgentRow)
    → All (ParsesSession driver) rs
    → All (ParsesAgent driver) agents
    → All (ParsesRow driver) (left_join rs agents)
unfolding left_join
left_join-ParsesRow driver [] agents h k = tt
left_join-ParsesRow driver (r ∷ rs) agents (h, hs) k =
    All-append (ParsesRow driver) (with_agents r (agents_of r.uid agents)) (left_join rs agents)
      (with_agents-ParsesRow driver r h (agents_of r.uid agents)
        (agents_of-All (ParsesAgent driver) r.uid agents k))
      (left_join-ParsesRow driver rs agents hs k)

-- The times of the rows of the query are those of the tables.
pub ready_rows-ParsesRow :
    (driver : Driver) (path : String) (db : Db)
    → All (ParsesSession driver) db.sessions
    → All (ParsesAgent driver) db.agents
    → All (ParsesRow driver) (ready_rows path db)
unfolding ready_rows most_recent
ready_rows-ParsesRow driver path db h k =
    let chosen = rows_where (is_ready path) db.sessions in
    order_by-All summary_before (ParsesRow driver) (left_join (most_recent path db) db.agents) (
      left_join-ParsesRow driver (most_recent path db) db.agents
        (limit_one-All (ParsesSession driver) (order_by session_before chosen) (
          order_by-All session_before (ParsesSession driver) chosen (
            All-map (λ r. ParsesSession driver r × (is_ready path r ≡ true)) (ParsesSession driver)
              chosen (λ r both. both.0)
              (rows_where-All (ParsesSession driver) (is_ready path) db.sessions h))))
        k)
