-- ===== src/Session/Tables/Laws.antt =====
-- What every statement keeps of the tables of internal/session.
use kagen.Prelude.{
  ℕ, suc, ◌≤◌, String, Bool, true, false, ◌≡◌, refl, ap, List, [], ◌∷◌, ◌++◌, arith, eq_iff,
}
use kagen.Prelude.Lists.{All, All-append, contains, contains-append}
use kagen.Prelude.Sort.{HasDistinct}
use kagen.Session.Tables.{
  KagenRow, AgentRow, Db, uids, ids, agent_ids, done, insert_session, insert_agent, update_where,
  update_sessions, update_agents,
}

-- Every agent session refers to one of the kagen sessions.
abbrev pub Refers : List String → List AgentRow → Type 0
Refers known rows = All (λ a. contains a.kagen_session_uid known ≡ true) rows

-- The ids ascend and none is above the last one.
abbrev pub Ascend : List ℕ → ℕ → Type 0
Ascend [] top = Unit
Ascend (n ∷ ns) top = All (λ m. suc n ≤ m) ns × (n ≤ top) × Ascend ns top

-- The keys of both tables are single, the ids ascend, and no agent session is an orphan.
pub record IsSound (db : Db) : Type 0 where
  pub uids_single : HasDistinct (uids db.sessions)
  pub ids_ascend : Ascend (ids db.sessions) db.last_id
  pub agents_single : HasDistinct (agent_ids db.agents)
  pub no_orphan : Refers (uids db.sessions) db.agents

uids-append : (xs ys : List KagenRow) → uids (xs ++ ys) ≡ uids xs ++ uids ys
uids-append [] ys = refl
uids-append (x ∷ xs) ys = ap (λ t. x.uid ∷ t) (uids-append xs ys)

ids-append : (xs ys : List KagenRow) → ids (xs ++ ys) ≡ ids xs ++ ids ys
ids-append [] ys = refl
ids-append (x ∷ xs) ys = ap (λ t. x.id ∷ t) (ids-append xs ys)

agent_ids-append : (xs ys : List AgentRow) → agent_ids (xs ++ ys) ≡ agent_ids xs ++ agent_ids ys
agent_ids-append [] ys = refl
agent_ids-append (x ∷ xs) ys = ap (λ t. x.id ∷ t) (agent_ids-append xs ys)

HasDistinct-snoc :
    (xs : List String) (a : String)
    → HasDistinct xs
    → contains a xs ≡ false
    → HasDistinct (xs ++ a ∷ [])
HasDistinct-snoc [] a h k = (refl, tt)
HasDistinct-snoc (x ∷ xs) a (h, hs) k = (
  ground (arith, contains-append x xs (a ∷ []), eq_iff x a, eq_iff a x),
  HasDistinct-snoc xs a hs (ground arith),
)

All-le :
    (n : ℕ) (top : ℕ) (ns : List ℕ)
    → All (λ m. suc n ≤ m) ns
    → n ≤ top
    → All (λ m. suc n ≤ m) (ns ++ suc top ∷ [])
All-le n top [] h k = (omega arith, tt)
All-le n top (m ∷ ns) (h, hs) k = (h, All-le n top ns hs k)

Ascend-snoc : (ns : List ℕ) (top : ℕ) → Ascend ns top → Ascend (ns ++ suc top ∷ []) (suc top)
Ascend-snoc [] top h = (tt, omega arith, tt)
Ascend-snoc (n ∷ ns) top (h, k, hs) = (All-le n top ns h k, omega arith, Ascend-snoc ns top hs)

Refers-append :
    (known more : List String) (rows : List AgentRow)
    → Refers known rows
    → Refers (known ++ more) rows
Refers-append known more [] h = tt
Refers-append known more (a ∷ rows) (h, hs) = (
  ground (arith, contains-append a.kagen_session_uid known more),
  Refers-append known more rows hs,
)

insert_session_done :
    (row : KagenRow) (db after : Db) (id : ℕ)
    → insert_session row db ≡ done id after
    → (contains row.uid (uids db.sessions) ≡ false)
      × (id ≡ suc db.last_id)
      × (after ≡ record db {
        sessions = db.sessions ++ record row { id = suc db.last_id } ∷ [];
        last_id = suc db.last_id;
      })
unfolding insert_session
insert_session_done row db after id h = ground arith

-- INSERT INTO kagen_sessions keeps the tables sound.
pub insert_session-IsSound :
    (row : KagenRow) (db after : Db) (id : ℕ)
    → IsSound db
    → insert_session row db ≡ done id after
    → IsSound after
insert_session-IsSound row db after id s h =
    let (fresh, e, same) = insert_session_done row db after id h in
    rw same (record {
      uids_single =
          rw uids-append (HasDistinct-snoc (uids db.sessions) row.uid s.uids_single fresh);
      ids_ascend = rw ids-append (Ascend-snoc (ids db.sessions) db.last_id s.ids_ascend);
      agents_single = s.agents_single;
      no_orphan =
          rw uids-append (Refers-append (uids db.sessions) (row.uid ∷ []) db.agents s.no_orphan);
    })

insert_agent_done :
    (row : AgentRow) (db after : Db) (u : Unit)
    → insert_agent row db ≡ done u after
    → (contains row.id (agent_ids db.agents) ≡ false)
      × (contains row.kagen_session_uid (uids db.sessions) ≡ true)
      × (after ≡ record db { agents = db.agents ++ row ∷ [] })
unfolding insert_agent
insert_agent_done row db after u h = ground arith

-- INSERT INTO agent_sessions keeps the tables sound.
pub insert_agent-IsSound :
    (row : AgentRow) (db after : Db) (u : Unit)
    → IsSound db
    → insert_agent row db ≡ done u after
    → IsSound after
insert_agent-IsSound row db after u s h =
    let (fresh, known, same) = insert_agent_done row db after u h in
    rw same (record {
      uids_single = s.uids_single;
      ids_ascend = s.ids_ascend;
      agents_single =
          rw agent_ids-append (HasDistinct-snoc (agent_ids db.agents) row.id s.agents_single fresh);
      no_orphan =
          All-append (λ a. contains a.kagen_session_uid (uids db.sessions) ≡ true) db.agents
            (row ∷ []) s.no_orphan (known, tt);
    })

module _ (test : KagenRow → Bool) (change : KagenRow → KagenRow) where
  uids-update_where :
      ((r : KagenRow) → (change r).uid ≡ r.uid)
      → (rows : List KagenRow) → uids (update_where test change rows).0 ≡ uids rows
  unfolding update_where
  uids-update_where same [] = refl
  uids-update_where same (r ∷ rows) = ground (arith, same r, uids-update_where same rows)

  ids-update_where :
      ((r : KagenRow) → (change r).id ≡ r.id)
      → (rows : List KagenRow) → ids (update_where test change rows).0 ≡ ids rows
  unfolding update_where
  ids-update_where same [] = refl
  ids-update_where same (r ∷ rows) = ground (arith, same r, ids-update_where same rows)

  -- UPDATE kagen_sessions keeps the tables sound, if it sets neither the id nor the uid.
  pub update_sessions-IsSound :
      ((r : KagenRow) → (change r).uid ≡ r.uid)
      → ((r : KagenRow) → (change r).id ≡ r.id)
      → (db after : Db) (n : ℕ) → IsSound db
      → update_sessions test change db ≡ done n after
      → IsSound after
  unfolding update_sessions
  update_sessions-IsSound same_uid same_id db after n s h = rw (← after_eq) (record {
    uids_single = rw (uids-update_where same_uid db.sessions) s.uids_single;
    ids_ascend = rw (ids-update_where same_id db.sessions) s.ids_ascend;
    agents_single = s.agents_single;
    no_orphan = rw (uids-update_where same_uid db.sessions) s.no_orphan;
  })
    where
      after_eq : record db { sessions = (update_where test change db.sessions).0 } ≡ after
      after_eq = cc

module _ (test : AgentRow → Bool) (change : AgentRow → AgentRow) where
  agent_ids-update_where :
      ((r : AgentRow) → (change r).id ≡ r.id)
      → (rows : List AgentRow) → agent_ids (update_where test change rows).0 ≡ agent_ids rows
  unfolding update_where
  agent_ids-update_where same [] = refl
  agent_ids-update_where same (r ∷ rows) = ground (arith, same r, agent_ids-update_where same rows)

  Refers-update_where :
      ((r : AgentRow) → (change r).kagen_session_uid ≡ r.kagen_session_uid)
      → (known : List String) (rows : List AgentRow) → Refers known rows
      → Refers known (update_where test change rows).0
  unfolding update_where
  Refers-update_where same known [] h = tt
  Refers-update_where same known (r ∷ rows) (h, hs) =
      (ground (arith, same r), Refers-update_where same known rows hs)

  -- UPDATE agent_sessions keeps the tables sound, if it sets neither the id nor the kagen session.
  pub update_agents-IsSound :
      ((r : AgentRow) → (change r).id ≡ r.id)
      → ((r : AgentRow) → (change r).kagen_session_uid ≡ r.kagen_session_uid)
      → (db after : Db) (n : ℕ) → IsSound db
      → update_agents test change db ≡ done n after
      → IsSound after
  unfolding update_agents
  update_agents-IsSound same_id same_uid db after n s h = rw (← after_eq) (record {
    uids_single = s.uids_single;
    ids_ascend = s.ids_ascend;
    agents_single = rw (agent_ids-update_where same_id db.agents) s.agents_single;
    no_orphan = Refers-update_where same_uid (uids db.sessions) db.agents s.no_orphan;
  })
    where
      after_eq : record db { agents = (update_where test change db.agents).0 } ≡ after
      after_eq = cc
