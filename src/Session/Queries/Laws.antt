-- ===== src/Session/Queries/Laws.antt =====
-- Laws of FindMostRecentReady, internal/session/queries.go.
use kagen.Prelude.{
  ◌&&◌, ◌⊎◌, ◌≤◌, ◌==◌, eq_iff, ◌≡◌, refl, inl, inr, String, Bool, true, false, Option, none, some,
  List, [], ◌∷◌, map, arith, if◌then◌else◌, Bool-cases,
}
use mathlib.Core.List.{Memᴰ}
use kagen.Prelude.Lists.{All, All-append}
use kagen.Prelude.Sort.{str_ltb, str_ltb_irrefl, str_ltb_trans, str_ltb_total}
use kagen.Session.Tables.{Db, KagenRow, AgentRow}
use kagen.Session.Rows.{JoinRow, left_join, agents_of, with_agents}
use kagen.Session.Rows.Order.{session_before, summary_before, order_by, insert_by}
use kagen.Session.Queries.{rows_where, is_ready, most_recent, ready_rows, limit_one}

str_not_before_trans :
    (s t u : String) → str_ltb s t ≡ false → str_ltb t u ≡ false → str_ltb s u ≡ false
str_not_before_trans s t u h k = ground (
  arith,
  str_ltb_trans t s u,
  str_ltb_total s t,
  str_ltb_irrefl s,
  Bool-cases (str_ltb s u),
  Bool-cases (str_ltb t s),
)

-- What comes before no row that comes before none of a third's comes before none of it.
session_before_trans :
    (a b c : KagenRow)
    → session_before a b ≡ false
    → session_before b c ≡ false
    → session_before a c ≡ false
unfolding session_before
session_before_trans a b c h k = ground (
  arith,
  str_not_before_trans c.last_used_at b.last_used_at a.last_used_at,
  str_ltb_total a.last_used_at b.last_used_at,
  str_ltb_total b.last_used_at c.last_used_at,
  str_ltb_total a.last_used_at c.last_used_at,
  str_ltb_irrefl a.last_used_at,
  str_ltb_irrefl b.last_used_at,
  str_ltb_trans a.last_used_at b.last_used_at c.last_used_at,
  str_ltb_trans a.last_used_at c.last_used_at b.last_used_at,
  str_ltb_trans b.last_used_at a.last_used_at c.last_used_at,
  str_ltb_trans b.last_used_at c.last_used_at a.last_used_at,
  str_ltb_trans c.last_used_at a.last_used_at b.last_used_at,
  str_ltb_trans c.last_used_at b.last_used_at a.last_used_at,
)

session_before_irrefl : (a : KagenRow) → session_before a a ≡ false
unfolding session_before
session_before_irrefl a = ground (arith, str_ltb_irrefl a.last_used_at)

session_before_asym : (a b : KagenRow) → session_before a b ≡ true → session_before b a ≡ false
unfolding session_before
session_before_asym a b h = ground (
  arith,
  str_ltb_trans a.last_used_at b.last_used_at a.last_used_at,
  str_ltb_irrefl a.last_used_at,
)

-- The rows that come before none of the others stand first.
abbrev IsLatest : List KagenRow → List KagenRow → Type 0
IsLatest [] xs = Unit
IsLatest (top ∷ rest) xs = All (λ x. session_before x top ≡ false) xs

latest_of :
    (x y : KagenRow) (xs : List KagenRow)
    → session_before x y ≡ false
    → All (λ z. session_before z x ≡ false) xs
    → All (λ z. session_before z y ≡ false) xs
latest_of x y [] h k = tt
latest_of x y (z ∷ zs) h (k, ks) = (session_before_trans z x y k h, latest_of x y zs h ks)

insert_by-IsLatest :
    (x : KagenRow) (ys xs : List KagenRow)
    → IsLatest ys xs
    → (ys ≡ [] → xs ≡ [])
    → IsLatest (insert_by session_before x ys) (x ∷ xs)
unfolding insert_by
insert_by-IsLatest x [] xs h empty = rw (empty refl) (session_before_irrefl x, tt)
insert_by-IsLatest x (y ∷ ys) xs h empty = elim (Bool-cases (session_before y x)) [
  | inl e ↦ rw e (session_before_asym y x e, h)
  | inr e ↦ rw e (session_before_irrefl x, latest_of y x xs e h)
]

insert_by-nonempty : (x : KagenRow) (ys : List KagenRow) → insert_by session_before x ys ≡ [] → ⊥
unfolding insert_by
insert_by-nonempty x [] h = ground arith
insert_by-nonempty x (y ∷ ys) h = ground arith

order_by-empty : (xs : List KagenRow) → order_by session_before xs ≡ [] → xs ≡ []
unfolding order_by
order_by-empty [] h = refl
order_by-empty (x ∷ xs) h = absurd (insert_by-nonempty x (order_by session_before xs) h)

order_by-IsLatest : (xs : List KagenRow) → IsLatest (order_by session_before xs) xs
unfolding order_by
order_by-IsLatest [] = tt
order_by-IsLatest (x ∷ xs) =
    insert_by-IsLatest x (order_by session_before xs) xs (order_by-IsLatest xs) (order_by-empty xs)

module _ {A : Type 0} (before : A → A → Bool) (P : A → Type 0) where
  insert_by-All : (x : A) (xs : List A) → P x → All P xs → All P (insert_by before x xs)
  unfolding insert_by
  insert_by-All x [] h hs = (h, tt)
  insert_by-All x (y ∷ ys) h (k, ks) = elim (Bool-cases (before y x)) [
    | inl e ↦ rw e (k, insert_by-All x ys h ks)
    | inr e ↦ rw e (h, (k, ks))
  ]

  -- Ordering the rows keeps what holds of each.
  pub order_by-All : (xs : List A) → All P xs → All P (order_by before xs)
  unfolding order_by
  order_by-All [] h = tt
  order_by-All (x ∷ xs) (h, hs) = insert_by-All x (order_by before xs) h (order_by-All xs hs)

pub rows_where-All :
    (P : KagenRow → Type 0) (test : KagenRow → Bool) (xs : List KagenRow)
    → All P xs
    → All (λ r. P r × (test r ≡ true)) (rows_where test xs)
unfolding rows_where
rows_where-All P test [] h = tt
rows_where-All P test (x ∷ xs) (h, hs) = elim (Bool-cases (test x)) [
  | inl e ↦ rw e ((h, e), rows_where-All P test xs hs)
  | inr e ↦ rw e (rows_where-All P test xs hs)
]

-- None of the rows that pass the test has the other one.
abbrev NoneWhere : (KagenRow → Bool) → (KagenRow → Bool) → List KagenRow → Type 0
NoneWhere test bad xs = All (λ r. (test r && bad r) ≡ false) xs

NoneWhere-cons :
    (test bad : KagenRow → Bool) (x : KagenRow) (rest : List KagenRow) (b : Bool)
    → test x ≡ b
    → All (λ r. bad r ≡ false) (if b then x ∷ rest else rest)
    → ((test x && bad x) ≡ false) × All (λ r. bad r ≡ false) rest
NoneWhere-cons test bad x rest true same h = (rw same (h.0), h.1)
NoneWhere-cons test bad x rest false same h = (rw same, h)

rows_where-NoneWhere :
    (test bad : KagenRow → Bool) (xs : List KagenRow)
    → All (λ r. bad r ≡ false) (rows_where test xs)
    → NoneWhere test bad xs
unfolding rows_where
rows_where-NoneWhere test bad [] h = tt
rows_where-NoneWhere test bad (x ∷ xs) h =
    let (here, there) = NoneWhere-cons test bad x (rows_where test xs) (test x) refl h in
    (here, rows_where-NoneWhere test bad xs there)

module _ (P : JoinRow → Type 0) (r : KagenRow) (h : (a : Option AgentRow) → P (r, a)) where
  pair-All : (as' : List AgentRow) → All P (map (λ a. (r, some a)) as')
  pair-All [] = tt
  pair-All (a ∷ as') = (h (some a), pair-All as')

  with_agents-All : (as' : List AgentRow) → All P (with_agents r as')
  unfolding with_agents
  with_agents-All [] = (h none, tt)
  with_agents-All (a ∷ as') = (h (some a), pair-All as')

-- The rows of a join have what every row has whose session is joined.
pub left_join-All :
    (P : JoinRow → Type 0) (rs : List KagenRow) (agents : List AgentRow)
    → All (λ r. (a : Option AgentRow) → P (r, a)) rs
    → All P (left_join rs agents)
unfolding left_join
left_join-All P [] agents h = tt
left_join-All P (r ∷ rs) agents (h, hs) =
    All-append P (with_agents r (agents_of r.uid agents)) (left_join rs agents)
      (with_agents-All P r h (agents_of r.uid agents)) (left_join-All P rs agents hs)

-- The row is one of the table that passes the query's test, and none that does comes before it.
abbrev IsFirst : String → Db → KagenRow → Type 0
IsFirst path db r =
    (Memᴰ r db.sessions × (is_ready path r ≡ true))
    × NoneWhere (is_ready path) (λ z. session_before z r) db.sessions

-- The row z is not ready, or of another path, or its last use is not later than that of r; at the same
-- last use, its id is not above that of r.
abbrev pub IsSurpassedBy : String → KagenRow → KagenRow → Type 0
IsSurpassedBy path r z =
    ((z.status == "ready") ≡ false)
    ⊎ (((z.repo_path == path) ≡ false)
        ⊎ ((str_ltb z.last_used_at r.last_used_at ≡ true)
            ⊎ ((z.last_used_at ≡ r.last_used_at) × (z.id ≤ r.id))))

-- The session that FindMostRecentReady promises: of the table, of the repository and ready, and of those
-- the one that was used last.
abbrev pub IsMostRecent : String → Db → KagenRow → Type 0
IsMostRecent path db r =
    Memᴰ r db.sessions
    × (r.repo_path ≡ path)
    × (r.status ≡ "ready")
    × All (IsSurpassedBy path r) db.sessions

IsSurpassedBy-session_before :
    (path : String) (r z : KagenRow)
    → (is_ready path z && session_before z r) ≡ false
    → IsSurpassedBy path r z
unfolding session_before
IsSurpassedBy-session_before path r z h =
    ground (arith, str_ltb_total z.last_used_at r.last_used_at)

All-IsSurpassedBy :
    (path : String) (r : KagenRow) (zs : List KagenRow)
    → NoneWhere (is_ready path) (λ z. session_before z r) zs
    → All (IsSurpassedBy path r) zs
All-IsSurpassedBy path r [] h = tt
All-IsSurpassedBy path r (z ∷ zs) (h, hs) =
    (IsSurpassedBy-session_before path r z h, All-IsSurpassedBy path r zs hs)

IsFirst-IsMostRecent :
    (path : String) (db : Db) (r : KagenRow) → IsFirst path db r → IsMostRecent path db r
IsFirst-IsMostRecent path db r ((member, test), others) = (
  member,
  ground (arith, eq_iff r.repo_path path),
  ground (arith, eq_iff r.status "ready"),
  All-IsSurpassedBy path r db.sessions others,
)

pub limit_one-All : (P : KagenRow → Type 0) (rs : List KagenRow) → All P rs → All P (limit_one rs)
unfolding limit_one
limit_one-All P [] h = tt
limit_one-All P (r ∷ rs) (h, hs) = (h, tt)

limit_one-IsLatest :
    (rs xs : List KagenRow)
    → IsLatest rs xs
    → All (λ r. All (λ z. session_before z r ≡ false) xs) (limit_one rs)
unfolding limit_one
limit_one-IsLatest [] xs h = tt
limit_one-IsLatest (r ∷ rs) xs h = (h, tt)

pub All-map :
    {A : Type 0} (P Q : A → Type 0) (xs : List A) → ((x : A) → P x → Q x) → All P xs → All Q xs
All-map P Q [] f h = tt
All-map P Q (x ∷ xs) f (h, hs) = (f x h, All-map P Q xs f hs)

All-both :
    {A : Type 0} (P Q : A → Type 0) (xs : List A) → All P xs → All Q xs → All (λ x. P x × Q x) xs
All-both P Q [] h k = tt
All-both P Q (x ∷ xs) (h, hs) (k, ks) = ((h, k), All-both P Q xs hs ks)

All-self : (xs : List KagenRow) → All (λ r. Memᴰ r xs) xs
All-self [] = tt
All-self (x ∷ xs) = (
  Memᴰ.head refl,
  All-map (λ r. Memᴰ r xs) (λ r. Memᴰ r (x ∷ xs)) xs (λ r h. Memᴰ.tail h) (All-self xs),
)

most_recent-IsFirst : (path : String) (db : Db) → All (IsFirst path db) (most_recent path db)
unfolding most_recent
most_recent-IsFirst path db =
    All-both (λ r. Memᴰ r db.sessions × (is_ready path r ≡ true))
      (λ r. NoneWhere (is_ready path) (λ z. session_before z r) db.sessions) (limit_one sorted)
      (limit_one-All (λ r. Memᴰ r db.sessions × (is_ready path r ≡ true)) sorted
        (order_by-All session_before (λ r. Memᴰ r db.sessions × (is_ready path r ≡ true)) ready
          (rows_where-All (λ r. Memᴰ r db.sessions) (is_ready path) db.sessions
            (All-self db.sessions))))
      (All-map (λ r. All (λ z. session_before z r ≡ false) ready)
        (λ r. NoneWhere (is_ready path) (λ z. session_before z r) db.sessions) (limit_one sorted)
        (λ r h. rows_where-NoneWhere (is_ready path) (λ z. session_before z r) db.sessions h)
        (limit_one-IsLatest sorted ready (order_by-IsLatest ready)))
  where
    ready : List KagenRow
    ready = rows_where (is_ready path) db.sessions

    sorted : List KagenRow
    sorted = order_by session_before ready

most_recent-IsMostRecent :
    (path : String) (db : Db) → All (IsMostRecent path db) (most_recent path db)
most_recent-IsMostRecent path db =
    All-map (IsFirst path db) (IsMostRecent path db) (most_recent path db)
      (IsFirst-IsMostRecent path db) (most_recent-IsFirst path db)

pub ready_rows-IsMostRecent :
    (path : String) (db : Db) → All (λ row. IsMostRecent path db row.0) (ready_rows path db)
unfolding ready_rows
ready_rows-IsMostRecent path db =
    order_by-All summary_before (λ row. IsMostRecent path db row.0)
      (left_join (most_recent path db) db.agents)
      (left_join-All (λ row. IsMostRecent path db row.0) (most_recent path db) db.agents
        (All-map (IsMostRecent path db) (λ r. (a : Option AgentRow) → IsMostRecent path db r)
          (most_recent path db) (λ r h a. h) (most_recent-IsMostRecent path db)))
