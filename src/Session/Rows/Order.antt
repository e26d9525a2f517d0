-- ===== src/Session/Rows/Order.antt =====
-- The ORDER BY clauses of internal/session/queries.go, on rows whose times are texts.
use kagen.Prelude.{Bool, true, false, Option, none, some, List, [], ◌∷◌, ltb, if◌then◌else◌}
use kagen.Prelude.Sort.{str_ltb}
use kagen.Session.Tables.{KagenRow, AgentRow}

-- The next key decides where this one does not.
abbrev pub then_by : Bool → Bool → Bool → Bool
then_by less greater next = if less then true else if greater then false else next

-- ks.last_used_at DESC, ks.id DESC
abbrev pub session_then : KagenRow → KagenRow → Bool → Bool
session_then a b next =
    then_by (str_ltb b.last_used_at a.last_used_at) (str_ltb a.last_used_at b.last_used_at)
      (then_by (ltb b.id a.id) (ltb a.id b.id) next)

unfoldable pub session_before : KagenRow → KagenRow → Bool
session_before a b = session_then a b false

-- ag.agent_type ASC, ag.last_used_at DESC, ag.created_at DESC, ag.id DESC; NULL comes first in ASC.
abbrev pub agent_before : Option AgentRow → Option AgentRow → Bool
agent_before none none = false
agent_before none (some b) = true
agent_before (some a) none = false
agent_before (some a) (some b) =
    then_by (str_ltb a.agent_type b.agent_type) (str_ltb b.agent_type a.agent_type) (
      then_by (str_ltb b.last_used_at a.last_used_at) (str_ltb a.last_used_at b.last_used_at) (
        then_by (str_ltb b.created_at a.created_at) (str_ltb a.created_at b.created_at)
          (str_ltb b.id a.id)))

unfoldable pub summary_before : KagenRow × Option AgentRow → KagenRow × Option AgentRow → Bool
summary_before (a, x) (b, y) = session_then a b (agent_before x y)

unfoldable pub insert_by {ℓ} : {A : Type ℓ} → (A → A → Bool) → A → List A → List A
insert_by before x [] = x ∷ []
insert_by before x (y ∷ ys) =
    let rest = insert_by before x ys in if before y x then y ∷ rest else x ∷ y ∷ ys

-- ORDER BY
unfoldable pub order_by {ℓ} : {A : Type ℓ} → (A → A → Bool) → List A → List A
unfolding insert_by
order_by before [] = []
order_by before (x ∷ xs) = insert_by before x (order_by before xs)
