-- ===== src/Diagnostics/Recording/Indices.antt =====
-- The indices of the recorder, internal/diagnostics/operation.go: they are those of the steps.
use kagen.Prelude.{
  ℕ, zero, suc, ◌≡◌, ◌∙◌, sym, refl, inl, inr, String, Bool, true, false, some, List, [], ◌∷◌, ◌++◌,
  arith, ◌==◌, if◌then◌else◌, Option-cases, eq_iff,
}
use kagen.Prelude.Lists.{length, get_elem?}
use kagen.Prelude.Maps.{Map, lookup, insert, lookup-insert}
use kagen.Errors.Exec.{Result, ok, err, Exec}
use kagen.Session.{Time}
use kagen.Diagnostics.{StepRecord, Recorder}
use kagen.Diagnostics.Recording.{
  Host, new_step, planned, indexed, new_recorder, modify, on_step, append_step, step_index,
  start_step, end_step, fail_operation, begin_step, finish_step, run_step,
}

-- The names of the steps, in their order.
abbrev pub names : List StepRecord → List String
names [] = []
names (s ∷ ss) = s.name ∷ names ss

-- Every index that the recorder has for a name is that of a step of the name.
abbrev pub IsIndexed : Map ℕ → List StepRecord → Type 0
IsIndexed m steps =
    (name : String) (i : ℕ) → lookup name m ≡ some i → get_elem? (names steps) i ≡ some name

names-modify :
    (f : StepRecord → StepRecord) (ss : List StepRecord) (i : ℕ)
    → ((s : StepRecord) → (f s).name ≡ s.name)
    → names (modify f ss i) ≡ names ss
unfolding modify
names-modify f [] i h = refl
names-modify f (s ∷ ss) zero h = rw (h s) refl
names-modify f (s ∷ ss) (suc i) h = rw (names-modify f ss i h) refl

names-append :
    (ss : List StepRecord) (name : String) (i : ℕ) (k : String)
    → get_elem? (names ss) i ≡ some k
    → get_elem? (names (ss ++ new_step name ∷ [])) i ≡ some k
names-append [] name i k h = ground arith
names-append (s ∷ ss) name zero k h = h
names-append (s ∷ ss) name (suc i) k h = names-append ss name i k h

names-last :
    (ss : List StepRecord) (name : String)
    → get_elem? (names (ss ++ new_step name ∷ [])) (length ss) ≡ some name
names-last [] name = refl
names-last (s ∷ ss) name = names-last ss name

append_step-IsIndexed :
    (m : Map ℕ) (ss : List StepRecord) (name : String)
    → IsIndexed m ss
    → IsIndexed (insert name (length ss) m) (ss ++ new_step name ∷ [])
append_step-IsIndexed m ss name h k i e =
    go (name == k) refl (sym (lookup-insert name k (length ss) m) ∙ e)
  where
    go :
        (b : Bool)
        → (name == k) ≡ b
        → (if b then some (length ss) else lookup k m) ≡ some i
        → get_elem? (names (ss ++ new_step name ∷ [])) i ≡ some k
    go true same e = ground (arith, eq_iff name k, names-last ss name)
    go false same e = names-append ss name i k (h k i e)

-- Finding or appending a step keeps the indices right, and answers an index of a step of the name.
pub step_index-IsIndexed :
    (name : String) (r : Recorder)
    → IsIndexed r.indices r.current.steps
    → IsIndexed (step_index name r).1.indices (step_index name r).1.current.steps
      × (get_elem? (names (step_index name r).1.current.steps) (step_index name r).0 ≡ some name)
unfolding step_index append_step
step_index-IsIndexed name r h = elim (Option-cases (lookup name r.indices)) [
  | inl e ↦
      rw (e, step_index)
        (append_step-IsIndexed r.indices r.current.steps name h, names-last r.current.steps name)
  | inr (i, e) ↦ rw (e, step_index) (h, h name i e)
]

snoc-append : (ss ts : List StepRecord) (x : StepRecord) → (ss ++ x ∷ []) ++ ts ≡ ss ++ x ∷ ts
snoc-append [] ts x = refl
snoc-append (s ∷ ss) ts x = rw (snoc-append ss ts x)

append-nil : (ss : List StepRecord) → ss ++ [] ≡ ss
append-nil [] = refl
append-nil (s ∷ ss) = rw (append-nil ss)

length-snoc : (ss : List StepRecord) (x : StepRecord) → length (ss ++ x ∷ []) ≡ suc (length ss)
length-snoc [] x = refl
length-snoc (s ∷ ss) x = rw (length-snoc ss x)

planned-IsIndexed :
    (done : List StepRecord) (steps : List String) (m : Map ℕ)
    → IsIndexed m done
    → IsIndexed (indexed steps (length done) m) (done ++ planned steps)
unfolding indexed planned
planned-IsIndexed done [] m h = rw (append-nil done) h
planned-IsIndexed done (n ∷ ns) m h =
    rw (length-snoc, snoc-append) at
      (planned-IsIndexed (done ++ new_step n ∷ []) ns (insert n (length done) m)
        (append_step-IsIndexed m done n h))

-- A new recorder has an index only for the names of its planned steps, of a step of that name, also
-- where a name is planned twice.
pub new_recorder-IsIndexed :
    {W : Type 0} (host : Host W) (name : String) (steps : List String) (w : W)
    → IsIndexed
        (new_recorder host name steps w).0.indices
        (new_recorder host name steps w).0.current.steps
unfolding new_recorder lookup
new_recorder-IsIndexed host name steps w = planned-IsIndexed [] steps [] none_indexed
  where
    none_indexed : IsIndexed [] []
    none_indexed k i e = absurd (ground arith)

-- The body of a step keeps the indices right.
abbrev pub KeepsIndices : {W A : Type 0} → (ℕ → Exec (Recorder × W) A) → Type 0
KeepsIndices {W = W} body =
    (i : ℕ) (r : Recorder) (w : W)
    → IsIndexed r.indices r.current.steps
    → IsIndexed (body i (r, w)).1.0.indices (body i (r, w)).1.0.current.steps

on_step-IsIndexed :
    (f : StepRecord → StepRecord) (i : ℕ) (r : Recorder)
    → ((s : StepRecord) → (f s).name ≡ s.name)
    → IsIndexed r.indices r.current.steps
    → IsIndexed (on_step f i r).indices (on_step f i r).current.steps
unfolding on_step
on_step-IsIndexed f i r same h = rw (names-modify f r.current.steps i same) h

end_step-name :
    {A : Type 0} (sprintf : String → List String → String) (t : Time) (result : Result A)
    (s : StepRecord)
    → (end_step sprintf t result s).name ≡ s.name
unfolding end_step
end_step-name sprintf t (ok u) s = refl
end_step-name sprintf t (err e) s = refl

fail_operation-IsIndexed :
    {A : Type 0} (result : Result A) (r : Recorder)
    → IsIndexed r.indices r.current.steps
    → IsIndexed (fail_operation result r).indices (fail_operation result r).current.steps
fail_operation-IsIndexed (ok u) r h = h
fail_operation-IsIndexed (err e) r h = h

-- RunStep keeps the indices of the recorder right where the step's body does, also when the body fails.
pub run_step-IsIndexed :
    {W A : Type 0} (host : Host W) (name : String) (body : ℕ → Exec (Recorder × W) A) (r : Recorder)
    (w : W)
    → KeepsIndices body
    → IsIndexed r.indices r.current.steps
    → IsIndexed
        (run_step host name body (r, w)).1.0.indices
        (run_step host name body (r, w)).1.0.current.steps
unfolding run_step begin_step finish_step start_step
run_step-IsIndexed {W = W} {A = A} host name body r w keeps h = fail_operation-IsIndexed result _ (
    on_step-IsIndexed (end_step host.sprintf (host.now out.1).0 result) begun.0 out.0
      (end_step-name host.sprintf (host.now out.1).0 result)
      (keeps begun.0 begun.1.0 begun.1.1 (
        on_step-IsIndexed (start_step (host.now w).0) (step_index name r).0 (step_index name r).1
          (λ s. refl) (step_index-IsIndexed name r h).0)))
  where
    begun : ℕ × (Recorder × W)
    begun = begin_step host name (r, w)

    result : Result A
    result = (body begun.0 begun.1).0

    out : Recorder × W
    out = (body begun.0 begun.1).1
