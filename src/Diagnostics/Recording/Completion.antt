-- ===== src/Diagnostics/Recording/Completion.antt =====
-- What Complete, internal/diagnostics/operation.go, does when it is called again.
use kagen.Prelude.{
  ◌≡◌, ◌∙◌, sym, refl, ap, Bool, true, false, Option, none, some, List, arith, nat_eq,
}
use kagen.Session.{Time}
use kagen.Diagnostics.{
  StepStatus, pending, running, succeeded, failed, StepRecord, Operation, Recorder,
}
use kagen.Diagnostics.Recording.{
  Host, Reporter, final_status, completed, complete, complete_at, finish_time, report_finished,
}

final_status-final_status :
    {W : Type 0} (host : Host W) (status : StepStatus) (steps : List StepRecord)
    → final_status host (final_status host status steps) steps ≡ final_status host status steps
final_status-final_status host pending steps = ground arith
final_status-final_status host running steps = ground arith
final_status-final_status host succeeded steps = ground arith
final_status-final_status host failed steps = refl

completed-completed :
    {W : Type 0} (host : Host W) (o : Operation) (t : Time)
    → completed host (completed host o t) t ≡ completed host o t
unfolding completed
completed-completed host o t = rw (final_status-final_status host o.status o.steps) (ground arith)

-- A reporter, if there is one, has been told.
abbrev is_told : {W : Type 0} → Option (Reporter W) → Recorder → Bool
is_told none r = true
is_told (some reporter) r = r.reported

report_finished-told :
    {W : Type 0} (host : Host W) (reporter : Option (Reporter W)) (o : Operation) (r : Recorder)
    (w : W)
    → is_told reporter r ≡ true
    → report_finished host reporter o r w ≡ (r, w)
unfolding report_finished
report_finished-told host none o r w h = refl
report_finished-told host (some reporter) o r w h = rw h

report_finished-is_told :
    {W : Type 0} (host : Host W) (reporter : Option (Reporter W)) (o : Operation) (r : Recorder)
    (w : W)
    → (is_told reporter (report_finished host reporter o r w).0 ≡ true)
      × ((report_finished host reporter o r w).0.current ≡ r.current)
unfolding report_finished
report_finished-is_told host none o r w = (refl, refl)
report_finished-is_told host (some reporter) o r w = ground arith

finish_time-completed :
    {W : Type 0} (host : Host W) (o : Operation) (t : Time) (w : W)
    → nat_eq t 0 ≡ false
    → finish_time host (completed host o t) w ≡ (t, w)
unfolding completed
finish_time-completed host o t w h = rw h

complete_at-told :
    {W : Type 0} (host : Host W) (o : Operation) (t : Time) (r : Recorder) (w : W)
    → nat_eq t 0 ≡ false
    → is_told host.reporter r ≡ true
    → complete host (record r { current = completed host o t }, w)
      ≡ (completed host o t, (record r { current = completed host o t }, w))
unfolding complete complete_at
complete_at-told {W = W} host o t r w h told =
    ap (complete_at host (record r { current = completed host o t }))
      (finish_time-completed host o t w h)
    ∙ (ap (λ c. (c, report_finished host host.reporter c (record r { current = c }) w))
          (completed-completed host o t)
        ∙ ap (λ x. (completed host o t, x))
            (report_finished-told host host.reporter (completed host o t)
              (record r { current = completed host o t }) w (told_at host.reporter told)))
  where
    told_at :
        (reporter : Option (Reporter W))
        → is_told reporter r ≡ true
        → is_told reporter (record r { current = completed host o t }) ≡ true
    told_at none k = refl
    told_at (some reporter) k = k

-- Completing an operation a second time changes nothing and reports nothing, where the first found the
-- operation's end set or the clock gave one.
pub complete_idempotent :
    {W : Type 0} (host : Host W) (r : Recorder) (w : W)
    → nat_eq (finish_time host r.current w).0 0 ≡ false
    → complete host (complete host (r, w)).1 ≡ complete host (r, w)
unfolding complete complete_at
complete_idempotent {W = W} host r w h =
    ap (λ c. complete host (record after.0 { current = c }, after.1)) (told.1)
    ∙ (complete_at-told host r.current time after.0 after.1 h told.0
        ∙ ap (λ c. (o, (record after.0 { current = c }, after.1))) (sym told.1))
  where
    time : Time
    time = (finish_time host r.current w).0

    o : Operation
    o = completed host r.current time

    after : Recorder × W
    after =
        report_finished host host.reporter o (record r { current = o })
          (finish_time host r.current w).1

    told : (is_told host.reporter after.0 ≡ true) × (after.0.current ≡ o)
    told =
        report_finished-is_told host host.reporter o (record r { current = o })
          (finish_time host r.current w).1
