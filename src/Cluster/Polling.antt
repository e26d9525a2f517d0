-- ===== src/Cluster/Polling.antt =====
-- The loops of internal/cluster that try until a deadline: `for time.Now().Before(deadline) { … }`.
-- `now` reads the clock; an attempt or a pause that returns leaves the loop with what it returns. The
-- loop takes fuel, of which as many rounds as pauses fit before the deadline, and one more, are enough.
use kagen.Prelude.{ℕ, zero, suc, ◌+◌, ◌*◌, ◌≤◌, Option, none, some, ◌≡◌, ltb, if◌then◌else◌, arith}
use kagen.Prelude.Maps.{is_some}
use kagen.Prelude.{true, refl, ◌∙◌, inl, inr, Bool-cases}

module _ {W A : Type 0} where
  abbrev pub or_else : Option A × W → (W → Option A × W) → Option A × W
  or_else (none, w) next = next w
  or_else (some a, w) next = (some a, w)

  unfoldable pub poll :
      (now : W → ℕ × W) (attempt pause : W → Option A × W) (timeout : A) → ℕ → ℕ → W → Option A × W
  poll now attempt pause timeout zero deadline w = (none, w)
  poll now attempt pause timeout (suc fuel) deadline w =
      let (t, w1) = now w in
      if ltb t deadline
      then or_else (attempt w1)
          (λ w2. or_else (pause w2) (poll now attempt pause timeout fuel deadline))
      else (some timeout, w1)

  -- A pause of `delay` at least, by the clock.
  pub record IsPaced (now : W → ℕ × W) (attempt pause : W → Option A × W) (delay : ℕ) : Type 0 where
    pub time : W → ℕ
    pub now_time : (w : W) → (now w).0 ≡ time w
    pub now_forward : (w : W) → time w ≤ time (now w).1
    pub attempt_forward : (w : W) → time w ≤ time (attempt w).1
    pub pause_forward : (w : W) → time w + delay ≤ time (pause w).1

  -- With a round for each pause that fits before the deadline, and one more, the loop is left.
  pub poll-leaves :
      (now : W → ℕ × W) (attempt pause : W → Option A × W) (timeout : A) (delay fuel deadline : ℕ)
      (w : W) (pace : IsPaced now attempt pause delay)
      → deadline ≤ pace.time w + fuel * delay
      → is_some (poll now attempt pause timeout (suc fuel) deadline w).0 ≡ true
  unfolding poll
  poll-leaves now attempt pause timeout delay zero deadline w pace h =
      ground (arith, pace.now_time w)
  poll-leaves now attempt pause timeout delay (suc fuel) deadline w pace h =
      let w1 = (now w).1 in
      let w2 = (attempt w1).1 in
      let w3 = (pause w2).1 in
      let rest : deadline ≤ pace.time w3 + fuel * delay =
        omega (arith, h, pace.now_forward w, pace.attempt_forward w1, pace.pause_forward w2) in
      ground (arith, poll-leaves now attempt pause timeout delay fuel deadline w3 pace rest)

-- A loop keeps what its clock, its attempts and its pauses keep.
module _ {W A B : Type 0} (view : W → B) where
  or_else-keeps :
      (o : Option A × W) (next : W → Option A × W)
      → ((w : W) → view (next w).1 ≡ view w)
      → view (or_else o next).1 ≡ view o.1
  or_else-keeps (none, w) next k = k w
  or_else-keeps (some a, w) next k = refl

  pub poll-keeps :
      (now : W → ℕ × W) (attempt pause : W → Option A × W) (timeout : A) (fuel deadline : ℕ)
      → ((w : W) → view (now w).1 ≡ view w)
      → ((w : W) → view (attempt w).1 ≡ view w)
      → ((w : W) → view (pause w).1 ≡ view w)
      → (w : W) → view (poll now attempt pause timeout fuel deadline w).1 ≡ view w
  unfolding poll
  poll-keeps now attempt pause timeout zero deadline kn ka kp w = refl
  poll-keeps now attempt pause timeout (suc fuel) deadline kn ka kp w =
      let rest = poll-keeps now attempt pause timeout fuel deadline kn ka kp in
      let w1 = (now w).1 in
      elim (Bool-cases (ltb (now w).0 deadline)) [
        | inr late ↦ rw late (kn w)
        | inl early ↦ rw early (
            or_else-keeps (attempt w1) _ (λ w2. or_else-keeps (pause w2) _ rest ∙ kp w2)
            ∙ ka w1
            ∙ kn w)
      ]
