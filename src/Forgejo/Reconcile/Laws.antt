-- ===== src/Forgejo/Reconcile/Laws.antt =====
-- internal/forgejo/reconcile.go: the wait for the deployment.
use kagen.Prelude.{
  ℕ, zero, suc, ◌+◌, ◌*◌, ◌≤◌, ◌<◌, String, true, ltb, Option, none, some, ◌≡◌, refl, arith,
  Bool-cases, inl, inr, ◌⊎◌,
}
use kagen.Errors.{Err}
use kagen.Errors.Exec.{Result, ok, err}
use kagen.Git.{Repository}
use kagen.Forgejo.{forgejo_namespace}
use kagen.Forgejo.Reconcile.{
  ForgeApi, ForgeDeployment, seen, then_or, unless_error, look, wait_ready, ensure_objects,
  then_wait, ensure_repo,
}

module _ {W : Type 0} (api : ForgeApi W) where
  -- The deployment was seen with a replica that is ready, by the last request.
  pub IsSeen : String → W → Type 0
  IsSeen namespace w' =
      (before : W) × (d : ForgeDeployment) × ((api.deployments.get namespace "forgejo" before
          ≡ (ok d, w'))
        × (ltb 0 (d.deployment.ready_replicas) ≡ true))

  then_or_cases :
      (o : Option (Result (Unit {0})) × W) (next : W → Option (Result (Unit {0})) × W) (w' : W)
      → then_or api o next ≡ (some (ok tt), w')
      → (o ≡ (some (ok tt), w')) ⊎ ((w1 : W) × (o ≡ (none, w1)) × (next w1 ≡ (some (ok tt), w')))
  then_or_cases (none, w1) next w' h = inr (w1, refl, h)
  then_or_cases (some r, w1) next w' h = inl h

  unless_error-then :
      (o : Option Err × W) (next : W → Option (Result (Unit {0})) × W) (w' : W)
      → then_or api (unless_error api o) next ≡ (some (ok tt), w')
      → (w1 : W) × (next w1 ≡ (some (ok tt), w'))
  unless_error-then (none, w1) next w' h = (w1, h)
  unless_error-then (some e, w1) next w' h = absurd (ground arith)

  look-IsSeen :
      (namespace : String) (w w' : W)
      → look api namespace w ≡ (some (ok tt), w')
      → IsSeen namespace w'
  unfolding look IsSeen
  look-IsSeen namespace w w' h = go (api.deployments.get namespace "forgejo" w) refl h
    where
      go :
          (o : Result ForgeDeployment × W)
          → api.deployments.get namespace "forgejo" w ≡ o
          → seen api o ≡ (some (ok tt), w')
          → IsSeen namespace w'
      go (ok d, w1) same h = elim (Bool-cases (ltb 0 (d.deployment.ready_replicas))) [
        | inl ready ↦ (w, d, (ground arith, ready))
        | inr waits ↦ absurd (ground arith)
      ]
      go (err e, w1) same h = absurd (ground arith)

  wait_ready-IsSeen :
      (fuel : ℕ) (namespace : String) (w w' : W)
      → wait_ready api fuel namespace w ≡ (some (ok tt), w')
      → IsSeen namespace w'
  unfolding wait_ready
  wait_ready-IsSeen zero namespace w w' h = absurd (ground arith)
  wait_ready-IsSeen (suc fuel) namespace w w' h =
      let (w1, h1) = unless_error-then (api.context_error w) _ w' h in
      elim (then_or_cases (look api namespace w1) _ w' h1) [
        | inl seen ↦ look-IsSeen namespace w1 w' seen
        | inr (w2, _, h2) ↦
            let (w3, h3) = unless_error-then (api.sleep 2000 w2) _ w' h2 in
            wait_ready-IsSeen fuel namespace w3 w' h3
      ]

  -- A reconciliation that succeeds has last seen the deployment of the forge with a replica that is
  -- ready.
  pub ensure_repo-IsSeen :
      (fuel : ℕ) (sha1_hex : String → String) (repo : Repository) (w w' : W)
      → ensure_repo api fuel sha1_hex repo w ≡ (some (ok tt), w')
      → IsSeen (forgejo_namespace sha1_hex repo) w'
  unfolding ensure_repo
  ensure_repo-IsSeen fuel sha1_hex repo w w' h = go (ensure_objects api sha1_hex repo w) h
    where
      go :
          (o : Result (Unit {0}) × W)
          → then_wait api (wait_ready api fuel (forgejo_namespace sha1_hex repo)) o
            ≡ (some (ok tt), w')
          → IsSeen (forgejo_namespace sha1_hex repo) w'
      go (ok u, w1) h = wait_ready-IsSeen fuel (forgejo_namespace sha1_hex repo) w1 w' h
      go (err e, w1) h = absurd (ground arith)

  -- A context that does not end, a server that answers, and a deployment that has a replica that is ready
  -- from some time on, by a clock that a sleep moves by its length at least.
  pub record ComesUp (namespace : String) (ready_at : ℕ) : Type 0 where
    pub time : W → ℕ
    pub unending : (w : W) → (api.context_error w).0 ≡ none
    pub context_forward : (w : W) → time w ≤ time (api.context_error w).1
    pub answers :
        (w w' : W) (e : Err)
        → api.deployments.get namespace "forgejo" w ≡ (err e, w')
        → (api.is_not_found e ≡ true) × (time w < ready_at)
    pub ready :
        (w w' : W) (d : ForgeDeployment)
        → api.deployments.get namespace "forgejo" w ≡ (ok d, w')
        → ready_at ≤ time w
        → ltb 0 (d.deployment.ready_replicas) ≡ true
    pub get_forward : (w : W) → time w ≤ time (api.deployments.get namespace "forgejo" w).1
    pub uncut : (n : ℕ) (w : W) → (api.sleep n w).0 ≡ none
    pub sleep_forward : (n : ℕ) (w : W) → time w + n ≤ time (api.sleep n w).1

  unless_error-none :
      (o : Option Err × W) (next : W → Option (Result (Unit {0})) × W)
      → o.0 ≡ none
      → then_or api (unless_error api o) next ≡ next o.1
  unless_error-none (none, w) next h = refl
  unless_error-none (some e, w) next h = absurd (ground arith)

  -- A look is successful, or it is too early and the loop goes on.
  look_cases :
      (namespace : String) (ready_at : ℕ) (w : W) (up : ComesUp namespace ready_at)
      → ((look api namespace w).0 ≡ some (ok tt))
        ⊎ (((look api namespace w).0 ≡ none) × (up.time w < ready_at))
  unfolding look
  look_cases namespace ready_at w up = go (api.deployments.get namespace "forgejo" w) refl
    where
      go :
          (o : Result ForgeDeployment × W)
          → api.deployments.get namespace "forgejo" w ≡ o
          → ((seen api o).0 ≡ some (ok tt)) ⊎ (((seen api o).0 ≡ none) × (up.time w < ready_at))
      go (ok d, w1) same = ground (arith, up.ready w w1 d same)
      go (err e, w1) same = ground (arith, up.answers w w1 e same)

  then_or-found :
      (o : Option (Result (Unit {0})) × W) (next : W → Option (Result (Unit {0})) × W)
      → o.0 ≡ some (ok tt)
      → (then_or api o next).0 ≡ some (ok tt)
  then_or-found (none, w) next h = absurd (ground arith)
  then_or-found (some r, w) next h = h

  then_or-none :
      (o : Option (Result (Unit {0})) × W) (next : W → Option (Result (Unit {0})) × W)
      → o.0 ≡ none
      → then_or api o next ≡ next o.1
  then_or-none (none, w) next h = refl
  then_or-none (some r, w) next h = absurd (ground arith)

  look-forward :
      (namespace : String) (ready_at : ℕ) (w : W) (up : ComesUp namespace ready_at)
      → up.time w ≤ up.time (look api namespace w).1
  unfolding look
  look-forward namespace ready_at w up = up.get_forward w

  -- Under a context that does not end, the wait for a deployment that has a ready replica from some time on
  -- returns without an error: as many rounds as pauses of two seconds fit before that time, and one more, are
  -- enough. Before that time the deployment need not be there.
  pub wait_ready-ComesUp :
      (namespace : String) (ready_at fuel : ℕ) (w : W) (up : ComesUp namespace ready_at)
      → ready_at ≤ up.time w + fuel * 2000
      → (wait_ready api (suc fuel) namespace w).0 ≡ some (ok tt)
  unfolding wait_ready
  wait_ready-ComesUp namespace ready_at zero w up h =
      let w1 = (api.context_error w).1 in
      rw (unless_error-none (api.context_error w) _ (up.unending w))
        (elim (look_cases namespace ready_at w1 up) [
          | inl found ↦ then_or-found (look api namespace w1) _ found
          | inr (_, early) ↦ absurd (omega (arith, early, up.context_forward w, h))
        ])
  wait_ready-ComesUp namespace ready_at (suc fuel) w up h =
      let w1 = (api.context_error w).1 in
      let w2 = (look api namespace w1).1 in
      let w3 = (api.sleep 2000 w2).1 in
      rw (unless_error-none (api.context_error w) _ (up.unending w))
        (elim (look_cases namespace ready_at w1 up) [
          | inl found ↦ then_or-found (look api namespace w1) _ found
          | inr (nothing, _) ↦ rw (then_or-none (look api namespace w1) _ nothing) (
              rw (unless_error-none (api.sleep 2000 w2) _ (up.uncut 2000 w2)) (
                wait_ready-ComesUp namespace ready_at fuel w3 up (
                  omega (
                    arith,
                    h,
                    up.context_forward w,
                    look-forward namespace ready_at w1 up,
                    up.sleep_forward 2000 w2,
                  ))))
        ])
