-- ===== src/Forgejo/Transports.antt =====
-- The port forwards of internal/forgejo, counted by a measure of the world.
pub mod Service
pub mod Imports
use kagen.Prelude.{
  ℕ, zero, suc, ◌+◌, ◌-◌, String, Bool, true, false, Option, none, some, List, [], ◌∷◌, ◌≡◌, refl,
  ◌∙◌, ap, sym, arith, Bool-cases, inl, inr, if◌then◌else◌,
}
use kagen.Prelude.Int.{ℤ, pos}
use kagen.Prelude.Maps.{Map}
use kagen.Prelude.Text.{◌+s◌}
use kagen.Errors.{Err}
use kagen.Errors.Exec.{Result, ok, err, Exec, pure, ◌>>=◌, ◌>>◌, ◌or_wrap◌}
use kagen.Git.{BasicAuth}
use kagen.Git.Commands.{GitProcess}
use kagen.Forgejo.{Forge, ReviewSession, stopping, closing_session}

-- One more where a forward comes back.
abbrev pub gain : {A : Type 0} → Result A → ℕ
gain (ok a) = 1
gain (err e) = 0

module _ {W : Type 0} (live : W → ℕ) where
  -- As many forwards are open after a run as before it.
  abbrev pub Keeps : {A : Type 0} → Exec W A → Type 0
  Keeps m = (w : W) → live (m w).1 ≡ live w

  -- One more is open after a run that succeeds, and as many after one that fails.
  abbrev pub Opens : {A : Type 0} → Exec W A → Type 0
  Opens m = (w : W) → live (m w).1 ≡ gain (m w).0 + live w

  pub bind-Keeps :
      {A B : Type 0} (m : Exec W A) (f : A → Exec W B)
      → Keeps m
      → ((a : A) → Keeps (f a))
      → Keeps (m >>= f)
  bind-Keeps {A} {B} m f k l w = go (m w) ∙ k w
    where
      go : (o : Result A × W) → live (((λ v. o) >>= f) w).1 ≡ live o.1
      go (ok a, w1) = l a w1
      go (err e, w1) = refl

  or_wrap-Keeps : {A : Type 0} (m : Exec W A) (f : Err → Err) → Keeps m → Keeps (m or_wrap f)
  or_wrap-Keeps m f k w = k w

  pub bind-Opens :
      {A B : Type 0} (m : Exec W A) (f : A → Exec W B)
      → Keeps m
      → ((a : A) → Opens (f a))
      → Opens (m >>= f)
  bind-Opens {A} {B} m f k l w = go (m w) (k w)
    where
      go :
          (o : Result A × W)
          → live o.1 ≡ live w
          → live (((λ v. o) >>= f) w).1 ≡ gain (((λ v. o) >>= f) w).0 + live w
      go (ok a, w1) same = l a w1 ∙ ap (λ n. gain (f a w1).0 + n) same
      go (err e, w1) same = omega (arith, same)

  pub or_wrap-Opens : {A : Type 0} (m : Exec W A) (f : Err → Err) → Opens m → Opens (m or_wrap f)
  or_wrap-Opens {A} m f k w = go (m w) (k w)
    where
      go :
          (o : Result A × W)
          → live o.1 ≡ gain o.0 + live w
          → live (((λ v. o) or_wrap f) w).1 ≡ gain (((λ v. o) or_wrap f) w).0 + live w
      go (ok a, w1) same = same
      go (err e, w1) same = same

-- What is asked of the world: a forward that starts is one more, one that is stopped is one less, and
-- nothing else opens or closes one.
pub record Counts {W F : Type 0} (forge : Forge W F) (g : GitProcess W) (live : W → ℕ)
    : Type 0 where
  pub on_start :
      (namespace resource : String) (local remote : ℤ)
      → Opens live (forge.start_forward namespace resource local remote)
  pub on_stop : (f : F) (w : W) → live (forge.stop_forward f w).1 ≡ live w - 1
  pub on_request : (verb url : String) → Keeps live (forge.new_request verb url)
  pub on_get : (url : String) → Keeps live (forge.get_status url)
  pub on_post :
      (url body : String) (auth : BasicAuth) → Keeps live (forge.post_status url body auth)
  pub on_run :
      (namespace pod : String) (args : List String) (w : W)
      → live (forge.run_in_pod namespace pod args w).1 ≡ live w
  pub on_list : (namespace selector : String) → Keeps live (forge.list_pods namespace selector)
  pub on_secret :
      (get : String → String → Exec W (Map String))
      → forge.get_secret ≡ some get
      → (namespace name : String) → Keeps live (get namespace name)
  pub on_sleep : (n : ℕ) → Keeps live (forge.sleep n)
  pub on_context : Keeps live forge.context_error
  pub on_command :
      (dir : String) (env : Option (List String)) (args : List String) (w : W)
      → live (g.command dir env args w).1 ≡ live w

module _ {W F : Type 0} {forge : Forge W F} {g : GitProcess W} {live : W → ℕ}
    (counts : Counts forge g live) where
  -- A forward that is stopped where what follows fails is open where it does not.
  pub stopping-Opens :
      {A : Type 0} (start : Exec W F) (m : F → Exec W (Unit {0})) (s : F → A)
      → Opens live start
      → ((f : F) → Keeps live (m f))
      → Opens live (start >>= λ f. (stopping forge f (m f) >> pure (s f)))
  unfolding stopping
  stopping-Opens {A} start m s opens keeps w = go (start w) (opens w)
    where
      after :
          (f : F) (o : Result (Unit {0}) × W)
          → live o.1 ≡ 1 + live w
          → live ((stopping forge f (λ v. o) >> pure (s f)) w).1
            ≡ gain ((stopping forge f (λ v. o) >> pure (s f)) w).0 + live w
      after f (ok u, w1) same = same
      after f (err e, w1) same = counts.on_stop f w1 ∙ omega (arith, same)

      go :
          (o : Result F × W)
          → live o.1 ≡ gain o.0 + live w
          → live (((λ v. o) >>= λ f. (stopping forge f (m f) >> pure (s f))) w).1
            ≡ gain (((λ v. o) >>= λ f. (stopping forge f (m f) >> pure (s f))) w).0 + live w
      go (ok f, w1) same = after f (m f w1) (keeps f w1 ∙ same)
      go (err e, w1) same = same

  -- What is done over a session that is closed afterwards leaves no forward.
  pub closing_session-Keeps :
      {A : Type 0} (start : Exec W (ReviewSession F)) (body : ReviewSession F → Exec W A)
      → Opens live start
      → ((s : ReviewSession F) → Keeps live (body s))
      → Keeps live (start >>= λ s. closing_session forge s (body s))
  unfolding closing_session
  closing_session-Keeps {A} start body opens keeps w = go (start w) (opens w)
    where
      go :
          (o : Result (ReviewSession F) × W)
          → live o.1 ≡ gain o.0 + live w
          → live (((λ v. o) >>= λ s. closing_session forge s (body s)) w).1 ≡ live w
      go (ok s, w1) same = counts.on_stop s.forward (body s w1).1 ∙ omega (arith, keeps s w1, same)
      go (err e, w1) same = omega (arith, same)
