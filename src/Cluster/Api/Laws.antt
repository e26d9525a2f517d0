-- ===== src/Cluster/Api/Laws.antt =====
-- What the requests of internal/cluster do to the objects of the API server.
use kagen.Prelude.Text.{◌+s◌}
use kagen.Errors.Inversion.{bind-ok, or_wrap-ok}
use kagen.Prelude.{
  String, Bool, true, Bool-cases, inl, inr, ◌⊎◌, ◌≡◌, refl, sym, ◌∙◌, arith, Option, none, some, [],
}
use kagen.Errors.{Err, wrapped}
use kagen.Errors.Exec.{Result, ok, err, ◌>>=◌, ◌or_wrap◌}
use kagen.Cluster.Api.{Resource, overwrite, unless_created, create_or_update, remove, removed}

module _ {W A : Type 0} (res : Resource W A) where
  -- What `find` shows of the objects after the requests that succeed.
  pub record IsStore (is_not_found : Err → Bool) (find : String → String → W → Option A)
      (name_of : A → String) : Type 0 where
    pub created :
        (namespace : String) (a : A) (w w' : W)
        → res.create namespace a w ≡ (ok tt, w')
        → find namespace (name_of a) w' ≡ some a
    pub got :
        (namespace name : String) (a : A) (w w' : W)
        → res.get namespace name w ≡ (ok a, w')
        → name_of a ≡ name
    pub updated :
        (namespace : String) (a : A) (w w' : W)
        → res.update namespace a w ≡ (ok tt, w')
        → find namespace (name_of a) w' ≡ some a
    pub missing :
        (namespace name : String) (e : Err) (w w' : W)
        → res.delete namespace name w ≡ (err e, w')
        → is_not_found e ≡ true
        → find namespace name w' ≡ none
    pub deleted :
        (namespace name : String) (w w' : W)
        → res.delete namespace name w ≡ (ok tt, w')
        → find namespace name w' ≡ none

  -- What is not changed by the requests of a kind.
  pub record IsKept {B : Type 0} (view : W → B) : Type 0 where
    pub create_keeps :
        (namespace : String) (a : A) (w : W) → view (res.create namespace a w).1 ≡ view w
    pub get_keeps : (namespace name : String) (w : W) → view (res.get namespace name w).1 ≡ view w
    pub update_keeps :
        (namespace : String) (a : A) (w : W) → view (res.update namespace a w).1 ≡ view w

module _ {W A : Type 0} (is_already_exists : Err → Bool) (res : Resource W A) where
  taken :
      (e : Err) (w w' : W) (what namespace name : String) (merge : A → A)
      → is_already_exists e ≡ true
      → unless_created is_already_exists res what namespace name merge (err e, w) ≡ (ok tt, w')
      → overwrite is_already_exists res what namespace name merge w ≡ (ok tt, w')
  unfolding unless_created
  taken e w w' what namespace name merge there h = sym (rw there refl) ∙ h

  overwrite-finds :
      (is_not_found : Err → Bool) (find : String → String → W → Option A) (name_of : A → String)
      (what namespace name : String) (merge : A → A) (w w' : W)
      → IsStore res is_not_found find name_of
      → ((a : A) → name_of (merge a) ≡ name_of a)
      → overwrite is_already_exists res what namespace name merge w ≡ (ok tt, w')
      → (current : A) × (find namespace name w' ≡ some (merge current))
  unfolding overwrite
  overwrite-finds is_not_found find name_of what namespace name merge w w' stored keeps h =
      let get_it = res.get namespace name in
      let reading = wrapped ("getting " +s what +s ": %w") [] in
      let writing = wrapped ("updating " +s what +s ": %w") [] in
      let (current, w1, read, rest) =
        bind-ok (get_it or_wrap reading)
          (λ current. res.update namespace (merge current) or_wrap writing) w w' tt h in
      let got =
        stored.got namespace name current w w1 (or_wrap-ok get_it reading w w1 current read) in
      let put =
        stored.updated namespace (merge current) w1 w'
          (or_wrap-ok (res.update namespace (merge current)) writing w1 w' tt rest) in
      (current, rw (sym (keeps current ∙ got)) put)

  -- Where it succeeds, the object that is there is the one that was wanted, or one whose fields were
  -- written over.
  pub create_or_update-finds :
      (is_not_found : Err → Bool) (find : String → String → W → Option A) (name_of : A → String)
      (what namespace name : String) (desired : A) (merge : A → A) (w w' : W)
      → IsStore res is_not_found find name_of
      → name_of desired ≡ name
      → ((a : A) → name_of (merge a) ≡ name_of a)
      → create_or_update is_already_exists res what namespace name desired merge w ≡ (ok tt, w')
      → (a : A) × (find namespace name w' ≡ some a)
        × ((a ≡ desired) ⊎ ((current : A) × (a ≡ merge current)))
  unfolding create_or_update
  create_or_update-finds is_not_found find name_of what namespace name desired merge w w' stored
        named keeps h =
      go (res.create namespace desired w) refl h
    where
      go :
          (o : Result (Unit {0}) × W)
          → res.create namespace desired w ≡ o
          → unless_created is_already_exists res what namespace name merge o ≡ (ok tt, w')
          → (a : A) × (find namespace name w' ≡ some a)
            × ((a ≡ desired) ⊎ ((current : A) × (a ≡ merge current)))
      go (ok u, w1) same h =
          let end : w1 ≡ w' = ground arith in
          (desired, rw (sym end, sym named) (stored.created namespace desired w w1 same), inl refl)
      go (err e, w1) same h = elim (Bool-cases (is_already_exists e)) [
        | inr other ↦ absurd (ground arith)
        | inl there ↦
            let (current, found) =
              overwrite-finds is_not_found find name_of what namespace name merge w1 w' stored keeps
                (taken e w1 w' what namespace name merge there h) in
            (merge current, found, inr (current, refl))
      ]

  overwrite-keeps :
      {B : Type 0} (view : W → B) (what namespace name : String) (merge : A → A) (w : W)
      → IsKept res view
      → view (overwrite is_already_exists res what namespace name merge w).1 ≡ view w
  unfolding overwrite
  overwrite-keeps {B = B} view what namespace name merge w kept =
      go (res.get namespace name w).0 ∙ kept.get_keeps namespace name w
    where
      go :
          (o : Result A)
          → view
              (((λ v. (o, (res.get namespace name w).1))
                    or_wrap wrapped ("getting " +s what +s ": %w") []
                  >>= λ current.
                      (res.update namespace (merge current)
                        or_wrap wrapped ("updating " +s what +s ": %w") []))
                w).1
            ≡ view (res.get namespace name w).1
      go (ok current) = kept.update_keeps namespace (merge current) (res.get namespace name w).1
      go (err e) = refl

  unless_created-keeps :
      {B : Type 0} (view : W → B) (what namespace name : String) (merge : A → A)
      (o : Result (Unit {0}) × W)
      → IsKept res view
      → view (unless_created is_already_exists res what namespace name merge o).1 ≡ view o.1
  unfolding unless_created
  unless_created-keeps view what namespace name merge (ok u, w) kept = refl
  unless_created-keeps view what namespace name merge (err e, w) kept =
      elim (Bool-cases (is_already_exists e)) [
        | inl there ↦ rw there (overwrite-keeps view what namespace name merge w kept)
        | inr other ↦ rw other refl
      ]

  -- Nothing changes of what the requests of the kind keep.
  pub create_or_update-keeps :
      {B : Type 0} (view : W → B) (what namespace name : String) (desired : A) (merge : A → A)
      (w : W)
      → IsKept res view
      → view (create_or_update is_already_exists res what namespace name desired merge w).1 ≡ view w
  unfolding create_or_update
  create_or_update-keeps view what namespace name desired merge w kept =
      unless_created-keeps view what namespace name merge (res.create namespace desired w) kept
      ∙ kept.create_keeps namespace desired w

-- Where it succeeds, the object is not there.
pub remove-finds :
    {W A : Type 0} (is_not_found : Err → Bool) (res : Resource W A)
    (find : String → String → W → Option A) (name_of : A → String) (what namespace name : String)
    (w w' : W)
    → IsStore res is_not_found find name_of
    → remove is_not_found res what namespace name w ≡ (ok tt, w')
    → find namespace name w' ≡ none
unfolding remove
remove-finds {W} is_not_found res find name_of what namespace name w w' stored h =
    go (res.delete namespace name w) refl h
  where
    go :
        (o : Result (Unit {0}) × W)
        → res.delete namespace name w ≡ o
        → removed is_not_found what o ≡ (ok tt, w')
        → find namespace name w' ≡ none
    go (ok u, w1) same h =
        let end : w1 ≡ w' = ground arith in rw (sym end) (stored.deleted namespace name w w1 same)
    go (err e, w1) same h = elim (Bool-cases (is_not_found e)) [
      | inr other ↦ absurd (ground arith)
      | inl gone ↦
          let end : w1 ≡ w' = ground arith in
          rw (sym end) (stored.missing namespace name e w w1 same gone)
    ]
