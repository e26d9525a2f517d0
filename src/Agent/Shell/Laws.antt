-- ===== src/Agent/Shell/Laws.antt =====
-- Laws of the attach shell, internal/agent/runtime_spec.go.
use kagen.Prelude.{
  String, if◌then◌else◌, false, Option, none, ◌⊎◌, arith, eq_iff, eq_refl, ◌≡◌, refl, ap, some,
  List, [], ◌∷◌, map, ◌==◌, Bool-cases, ◌↔◌, sym, ◌++◌, inl, inr,
}
use kagen.Prelude.Paths.{join_path}
use kagen.Prelude.Text.{trim_space, ◌+s◌}
use kagen.Prelude.Lists.{All, contains}
use kagen.Agent.{
  EnvVar, EnvValueSource, RuntimeSpec, env_var, literal, session_root, session_path_join,
  unknown_source, claude_spec, codex_spec, open_code_spec,
}
use kagen.Agent.Shell.{
  resolve_env_value, resolve_env_vars, resolve_from, attach_steps, export_line,
  resolve_binary_shell, value_from, cons_to,
}

-- No name of a variable is in the list, and none stands twice.
abbrev pub AreFresh : List String → List EnvVar → Type 0
AreFresh seen [] = Unit
AreFresh seen (v ∷ vs) = (contains v.name seen ≡ false) × AreFresh (v.name ∷ seen) vs

-- The value that a variable has under a state path. There is none under a path that is not empty where the source is
-- none of the three.
abbrev pub IsValue : String → EnvVar → String → Type 0
IsValue path v value =
    ((path ≡ "") × (value ≡ v.value))
    ⊎ (((path == "") ≡ false)
        × (((v.source ≡ literal) × (value ≡ v.value))
            ⊎ (((v.source ≡ session_root) × (value ≡ path))
                ⊎ ((v.source ≡ session_path_join) × (value ≡ join_path (path ∷ v.value ∷ []))))))

-- Variable by variable, the same names with their values.
abbrev pub AreResolved : String → List EnvVar → List EnvVar → Type 0
AreResolved path [] [] = Unit
AreResolved path [] (r ∷ rs) = ⊥
AreResolved path (v ∷ vs) [] = ⊥
AreResolved path (v ∷ vs) (r ∷ rs) =
    ((r.name ≡ v.name) × (r.source ≡ literal) × IsValue path v r.value) × AreResolved path vs rs

resolve_env_value-IsValue :
    (path : String) (v : EnvVar) (value : String)
    → resolve_env_value v path ≡ some value
    → IsValue path v value
unfolding resolve_env_value value_from
resolve_env_value-IsValue path v value h = go v.source refl
  where
    go : (source : EnvValueSource) → v.source ≡ source → IsValue path v value
    go literal same = ground (arith, eq_iff path "")
    go session_root same = ground (arith, eq_iff path "")
    go session_path_join same = ground (arith, eq_iff path "")
    go (unknown_source n) same = ground (arith, eq_iff path "")

resolve_env_value_of_IsValue :
    (path : String) (v : EnvVar) (value : String)
    → IsValue path v value
    → resolve_env_value v path ≡ some value
unfolding resolve_env_value value_from
resolve_env_value_of_IsValue path v value h = ground (arith, eq_iff path "", eq_refl "")

resolve_from-AreResolved :
    (seen : List String) (vs : List EnvVar) (path : String) (rs : List EnvVar)
    → resolve_from seen vs path ≡ some rs
    → AreFresh seen vs × AreResolved path vs rs
unfolding resolve_from cons_to
resolve_from-AreResolved seen [] path [] h = (tt, tt)
resolve_from-AreResolved seen [] path (r ∷ rs) h = absurd (ground arith)
resolve_from-AreResolved seen (v ∷ vs) path rs h = elim (Bool-cases (contains v.name seen)) [
  | inl old ↦ cc (rw old at h)
  | inr new ↦
      go rs (resolve_env_value v path) (resolve_from (v.name ∷ seen) vs path) refl refl
        (rw new at h) new (λ qs later. resolve_from-AreResolved (v.name ∷ seen) vs path qs later)
]
  where
    go :
        (rs : List EnvVar) (value : Option String) (rest : Option (List EnvVar))
        → resolve_env_value v path ≡ value
        → resolve_from (v.name ∷ seen) vs path ≡ rest
        → cons_to v.name value rest ≡ some rs
        → contains v.name seen ≡ false
        → ((qs : List EnvVar)
            → resolve_from (v.name ∷ seen) vs path ≡ some qs
            → AreFresh (v.name ∷ seen) vs × AreResolved path vs qs)
        → AreFresh seen (v ∷ vs) × AreResolved path (v ∷ vs) rs
    go rs none rest same later h new below = absurd (ground arith)
    go rs (some value) none same later h new below = absurd (ground arith)
    go rs (some value) (some qs) same later h new below =
        let (fresh, resolved) = below qs later in
        let made : rs ≡ env_var v.name value literal ∷ qs = ground arith in
        (
          (new, fresh),
          rw made ((refl, refl, resolve_env_value-IsValue path v value same), resolved),
        )

literal_var :
    (r : EnvVar) (name : String)
    → r.name ≡ name
    → r.source ≡ literal
    → env_var name r.value literal ≡ r
literal_var r name same source = rw (sym same, sym source) refl

resolve_from_of_AreResolved :
    (seen : List String) (vs : List EnvVar) (path : String) (rs : List EnvVar)
    → AreFresh seen vs
    → AreResolved path vs rs
    → resolve_from seen vs path ≡ some rs
unfolding resolve_from cons_to
resolve_from_of_AreResolved seen [] path [] fresh h = refl
resolve_from_of_AreResolved seen [] path (r ∷ rs) fresh h = elim h [ ]
resolve_from_of_AreResolved seen (v ∷ vs) path [] fresh h = elim h [ ]
resolve_from_of_AreResolved seen (v ∷ vs) path (r ∷ rs) (new, fresh) ((name, source, value), h) =
    rw
      (
        new,
        resolve_env_value_of_IsValue path v r.value value,
        resolve_from_of_AreResolved (v.name ∷ seen) vs path rs fresh h,
      )
      (ap (λ x. some (x ∷ rs)) (literal_var r v.name name source))

-- Resolving the variables of a specification panics unless their names are distinct and, under a path that is not
-- empty, each has one of the three sources; if so, it keeps the names and the order, and gives each variable its
-- value, as a literal: the value itself under the empty path or from a literal, the path from the session's
-- root, and the value joined to the path from a path of the session.
pub resolve_env_vars_iff :
    (vs : List EnvVar) (state_path : String) (rs : List EnvVar)
    → (resolve_env_vars vs state_path ≡ some rs) ↔ (AreFresh [] vs × AreResolved state_path vs rs)
unfolding resolve_env_vars
resolve_env_vars_iff vs state_path rs = (
  λ h. resolve_from-AreResolved [] vs state_path rs h,
  λ h. resolve_from_of_AreResolved [] vs state_path rs h.0 h.1,
)

abbrev pub shipped : List RuntimeSpec
shipped = claude_spec ∷ codex_spec ∷ open_code_spec ∷ []

-- The steps of the attach shell start with these two.
abbrev pub Isolates : (String → String) → String → RuntimeSpec → Type 0
Isolates quote path spec =
    (rest : List String) × (attach_steps quote spec path
      ≡ some (
          ("mkdir -p " +s quote (trim_space path))
          ∷ ("export HOME=" +s quote (trim_space path))
          ∷ rest))

-- What resolve_from gives under a path that is not empty.
resolve_under : List String → List EnvVar → String → Option (List EnvVar)
unfolding value_from cons_to
resolve_under seen [] path = some []
resolve_under seen (v ∷ vs) path =
    let rest = resolve_under (v.name ∷ seen) vs path in
    if contains v.name seen then none else cons_to v.name (value_from v.source path v.value) rest

resolve_from-resolve_under :
    (seen : List String) (vs : List EnvVar) (path : String)
    → (path == "") ≡ false
    → resolve_from seen vs path ≡ resolve_under seen vs path
unfolding resolve_from resolve_under resolve_env_value
resolve_from-resolve_under seen [] path h = refl
resolve_from-resolve_under seen (v ∷ vs) path h =
    rw (h, resolve_from-resolve_under (v.name ∷ seen) vs path h) refl

abbrev after_first : Option (List EnvVar) → List EnvVar
after_first (some (v ∷ vs)) = vs
after_first _ = []

abbrev after_home : (String → String) → String → RuntimeSpec → List String
after_home quote path spec =
    map (export_line quote) (after_first (resolve_under [] spec.required_env (trim_space path)))
    ++ (resolve_binary_shell quote spec "KAGEN_AGENT_BIN" ∷ spec.attach_shell ∷ [])

attach_steps_of_resolved :
    (quote : String → String) (path : String) (spec : RuntimeSpec) (vs : List EnvVar)
    → (trim_space path == "") ≡ false
    → resolve_env_vars spec.required_env (trim_space path) ≡ some vs
    → attach_steps quote spec path
      ≡ some (
          ("mkdir -p " +s quote (trim_space path))
          ∷ (map (export_line quote) vs
              ++ (resolve_binary_shell quote spec "KAGEN_AGENT_BIN" ∷ spec.attach_shell ∷ [])))
unfolding attach_steps
attach_steps_of_resolved quote path spec vs h resolved = ground (arith, resolved, h)

-- For each shipped agent and every state path that is not blank, the attach shell is built without a
-- panic, and before anything else it makes the trimmed path and exports it as HOME.
pub attach_steps-Isolates :
    (quote : String → String) (path : String)
    → (trim_space path == "") ≡ false
    → All (Isolates quote path) shipped
unfolding resolve_env_vars resolve_under value_from cons_to export_line
attach_steps-Isolates quote path h = (
  (
    after_home quote path claude_spec,
    attach_steps_of_resolved quote path claude_spec _ h
        (resolve_from-resolve_under [] claude_spec.required_env (trim_space path) h),
  ),
  (
    (
      after_home quote path codex_spec,
      attach_steps_of_resolved quote path codex_spec _ h
          (resolve_from-resolve_under [] codex_spec.required_env (trim_space path) h),
    ),
    (
      (
        after_home quote path open_code_spec,
        attach_steps_of_resolved quote path open_code_spec _ h
            (resolve_from-resolve_under [] open_code_spec.required_env (trim_space path) h),
      ),
      tt,
    ),
  ),
)
