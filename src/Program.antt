-- ===== src/Program.antt =====
-- main.go: the process, from its environment to its exit code. The libraries of the API server, cobra
-- and the clients that the solver makes are arguments.
use mathlib.Core.Path.{subst}
use cert_manager_webhook_mij.Prelude.{
  ℕ, List, [], ◌⊎◌, inl, inr, ◌≢◌, ◌∷◌, ◌∙◌, Text, codes, ℤ, true, ◌≡◌, ◌↔◌, refl, arith,
}
use cert_manager_webhook_mij.Failure.{Result, ok, err}
use cert_manager_webhook_mij.Server.{
  RecommendedOptions, Solver, Call, Libraries, Launch, run_webhook_server,
}
use cert_manager_webhook_mij.Solver.Startup.{initialize, new_solver}
use cert_manager_webhook_mij.Settings.{Environment, Settings, or_else_text, load_settings}
use cert_manager_webhook_mij.Settings.Loading.{IsFrom, load_settings-IsFrom}

-- `groupName`
abbrev pub default_group_name : Text
default_group_name = codes "acme.mijn-host.vanefferenonline.nl"

abbrev code_of : Result (Unit {0}) → ℕ
code_of (err e) = 1
code_of (ok _) = 0

ran : (out : Result (Unit {0})) → code_of out ≡ 0 → out ≡ ok tt
ran (ok u) h = refl
ran (err f) h = ground (arith, h)

module _ (parse_duration : Text → Result ℤ) (env : Environment) {Rest : Type 0}
    (libs : Libraries Rest)
    (execute : RecommendedOptions → (RecommendedOptions → Launch Rest) → Launch Rest)
    (kube cm : Text → Result (Unit {0})) where
  abbrev pub group_name : Text
  group_name = or_else_text (env.getenv (codes "GROUP_NAME")) default_group_name

  -- The group of the environment, or the default.
  abbrev pub IsGroup : Text → Type 0
  IsGroup group =
      let set = env.getenv (codes "GROUP_NAME") in
      ((set ≡ []) × (group ≡ codes "acme.mijn-host.vanefferenonline.nl"))
      ⊎ ((set ≢ []) × (group ≡ set))

  -- The start of the server, with its calls.
  abbrev pub start : Settings → Result (Unit {0}) × List (Call Rest)
  start s = run_webhook_server libs group_name (new_solver kube cm s) execute []

  -- The rest of `main`, with the settings.
  abbrev pub exit_code : Result Settings → ℕ
  exit_code (err e) = 1
  exit_code (ok s) = code_of (start s).0

  -- `main`
  unfoldable pub main : ℕ
  main = exit_code (load_settings parse_duration env)

  -- The process exits with 0 exactly if the environment gives settings with which the server runs to
  -- its end without an error.
  main_succeeds :
      (main ≡ 0) ↔ ((s : Settings) × IsFrom parse_duration env s × ((start s).0 ≡ ok tt))
  unfolding main
  main_succeeds = (
    (λ h. served (load_settings parse_duration env) refl h),
    (λ (s, from, runs). rw ((load_settings-IsFrom parse_duration env s).1 from, runs) refl),
  )
    where
      served :
          (loaded : Result Settings)
          → load_settings parse_duration env ≡ loaded
          → exit_code loaded ≡ 0
          → (s : Settings) × IsFrom parse_duration env s × ((start s).0 ≡ ok tt)
      served (err f) e h = ground (arith, h)
      served (ok s) e h = (s, (load_settings-IsFrom parse_duration env s).0 e, ran (start s).0 h)

  -- What `newSolver` gives the server: a solver of that name whose `Initialize` succeeds exactly if the
  -- client of Kubernetes is made, and that of cert-manager where the settings ask for it.
  pub record IsSolverOf (s : Settings) (solver : Solver) : Type 0 where
    pub named : solver.name ≡ codes "mijn-host"
    pub initialized :
        (config stop : Text)
        → (solver.initialize config stop ≡ ok tt)
          ↔ ((kube config ≡ ok tt) × (s.trigger_context ≡ true → cm config ≡ ok tt))

  new_solver-IsSolverOf : (s : Settings) → IsSolverOf s (new_solver kube cm s)
  unfolding initialize
  new_solver-IsSolverOf s = record {
    named = refl;
    initialized = λ config stop. (
      (λ h. (ground (arith, h), λ asked. ground (arith, h, asked))),
      (λ (made, also). ground (arith, made, also)),
    );
  }

  group_name-IsGroup : IsGroup group_name
  group_name-IsGroup = group_cases (env.getenv (codes "GROUP_NAME")) refl
    where
      group_cases :
          (t : Text)
          → env.getenv (codes "GROUP_NAME") ≡ t
          → ((t ≡ [])
              × (or_else_text t default_group_name ≡ codes "acme.mijn-host.vanefferenonline.nl"))
            ⊎ ((t ≢ []) × (or_else_text t default_group_name ≡ t))
      group_cases [] e = inl (refl, refl)
      group_cases (c ∷ t) e = inr ((λ n. ground (arith, n)), refl)

  set_group : (t : Text) → t ≢ [] → t ≡ or_else_text t default_group_name
  set_group [] h = absurd (h refl)
  set_group (c ∷ t) h = refl

  IsGroup-unique : (group : Text) → IsGroup group → group ≡ group_name
  IsGroup-unique group (inl (none_set, e)) = rw (none_set, e) refl
  IsGroup-unique group (inr (set, e)) = e ∙ set_group (env.getenv (codes "GROUP_NAME")) set

  -- A process exits with 0 exactly if its environment gives settings, and the server, started under the
  -- group of GROUP_NAME, or the default group where that is empty, with the solver of these settings,
  -- ends without an error. That solver is called mijn-host, and its `Initialize` succeeds exactly if the
  -- client of Kubernetes is made, and that of cert-manager where the settings ask for it.
  pub main_serves :
      ((main ≡ 0) ↔ (
        (s : Settings) × (group : Text) × IsFrom parse_duration env s
        × IsGroup group
        × ((run_webhook_server libs group (new_solver kube cm s) execute []).0 ≡ ok tt)))
      × ((s : Settings) → IsSolverOf s (new_solver kube cm s))
  main_serves = (
    (
      (λ h.
          let (s, from, runs) = main_succeeds.0 h in
          (s, group_name, from, group_name-IsGroup, runs)),
      (λ (s, group, from, is_group, runs). main_succeeds.1 (
        s,
        from,
        subst (λ g. (run_webhook_server libs g (new_solver kube cm s) execute []).0 ≡ ok tt)
            (IsGroup-unique group is_group) runs,
      )),
    ),
    new_solver-IsSolverOf,
  )
