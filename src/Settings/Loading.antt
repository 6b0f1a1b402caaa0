-- ===== src/Settings/Loading.antt =====
-- settings.go: which settings an environment gives.
use cert_manager_webhook_mij.Prelude.{
  true, [], Text, codes, is_empty, not_is_empty, Bool-cases, ◌*◌, ℤ, pos, ◌≡◌, ◌≢◌, ◌↔◌, ◌⊎◌, inl,
  inr, refl, sym, ap, ◌∙◌, arith,
}
use mathlib.Core.Path.{subst}
use cert_manager_webhook_mij.Failure.{Result, ok, bind_ok, ok_injective}
use cert_manager_webhook_mij.Lock.{second}
use cert_manager_webhook_mij.Settings.{
  Environment, Settings, serial_check_best_effort, service_account_namespace_file, parse_bool,
  env_value, parse_serial_check, or_else_text, file_namespace, load_values, load_settings,
}
use cert_manager_webhook_mij.Settings.Values.{
  Gives, default, written, IsSerialCheck, env_value-Gives, Gives-env_value, known_not_empty,
  check_lem,
}

pub record IsFrom (parse_duration : Text → Result ℤ) (env : Environment) (s : Settings)
    : Type 0 where
  pub pod_name : s.pod_name ≡ or_else_text (env.getenv (codes "POD_NAME")) env.hostname
  pub namespace :
      s.namespace
      ≡ or_else_text
          (env.getenv (codes "POD_NAMESPACE"))
          (file_namespace (env.read_file service_account_namespace_file))
  pub some_namespace : s.namespace ≢ []
  pub own :
      Gives parse_bool true (env.getenv (codes "MIJN_HOST_OWN_ACME_RECORDS")) s.own_acme_records
  pub interval :
      Gives parse_duration
        (pos (15 * 60 * second))
        (env.getenv (codes "MIJN_HOST_SWEEP_INTERVAL"))
        s.sweep_interval
  pub age :
      Gives parse_duration
        (pos (24 * 3600 * second))
        (env.getenv (codes "MIJN_HOST_MAX_RECORD_AGE"))
        s.max_record_age
  pub wait :
      Gives parse_duration
        (pos (25 * second))
        (env.getenv (codes "MIJN_HOST_LOCK_WAIT_TIMEOUT"))
        s.lock_wait_timeout
  pub duration :
      Gives parse_duration
        (pos (60 * second))
        (env.getenv (codes "MIJN_HOST_LOCK_DURATION"))
        s.lock_duration
  pub trigger :
      Gives parse_bool true (env.getenv (codes "MIJN_HOST_TRIGGER_CONTEXT")) s.trigger_context
  pub check :
      (env.getenv (codes "MIJN_HOST_SERIAL_CHECK") ≡ [])
        × (s.serial_check ≡ serial_check_best_effort)
      ⊎ (env.getenv (codes "MIJN_HOST_SERIAL_CHECK") ≡ s.serial_check)
        × IsSerialCheck s.serial_check

module _ (parse_duration : Text → Result ℤ) (env : Environment) where
  -- The variables one by one, as the code reads them.
  record Values (s : Settings) : Type 0 where
    own :
        env_value parse_bool true (env.getenv (codes "MIJN_HOST_OWN_ACME_RECORDS"))
        ≡ ok s.own_acme_records
    interval :
        env_value parse_duration
          (pos (15 * 60 * second))
          (env.getenv (codes "MIJN_HOST_SWEEP_INTERVAL"))
        ≡ ok s.sweep_interval
    age :
        env_value parse_duration
          (pos (24 * 3600 * second))
          (env.getenv (codes "MIJN_HOST_MAX_RECORD_AGE"))
        ≡ ok s.max_record_age
    wait :
        env_value parse_duration
          (pos (25 * second))
          (env.getenv (codes "MIJN_HOST_LOCK_WAIT_TIMEOUT"))
        ≡ ok s.lock_wait_timeout
    duration :
        env_value parse_duration (pos (60 * second)) (env.getenv (codes "MIJN_HOST_LOCK_DURATION"))
        ≡ ok s.lock_duration
    trigger :
        env_value parse_bool true (env.getenv (codes "MIJN_HOST_TRIGGER_CONTEXT"))
        ≡ ok s.trigger_context
    check :
        env_value parse_serial_check serial_check_best_effort
          (env.getenv (codes "MIJN_HOST_SERIAL_CHECK"))
        ≡ ok s.serial_check

  load_values-Values :
      (p n : Text) (s : Settings)
      → load_values parse_duration env p n ≡ ok s
      → Values s × (s.pod_name ≡ p) × (s.namespace ≡ n)
  unfolding load_values
  load_values-Values p n s h =
      let (own, e1, h1) =
        bind_ok (env_value parse_bool true (env.getenv (codes "MIJN_HOST_OWN_ACME_RECORDS"))) _ s
          h in
      let (interval, e2, h2) =
        bind_ok
          (env_value parse_duration (pos (15 * 60 * second))
            (env.getenv (codes "MIJN_HOST_SWEEP_INTERVAL")))
          _ s h1 in
      let (age, e3, h3) =
        bind_ok
          (env_value parse_duration (pos (24 * 3600 * second))
            (env.getenv (codes "MIJN_HOST_MAX_RECORD_AGE")))
          _ s h2 in
      let (wait, e4, h4) =
        bind_ok
          (env_value parse_duration (pos (25 * second))
            (env.getenv (codes "MIJN_HOST_LOCK_WAIT_TIMEOUT")))
          _ s h3 in
      let (duration, e5, h5) =
        bind_ok
          (env_value parse_duration (pos (60 * second))
            (env.getenv (codes "MIJN_HOST_LOCK_DURATION")))
          _ s h4 in
      let (trigger, e6, h6) =
        bind_ok (env_value parse_bool true (env.getenv (codes "MIJN_HOST_TRIGGER_CONTEXT"))) _ s
          h5 in
      let (check, e7, h7) =
        bind_ok
          (env_value parse_serial_check serial_check_best_effort
            (env.getenv (codes "MIJN_HOST_SERIAL_CHECK")))
          _ s h6 in
      subst (λ t. Values t × (t.pod_name ≡ p) × (t.namespace ≡ n)) (ok_injective _ s h7)
        (
          record {
            own = e1;
            interval = e2;
            age = e3;
            wait = e4;
            duration = e5;
            trigger = e6;
            check = e7;
          },
          refl,
          refl,
        )

  Values-load_values :
      (s : Settings) → Values s → load_values parse_duration env s.pod_name s.namespace ≡ ok s
  unfolding load_values
  Values-load_values s h =
      rw (h.own, h.interval, h.age, h.wait, h.duration, h.trigger, h.check) refl

  checks_of :
      (raw v : Text)
      → Gives parse_serial_check serial_check_best_effort raw v
      → ((raw ≡ []) × (v ≡ serial_check_best_effort)) ⊎ ((raw ≡ v) × IsSerialCheck v)
  checks_of raw v (default e e') = inl (e, e')
  checks_of raw v (written some_raw h) = inr ((check_lem raw v).0 h)

  of_checks :
      (raw v : Text)
      → ((raw ≡ []) × (v ≡ serial_check_best_effort)) ⊎ ((raw ≡ v) × IsSerialCheck v)
      → Gives parse_serial_check serial_check_best_effort raw v
  of_checks raw v (inl (e, e')) = default e e'
  of_checks raw v (inr (e, known)) =
      written (λ empty. known_not_empty v known (sym e ∙ empty)) ((check_lem raw v).1 (e, known))

  IsFrom-Values :
      (s : Settings)
      → Values s
      → s.pod_name ≡ or_else_text (env.getenv (codes "POD_NAME")) env.hostname
      → s.namespace
        ≡ or_else_text
            (env.getenv (codes "POD_NAMESPACE"))
            (file_namespace (env.read_file service_account_namespace_file))
      → s.namespace ≢ []
      → IsFrom parse_duration env s
  IsFrom-Values s h pod_name namespace some_namespace = record {
    pod_name = pod_name;
    namespace = namespace;
    some_namespace = some_namespace;
    own = env_value-Gives _ _ _ _ h.own;
    interval = env_value-Gives _ _ _ _ h.interval;
    age = env_value-Gives _ _ _ _ h.age;
    wait = env_value-Gives _ _ _ _ h.wait;
    duration = env_value-Gives _ _ _ _ h.duration;
    trigger = env_value-Gives _ _ _ _ h.trigger;
    check = checks_of _ _ (env_value-Gives _ _ _ _ h.check);
  }

  Values-IsFrom : (s : Settings) → IsFrom parse_duration env s → Values s
  Values-IsFrom s h = record {
    own = Gives-env_value _ _ _ _ h.own;
    interval = Gives-env_value _ _ _ _ h.interval;
    age = Gives-env_value _ _ _ _ h.age;
    wait = Gives-env_value _ _ _ _ h.wait;
    duration = Gives-env_value _ _ _ _ h.duration;
    trigger = Gives-env_value _ _ _ _ h.trigger;
    check = Gives-env_value _ _ _ _ (of_checks _ _ h.check);
  }

  abbrev namespace_of : Text
  namespace_of =
      or_else_text (env.getenv (codes "POD_NAMESPACE"))
        (file_namespace (env.read_file service_account_namespace_file))

  loaded : (s : Settings) → load_settings parse_duration env ≡ ok s → IsFrom parse_duration env s
  unfolding load_settings
  loaded s h = elim (Bool-cases (is_empty namespace_of)) [
    | inl none_there ↦ ground (arith, h, none_there)
    | inr there ↦
        let (values, pod_name, namespace) = load_values-Values _ namespace_of s (rw there at h) in
        IsFrom-Values s values pod_name namespace
          (λ blank. ground (arith, there, ap is_empty (sym namespace ∙ blank)))
  ]

  -- `loadSettings` returns these settings without an error exactly if each of them is what its
  -- variable says, or the default where the variable is empty: a Boolean, a duration, a known check of
  -- the serial. The namespace comes from its variable or else from the file of the service account,
  -- trimmed, and is not empty.
  pub load_settings-IsFrom :
      (s : Settings) → (load_settings parse_duration env ≡ ok s) ↔ IsFrom parse_duration env s
  unfolding load_settings
  load_settings-IsFrom s = (
    loaded s,
    (λ h.
        rw (← h.namespace, ← h.pod_name, not_is_empty s.namespace h.some_namespace)
          (Values-load_values s (Values-IsFrom s h))),
  )
