-- ===== src/Settings.antt =====
-- settings.go: the settings of the process, from its environment. Durations are counted in
-- nanoseconds; their parser, of package time, is an argument.
pub mod Values
pub mod Loading
use cert_manager_webhook_mij.Prelude.{
  Bool, true, false, ◌||◌, List, [], ◌∷◌, Text, codes, text_eq, is_empty, ltb, leb, ◌==◌, ℕ, ◌&&◌,
  ◌*◌, ◌+◌, if◌then◌else◌, ℤ, pos,
}
use cert_manager_webhook_mij.Failure.{
  Failure, no_namespace, bad_bool, unknown_serial_check, Result, ok, err, ◌>>=◌,
}
use cert_manager_webhook_mij.Lock.{second}

-- What the process reads: its environment, where a variable that is not set is empty, its host's name
-- and a file.
pub record Environment : Type 0 where
  pub getenv : Text → Text
  pub hostname : Text
  pub read_file : Text → Result Text

-- `Settings`
pub record Settings : Type 0 where
  pub pod_name : Text
  pub namespace : Text
  pub own_acme_records : Bool
  pub sweep_interval : ℤ
  pub max_record_age : ℤ
  pub lock_wait_timeout : ℤ
  pub lock_duration : ℤ
  pub trigger_context : Bool
  pub serial_check : Text

abbrev pub serial_check_best_effort : Text
serial_check_best_effort = codes "best-effort"

abbrev pub serial_check_required : Text
serial_check_required = codes "required"

abbrev pub serial_check_off : Text
serial_check_off = codes "off"

abbrev pub service_account_namespace_file : Text
service_account_namespace_file = codes "/var/run/secrets/kubernetes.io/serviceaccount/namespace"

abbrev pub one_of : Text → List Text → Bool
one_of t [] = false
one_of t (u ∷ us) = text_eq t u || one_of t us

-- strconv.ParseBool
unfoldable pub parse_bool : Text → Result Bool
unfolding text_eq
parse_bool t =
    if one_of t
      (codes "1" ∷ codes "t" ∷ codes "T" ∷ codes "TRUE" ∷ codes "true" ∷ codes "True" ∷ [])
    then ok true
    else if one_of t
        (codes "0" ∷ codes "f" ∷ codes "F" ∷ codes "FALSE" ∷ codes "false" ∷ codes "False" ∷ [])
    then ok false
    else err bad_bool

-- unicode.IsSpace
unfoldable pub is_space : ℕ → Bool
is_space c =
    (leb 9 c && leb c 13)
    || c == 32
    || c == 0x85
    || c == 0xA0
    || c == 0x1680
    || (leb 0x2000 c && leb c 0x200A)
    || c == 0x2028
    || c == 0x2029
    || c == 0x202F
    || c == 0x205F
    || c == 0x3000

-- strings.TrimSpace: at the front, then at the back.
unfoldable pub trim_space_left : Text → Text
unfolding is_space
trim_space_left [] = []
trim_space_left (c ∷ t) = let rest = trim_space_left t in if is_space c then rest else c ∷ t

unfoldable pub trim_space_right : Text → Text
unfolding is_space
trim_space_right [] = []
trim_space_right (c ∷ t) =
    let rest = trim_space_right t in if is_space c && is_empty rest then [] else c ∷ rest

unfoldable pub trim_space : Text → Text
unfolding trim_space_left trim_space_right
trim_space t = trim_space_right (trim_space_left t)

-- `envBool` and `envDuration`: the value of a variable, or the default where it is empty.
unfoldable pub env_value {ℓ} : {A : Type ℓ} → (Text → Result A) → A → Text → Result A
env_value parse def [] = ok def
env_value parse def (c ∷ raw) = parse (c ∷ raw)

-- The `switch` over `MIJN_HOST_SERIAL_CHECK`.
unfoldable pub parse_serial_check : Text → Result Text
unfolding text_eq
parse_serial_check v =
    if one_of v (serial_check_best_effort ∷ serial_check_required ∷ serial_check_off ∷ [])
    then ok v
    else err unknown_serial_check

abbrev pub or_else_text : Text → Text → Text
or_else_text [] t = t
or_else_text (c ∷ s) t = c ∷ s

-- The namespace in the file of the service account, or nothing.
unfoldable pub file_namespace : Result Text → Text
unfolding trim_space
file_namespace (ok raw) = trim_space raw
file_namespace (err e) = []

module _ (parse_duration : Text → Result ℤ) (env : Environment) where
  abbrev env_bool : Text → Bool → Result Bool
  env_bool name def = env_value parse_bool def (env.getenv name)

  abbrev env_duration : Text → ℤ → Result ℤ
  env_duration name def = env_value parse_duration def (env.getenv name)

  -- `loadSettings` behind its check of the namespace.
  unfoldable pub load_values : (pod_name namespace : Text) → Result Settings
  unfolding env_value parse_bool parse_serial_check
  load_values pod_name namespace = do
    own ← env_bool (codes "MIJN_HOST_OWN_ACME_RECORDS") true
    interval ← env_duration (codes "MIJN_HOST_SWEEP_INTERVAL") (pos (15 * 60 * second))
    age ← env_duration (codes "MIJN_HOST_MAX_RECORD_AGE") (pos (24 * 3600 * second))
    wait ← env_duration (codes "MIJN_HOST_LOCK_WAIT_TIMEOUT") (pos (25 * second))
    duration ← env_duration (codes "MIJN_HOST_LOCK_DURATION") (pos (60 * second))
    trigger ← env_bool (codes "MIJN_HOST_TRIGGER_CONTEXT") true
    check ←
        env_value parse_serial_check serial_check_best_effort
          (env.getenv (codes "MIJN_HOST_SERIAL_CHECK"))
    ok (record {
      pod_name = pod_name;
      namespace = namespace;
      own_acme_records = own;
      sweep_interval = interval;
      max_record_age = age;
      lock_wait_timeout = wait;
      lock_duration = duration;
      trigger_context = trigger;
      serial_check = check;
    })

  -- `loadSettings`
  unfoldable pub load_settings : Result Settings
  unfolding file_namespace load_values
  load_settings =
      let pod_name = or_else_text (env.getenv (codes "POD_NAME")) env.hostname in
      let namespace =
        or_else_text (env.getenv (codes "POD_NAMESPACE"))
          (file_namespace (env.read_file service_account_namespace_file)) in
      if is_empty namespace then err no_namespace else load_values pod_name namespace
