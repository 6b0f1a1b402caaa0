-- ===== src/Tests/Startup.antt =====
-- A pod that starts and serves.
use cert_manager_webhook_mij.Prelude.{
  true, false, [], ◌∷◌, Text, codes, text_eq, if◌then◌else◌, ℤ, pos, ◌*◌, ◌+◌, ◌≡◌, ◌↔◌, refl,
  arith,
}
use cert_manager_webhook_mij.Failure.{bad_bool, Result, ok, err}
use cert_manager_webhook_mij.Lock.{Lease, expired, fresh, taken_over, second}
use cert_manager_webhook_mij.Settings.{Environment, Settings, serial_check_required, load_settings}
use cert_manager_webhook_mij.Settings.Loading.{IsFrom, load_settings-IsFrom}
use cert_manager_webhook_mij.Solver.Startup.{request_timeout, lock_of, solver_of, initialize}
use cert_manager_webhook_mij.Solver.Covering.{request_keeps_lock}

-- The serial is required, challenge records of others are kept, and the file has the namespace.
abbrev pub environment : Environment
environment = record {
  getenv = λ name.
      if text_eq name (codes "MIJN_HOST_SERIAL_CHECK")
      then serial_check_required
      else if text_eq name (codes "MIJN_HOST_OWN_ACME_RECORDS")
      then codes "F"
      else [];
  hostname = codes "pod-a";
  read_file = λ path. ok (codes " certs\n");
}

-- Every text stands for a second.
abbrev pub parse_duration : Text → Result ℤ
parse_duration [] = err bad_bool
parse_duration (c ∷ t) = ok (pos second)

abbrev settings : Settings
settings = record {
  pod_name = codes "pod-a";
  namespace = codes "certs";
  own_acme_records = false;
  sweep_interval = pos (15 * 60 * second);
  max_record_age = pos (24 * 3600 * second);
  lock_wait_timeout = pos (25 * second);
  lock_duration = pos (60 * second);
  trigger_context = true;
  serial_check = serial_check_required;
}

loads : load_settings parse_duration environment ≡ ok settings
unfolding load_settings
loads = refl

initializes : initialize (ok tt) (ok tt) settings ≡ ok (solver_of settings)
unfolding initialize
initializes = refl

abbrev left_lease : Lease
left_lease = fresh (lock_of settings) (codes "zone") (codes "pod-b/2") 0

-- A Lease taken at time 7, looked at when the request's timeout is over.
request_keeps_lock_example :
    (expired (7 + request_timeout) (fresh (lock_of settings) (codes "zone") (codes "pod-a/1") 7)
      ≡ false)
    × (expired
          (7 + request_timeout)
          (taken_over (lock_of settings) (codes "zone") (codes "pod-a/1") 7 left_lease)
        ≡ false)
unfolding text_eq
request_keeps_lock_example =
    request_keeps_lock parse_duration environment (ok tt) (ok tt) settings (solver_of settings)
      (codes "zone") (codes "pod-a/1") 7 (7 + request_timeout) left_lease refl loads initializes
      (omega arith)

load_settings-IsFrom_example :
    (load_settings parse_duration environment ≡ ok settings)
    ↔ IsFrom parse_duration environment settings
load_settings-IsFrom_example = load_settings-IsFrom parse_duration environment settings
