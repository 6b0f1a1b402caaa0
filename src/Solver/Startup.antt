-- ===== src/Solver/Startup.antt =====
-- solver.go: how `Initialize` sets the zone package up, and the sweeps that it starts.
use cert_manager_webhook_mij.Prelude.{
  Bool, true, false, not, List, [], ◌∷◌, Text, codes, text_eq, ℕ, zero, suc, ◌*◌, ℤ, pos, negsuc,
  if◌then◌else◌,
}
use cert_manager_webhook_mij.Failure.{Result, ok, err}
use cert_manager_webhook_mij.Server.{Solver}
use cert_manager_webhook_mij.Settings.{Settings, serial_check_required, serial_check_off}
use cert_manager_webhook_mij.Lock.{LeaseLock, new_lease_lock, second}
use cert_manager_webhook_mij.World.{Outside, Action, pure, try, ◌>>=◌, ◌>>◌}
use cert_manager_webhook_mij.Write.{Reconciler, new_reconciler}
use cert_manager_webhook_mij.Reconciler.{sweep}

-- `mijnHostSolver` behind `Initialize`: the client of cert-manager that it may have, and its handler.
pub record MijnHostSolver : Type 0 where
  pub has_cm_client : Bool
  pub lock : LeaseLock
  pub reconciler : Reconciler

-- `requestTimeout`
abbrev pub request_timeout : ℕ
request_timeout = 50 * second

-- `serialReader`: whether there is a reader.
unfoldable pub serial_reader : Text → Bool
unfolding text_eq
serial_reader mode = not (text_eq mode serial_check_off)

abbrev pub lock_of : Settings → LeaseLock
lock_of s = new_lease_lock s.pod_name (record {
  duration = s.lock_duration;
  wait_timeout = s.lock_wait_timeout;
  poll_interval = pos 0;
})

abbrev pub reconciler_of : Settings → Reconciler
reconciler_of s = new_reconciler (record {
  own_acme_records = s.own_acme_records;
  max_record_age = s.max_record_age;
  has_serial = serial_reader s.serial_check;
  serial_required = text_eq s.serial_check serial_check_required;
  max_write_attempts = pos 0;
})

abbrev pub solver_of : Settings → MijnHostSolver
solver_of s = record {
  has_cm_client = s.trigger_context;
  lock = lock_of s;
  reconciler = reconciler_of s;
}

-- `Initialize`, with the clients of Kubernetes and of cert-manager or the errors of their making.
unfoldable pub initialize : Result (Unit {0}) → Result (Unit {0}) → Settings → Result MijnHostSolver
unfolding new_lease_lock new_reconciler serial_reader
initialize (err e) cm s = err e
initialize (ok _) (ok _) s = ok (solver_of s)
initialize (ok _) (err e) s = if s.trigger_context then err e else ok (solver_of s)

-- The error of a result.
abbrev pub outcome {ℓ} : {A : Type ℓ} → Result A → Result (Unit {0})
outcome (ok a) = ok tt
outcome (err e) = err e

-- `newSolver` with `Name`, as the server sees it: a configuration of clients gives the clients of
-- Kubernetes and of cert-manager, or the errors of their making.
abbrev pub new_solver : (kube cm : Text → Result (Unit {0})) → Settings → Solver
new_solver kube cm s = record {
  name = codes "mijn-host";
  initialize = λ config stop. outcome (initialize (kube config) (cm config) s);
}

-- What `runSweeps` waits for: its timers, or the end of the process.
pub data Signal : Type 0 where
  fired stopped : Signal

abbrev pub is_positive : ℤ → Bool
is_positive (pos zero) = false
is_positive (pos (suc n)) = true
is_positive (negsuc n) = false

module _ (w : Outside) (r : Reconciler) where
  -- The closure `sweep`: an error is logged. Its timeout of 10 minutes cancels calls, in the answers of
  -- the `Outside`.
  unfoldable pub sweep_once : Action (Unit {0})
  sweep_once = try (sweep w r) >>= λ _. pure tt

  -- The loop over the ticker, for the signals that come.
  unfoldable pub sweep_loop : List Signal → Action (Unit {0})
  unfolding sweep_once
  sweep_loop [] = pure tt
  sweep_loop (stopped ∷ signals) = pure tt
  sweep_loop (fired ∷ signals) = do sweep_once; sweep_loop signals

  -- `runSweeps`: the sweep behind the start, and the loop.
  unfoldable pub run_sweeps : ℤ → List Signal → Action (Unit {0})
  unfolding sweep_loop
  run_sweeps interval [] = pure tt
  run_sweeps interval (stopped ∷ signals) = pure tt
  run_sweeps interval (fired ∷ signals) =
      if is_positive interval then (do sweep_once; sweep_loop signals) else pure tt
