-- ===== src/Solver/Wiring.antt =====
-- solver.go: what the settings make of the lock and of the reconciler.
use cert_manager_webhook_mij.Prelude.{
  true, false, Text, codes, text_eq, text_eq_iff, ℕ, zero, suc, ◌<◌, ℤ, pos, negsuc, positive_or,
  Bool-cases, [], ◌≡◌, ◌↔◌, inl, inr, refl, arith,
}
use mathlib.Core.Path.{subst}
use cert_manager_webhook_mij.Failure.{Result, ok, err}
use cert_manager_webhook_mij.Settings.{
  Settings, Environment, serial_check_required, serial_check_off, load_settings,
}
use cert_manager_webhook_mij.Settings.Values.{Gives}
use cert_manager_webhook_mij.Settings.Loading.{load_settings-IsFrom}
use cert_manager_webhook_mij.Lock.{new_lease_lock}
use cert_manager_webhook_mij.Write.{new_reconciler}
use cert_manager_webhook_mij.Solver.Startup.{
  MijnHostSolver, request_timeout, serial_reader, solver_of, initialize,
}

pub record IsWired (s : Settings) (v : MijnHostSolver) : Type 0 where
  pub own : v.reconciler.own_acme_records ≡ s.own_acme_records
  pub required : (v.reconciler.serial_required ≡ true) ↔ (s.serial_check ≡ serial_check_required)
  pub unread : (v.reconciler.has_serial ≡ false) ↔ (s.serial_check ≡ serial_check_off)
  pub required_is_read : v.reconciler.serial_required ≡ true → v.reconciler.has_serial ≡ true
  pub attempts : 0 < v.reconciler.max_write_attempts
  pub age : 0 < v.reconciler.max_record_age
  pub duration : 0 < v.lock.duration
  pub wait : 0 < v.lock.wait_timeout
  pub poll : 0 < v.lock.poll_interval
  pub identity : v.lock.identity ≡ s.pod_name

positive_or_pos : (d : ℕ) (i : ℤ) → 0 < d → 0 < positive_or d i
positive_or_pos d (pos zero) h = h
positive_or_pos d (pos (suc n)) h = omega arith
positive_or_pos d (negsuc n) h = h

required_is_read :
    (mode : Text) → text_eq mode serial_check_required ≡ true → serial_reader mode ≡ true
unfolding serial_reader
required_is_read mode h = rw ((text_eq_iff mode serial_check_required).0 h) refl

solver_of-IsWired : (s : Settings) → IsWired s (solver_of s)
unfolding new_lease_lock new_reconciler serial_reader
solver_of-IsWired s = record {
  own = refl;
  required = text_eq_iff s.serial_check serial_check_required;
  unread = (
    (λ h. ground (arith, (text_eq_iff s.serial_check serial_check_off).0)),
    (λ e. ground (arith, (text_eq_iff s.serial_check serial_check_off).1 e)),
  );
  required_is_read = required_is_read s.serial_check;
  attempts = omega arith;
  age = positive_or_pos _ s.max_record_age (omega arith);
  duration = positive_or_pos _ s.lock_duration (omega arith);
  wait = positive_or_pos _ s.lock_wait_timeout (omega arith);
  poll = omega arith;
  identity = refl;
}

pub initialize-solver_of :
    (kube cm : Result (Unit {0})) (s : Settings) (v : MijnHostSolver)
    → initialize kube cm s ≡ ok v
    → solver_of s ≡ v
unfolding initialize
initialize-solver_of (err e) cm s v h = ground (arith, h)
initialize-solver_of (ok u) (ok u') s v h = ground (arith, h)
initialize-solver_of (ok u) (err e) s v h = elim (Bool-cases s.trigger_context) [
  | inl wanted ↦ ground (arith, h, wanted)
  | inr unwanted ↦ ground (arith, h, unwanted)
]

-- A solver that is initialised has what its settings say: it owns challenge records, requires the
-- serial and reads it exactly if they say so, never requires a serial that it does not read, names its
-- pod in the lock, and has positive numbers of attempts and durations whatever they say.
pub initialize-IsWired :
    (kube cm : Result (Unit {0})) (s : Settings) (v : MijnHostSolver)
    → initialize kube cm s ≡ ok v
    → IsWired s v
initialize-IsWired kube cm s v h =
    subst (IsWired s) (initialize-solver_of kube cm s v h) (solver_of-IsWired s)

pub default_of :
    (parse : Text → Result ℤ) (d v : ℤ) (raw : Text) → Gives parse d raw v → raw ≡ [] → v ≡ d
default_of parse d v raw (Gives.default e e') empty = e'
default_of parse d v raw (Gives.written some_raw h) empty = absurd (some_raw empty)

-- With the default times of the lock, a request that is let run until its timeout is over before its
-- Lease is, and waits for the lock for a part of that time only.
pub default_times :
    (parse_duration : Text → Result ℤ) (env : Environment) (kube cm : Result (Unit {0}))
    (s : Settings) (v : MijnHostSolver)
    → env.getenv (codes "MIJN_HOST_LOCK_WAIT_TIMEOUT") ≡ []
    → env.getenv (codes "MIJN_HOST_LOCK_DURATION") ≡ []
    → load_settings parse_duration env ≡ ok s
    → initialize kube cm s ≡ ok v
    → (v.lock.wait_timeout < request_timeout) × (request_timeout < v.lock.duration)
unfolding new_lease_lock
default_times parse_duration env kube cm s v no_wait no_duration loaded initialized =
    let from = (load_settings-IsFrom parse_duration env s).0 loaded in
    let wait = default_of parse_duration _ s.lock_wait_timeout _ from.wait no_wait in
    let duration = default_of parse_duration _ s.lock_duration _ from.duration no_duration in
    subst (λ u. (u.lock.wait_timeout < request_timeout) × (request_timeout < u.lock.duration))
      (initialize-solver_of kube cm s v initialized) (rw (wait, duration) (omega arith))
