-- ===== src/Solver/Covering.antt =====
-- solver.go over settings.go and zone/lock.go: the lock of a zone for the time of a request.
use cert_manager_webhook_mij.Prelude.{
  ℕ, [], Text, codes, ◌+◌, ◌*◌, ◌≤◌, false, ℤ, positive_or, ◌≡◌, sym, ap, ◌∙◌, arith,
}
use cert_manager_webhook_mij.Failure.{Result, ok}
use cert_manager_webhook_mij.Lock.{Lease, new_lease_lock, expired, fresh, taken_over, second}
use cert_manager_webhook_mij.Lock.Lasting.{Lasts-sent}
use cert_manager_webhook_mij.Settings.{Environment, Settings, load_settings}
use cert_manager_webhook_mij.Settings.Loading.{load_settings-IsFrom}
use cert_manager_webhook_mij.Solver.Startup.{MijnHostSolver, request_timeout, initialize}
use cert_manager_webhook_mij.Solver.Wiring.{initialize-solver_of, default_of}

default_duration :
    (parse_duration : Text → Result ℤ) (env : Environment) (kube cm : Result (Unit {0}))
    (s : Settings) (v : MijnHostSolver)
    → env.getenv (codes "MIJN_HOST_LOCK_DURATION") ≡ []
    → load_settings parse_duration env ≡ ok s
    → initialize kube cm s ≡ ok v
    → v.lock.duration ≡ 60 * second
unfolding new_lease_lock
default_duration parse_duration env kube cm s v unset loaded initialized =
    let from = (load_settings-IsFrom parse_duration env s).0 loaded in
    let duration = default_of parse_duration _ s.lock_duration _ from.duration unset in
    ap (λ u. u.lock.duration) (sym (initialize-solver_of kube cm s v initialized))
    ∙ ap (positive_or (60 * second)) duration

-- With the default duration of the lock, a Lease that the pod takes for a request, new or from
-- another holder, is not over at any time up to the request's timeout.
pub request_keeps_lock :
    (parse_duration : Text → Result ℤ) (env : Environment) (kube cm : Result (Unit {0}))
    (s : Settings) (v : MijnHostSolver) (name holder : Text) (now checked : ℕ) (old : Lease)
    → env.getenv (codes "MIJN_HOST_LOCK_DURATION") ≡ []
    → load_settings parse_duration env ≡ ok s
    → initialize kube cm s ≡ ok v
    → checked ≤ now + request_timeout
    → (expired checked (fresh v.lock name holder now) ≡ false)
      × (expired checked (taken_over v.lock name holder now old) ≡ false)
request_keeps_lock parse_duration env kube cm s v name holder now checked old unset loaded
      initialized in_time =
    let duration = default_duration parse_duration env kube cm s v unset loaded initialized in
    let (new, over) = Lasts-sent v.lock name holder now old (omega (arith, duration)) in
    let early : checked + second ≤ now + v.lock.duration = omega (arith, duration, in_time) in
    (new.live checked early, over.live checked early)
