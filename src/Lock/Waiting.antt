-- ===== src/Lock/Waiting.antt =====
-- zone/lock.go: the wait of `Acquire`, which ends, and what its results mean.
use cert_manager_webhook_mij.Prelude.{
  ℕ, zero, suc, ◌+◌, ◌*◌, ◌≤◌, ◌<◌, Bool, true, false, ◌++◌, Text, codes, none, some, ◌≡◌, ◌≢◌,
  refl, ap, arith,
}
use cert_manager_webhook_mij.Failure.{Result, ok, err}
use cert_manager_webhook_mij.Names.{object_name}
use cert_manager_webhook_mij.Kubernetes.{Client}
use cert_manager_webhook_mij.Lock.{Lease, LeaseLock, try_acquire, acquire_loop, acquire}
use cert_manager_webhook_mij.Lock.Exclusion.{LeaseLaws, IsHeldBy, try_acquire-IsHeldBy}

unfoldable has_acquired : Result (Bool × Text) → Bool
has_acquired (ok (acquired, _)) = acquired
has_acquired (err _) = false

has_acquired_lem :
    (r : Result (Bool × Text)) → has_acquired r ≡ true → (by : Text) × (r ≡ ok (true, by))
unfolding has_acquired
has_acquired_lem (ok (true, by)) h = (by, refl)
has_acquired_lem (ok (false, by)) h = ground arith
has_acquired_lem (err e) h = ground arith

module _ {ℓ} {State : Type ℓ} (leases : Client Lease State) (l : LeaseLock) (clock : State → ℕ)
    (pause : State → Result (Unit {0}) × State) where
  -- Calls do not turn the clock back.
  abbrev pub CallsKeepTime : Type ℓ
  CallsKeepTime =
      (name holder : Text) (s : State)
      → clock s ≤ clock (try_acquire leases l clock name holder s).1

  -- A pause lasts for the poll interval at least.
  abbrev pub PausesLast : Type ℓ
  PausesLast = (s : State) → clock s + l.poll_interval ≤ clock (pause s).1

  acquire_loop_ends :
      CallsKeepTime
      → PausesLast
      → (n : ℕ) (name holder : Text) (deadline : ℕ) (s : State)
      → deadline < clock s + n * l.poll_interval
      → (acquire_loop leases l clock pause (suc n) name holder deadline s).0 ≢ none
  unfolding acquire_loop
  acquire_loop_ends calls pauses zero name holder deadline s h = ground (arith, calls name holder s)
  acquire_loop_ends calls pauses (suc n) name holder deadline s h = ground (
    arith,
    calls name holder s,
    pauses (try_acquire leases l clock name holder s).1,
    acquire_loop_ends calls pauses n name holder deadline
        (pause (try_acquire leases l clock name holder s).1).1,
  )

  -- `Acquire` comes to an end: with n + 1 passes it has a result, for any n poll intervals that last
  -- longer than the wait timeout. Calls do not turn the clock back, and a pause lasts for the poll
  -- interval at least.
  pub acquire_ends :
      CallsKeepTime
      → PausesLast
      → (n : ℕ) (zone token : Text) (s : State) → l.wait_timeout < n * l.poll_interval
      → (acquire leases l clock pause (suc n) zone token s).0 ≢ none
  unfolding acquire
  acquire_ends calls pauses n zone token s h =
      acquire_loop_ends calls pauses n (object_name zone) (l.identity ++ (codes "/" ++ token))
        (clock s + l.wait_timeout) s (omega (arith, h))

  module _ (laws : LeaseLaws leases) where
    acquired_by_try :
        (name holder : Text) (s : State)
        → has_acquired (try_acquire leases l clock name holder s).0 ≡ true
        → IsHeldBy leases (try_acquire leases l clock name holder s).1 name holder
    acquired_by_try name holder s h =
        let attempt = try_acquire leases l clock name holder s in
        let (by, e) = has_acquired_lem attempt.0 h in
        (try_acquire-IsHeldBy leases laws l clock name holder s attempt.1 by
          (ap (λ r. (r, attempt.1)) e)).1

    acquire_loop-IsHeldBy :
        (n : ℕ) (name holder : Text) (deadline : ℕ) (s s' : State)
        → acquire_loop leases l clock pause n name holder deadline s ≡ (some (ok tt), s')
        → IsHeldBy leases s' name holder
    unfolding acquire_loop has_acquired
    acquire_loop-IsHeldBy zero name holder deadline s s' h = ground arith
    acquire_loop-IsHeldBy (suc n) name holder deadline s s' h = ground (
      arith,
      acquired_by_try name holder s,
      acquire_loop-IsHeldBy n name holder deadline
          (pause (try_acquire leases l clock name holder s).1).1 s',
    )

    -- When `Acquire` returns without an error, the Lease of the zone names its caller, by identity
    -- and token, however many passes it took.
    pub acquire-IsHeldBy :
        (passes : ℕ) (zone token : Text) (s s' : State)
        → acquire leases l clock pause passes zone token s ≡ (some (ok tt), s')
        → IsHeldBy leases s' (object_name zone) (l.identity ++ (codes "/" ++ token))
    unfolding acquire
    acquire-IsHeldBy passes zone token s s' h =
        acquire_loop-IsHeldBy passes (object_name zone) (l.identity ++ (codes "/" ++ token))
          (clock s + l.wait_timeout) s s' h
