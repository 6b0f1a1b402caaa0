-- ===== src/Lock/Lasting.antt =====
-- zone/lock.go: how long a Lease lasts, in whole seconds of an `int32`.
use cert_manager_webhook_mij.Prelude.{
  ℕ, ◌+◌, ◌*◌, ◌/◌, ◌^◌, ◌≤◌, ◌<◌, true, false, Text, some, pos, ◌≡◌, refl, arith,
}
use cert_manager_webhook_mij.Lock.{Lease, LeaseLock, to_int32, expired, fresh, taken_over, second}

to_int32_lem : (n : ℕ) → n < 2 ^ 31 → to_int32 n ≡ pos n
unfolding to_int32
to_int32_lem n h = ground arith

-- A Lease lasts from `now` for that time, up to a second.
pub record Lasts (now duration : ℕ) (lease : Lease) : Type 0 where
  pub live : (checked : ℕ) → checked + second ≤ now + duration → expired checked lease ≡ false
  pub dead : (checked : ℕ) → now + duration < checked → expired checked lease ≡ true

Lasts-seconds :
    (now duration : ℕ) (lease : Lease)
    → lease.renew_time ≡ some now
    → lease.lease_duration_seconds ≡ some (pos (duration / second))
    → Lasts now duration lease
unfolding expired
Lasts-seconds now duration lease renewed seconds = record {
  live = λ checked h. rw (renewed, seconds) (ground arith);
  dead = λ checked h. rw (renewed, seconds) (ground arith);
}

-- A Lease that `tryAcquire` sends, new or taken over, is live until the lock's duration is over, less
-- a second at most that the division drops, and over after it. The duration fits an `int32` of
-- seconds.
pub Lasts-sent :
    (l : LeaseLock) (name holder : Text) (now : ℕ) (old : Lease)
    → l.duration < 2 ^ 31 * second
    → Lasts now l.duration (fresh l name holder now)
      × Lasts now l.duration (taken_over l name holder now old)
Lasts-sent l name holder now old h =
    let fits : l.duration / second < 2 ^ 31 = omega arith in
    let seconds = to_int32_lem (l.duration / second) fits in
    (
      Lasts-seconds now l.duration (fresh l name holder now) refl (rw seconds refl),
      Lasts-seconds now l.duration (taken_over l name holder now old) refl (rw seconds refl),
    )
