-- ===== src/Tests/Pods.antt =====
-- A run of the lock among pods.
use cert_manager_webhook_mij.Prelude.{
  ℕ, ◌*◌, true, [], ◌∷◌, Text, All, codes, pos, some, ◌≡◌, ◌≢◌, refl, arith,
}
use cert_manager_webhook_mij.Failure.{ok}
use cert_manager_webhook_mij.Lock.{
  Lease, decide, commit, second, fresh, taken_over, try_acquire, to_int32,
}
use cert_manager_webhook_mij.Lock.Holding.{
  Pods, look, Meanwhile, here, next, IsKept, lock_is_exclusive,
}
use cert_manager_webhook_mij.Lock.Lasting.{Lasts, Lasts-sent}
use cert_manager_webhook_mij.Tests.Cluster.{slot_get, slot_update}
use cert_manager_webhook_mij.Tests.Locking.{
  Cluster, leases, leases-LeaseLaws, pod_lock, lease_name, left_behind, token_a, taken_by_a,
  decided_by_b,
}

abbrev until : ℕ
until = 122 * second

abbrev won_lease : Lease
won_lease = record (taken_over pod_lock lease_name token_a (62 * second) left_behind) {
  resource_version = 1 ∷ 1 ∷ 1 ∷ [];
}

-- The second pod has decided on a takeover, and reads the Lease again.
abbrev start : Pods leases lease_name token_a until
start = (taken_by_a, decided_by_b ∷ [])

start-IsKept : IsKept leases lease_name token_a until won_lease start
unfolding try_acquire slot_get slot_update
start-IsKept = record {
  stored = refl;
  harmless = ((refl, ((λ e. ground (arith, e)), (λ e. ground (arith, e)))), tt);
}

won_seconds : won_lease.lease_duration_seconds ≡ some (pos 60)
unfolding to_int32
won_seconds = refl

abbrev looked : Pods leases lease_name token_a until
looked = (
  taken_by_a,
  decide pod_lock lease_name (codes "pod-b/9") (90 * second) (90 * second)
        (leases.get taken_by_a lease_name)
      ∷ decided_by_b
      ∷ [],
)

run_of_b : Meanwhile leases lease_name token_a until start looked
run_of_b = next here (
    look taken_by_a (decided_by_b ∷ []) pod_lock (codes "pod-b/9") (90 * second) (90 * second)
      (omega arith))

lock_is_exclusive_example :
    (leases.get taken_by_a lease_name ≡ ok won_lease)
    × All
        (λ e. (by : Text) (s' : Cluster) → commit leases e taken_by_a ≢ (ok (true, by), s'))
        looked.1
lock_is_exclusive_example =
    lock_is_exclusive leases lease_name token_a until won_lease leases-LeaseLaws (62 * second) 60
      refl (λ e. ground (arith, e)) refl won_seconds (omega arith) run_of_b start-IsKept

Lasts-sent_example :
    Lasts 5 pod_lock.duration (fresh pod_lock lease_name token_a 5)
    × Lasts 5 pod_lock.duration (taken_over pod_lock lease_name token_a 5 left_behind)
Lasts-sent_example = Lasts-sent pod_lock lease_name token_a 5 left_behind (omega arith)
