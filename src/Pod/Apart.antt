-- ===== src/Pod/Apart.antt =====
-- Calls about Leases leave ConfigMaps alone.
use cert_manager_webhook_mij.Prelude.{ℕ, zero, suc, Text, arith}
use cert_manager_webhook_mij.Failure.{Result}
use cert_manager_webhook_mij.Kubernetes.{Client}
use cert_manager_webhook_mij.Lock.{
  Lease, LeaseLock, Decision, failing, held, creating, updating, decide, commit, try_acquire,
  acquire_loop, acquire, release,
}
use cert_manager_webhook_mij.Lock.Releasing.{release_keeps}

module _ {Cluster : Type 0} (leases : Client Lease Cluster) (P : Cluster → Type 0)
    (create_kept : (s : Cluster) (o : Lease) → P s → P (leases.create s o).1)
    (update_kept : (s : Cluster) (o : Lease) → P s → P (leases.update s o).1) where
  commit_kept : (d : Decision) (s : Cluster) → P s → P (commit leases d s).1
  unfolding commit
  commit_kept (failing e) s h = h
  commit_kept (held by) s h = h
  commit_kept (creating lease) s h = create_kept s lease h
  commit_kept (updating lease) s h = update_kept s lease h

  pub released_kept : (name holder : Text) (s : Cluster) → P s → P (release leases name holder s)
  released_kept name holder s h =
      release_keeps leases P name holder (λ s' lease found own h'. update_kept s' _ h') s h

  module _ (l : LeaseLock) (clock : Cluster → ℕ) (pause : Cluster → Result (Unit {0}) × Cluster)
      (pause_kept : (s : Cluster) → P s → P (pause s).1) where
    try_kept :
        (name holder : Text) (s : Cluster) → P s → P (try_acquire leases l clock name holder s).1
    unfolding try_acquire
    try_kept name holder s h =
        commit_kept (decide l name holder (clock s) (clock s) (leases.get s name)) s h

    loop_kept :
        (n : ℕ) (name holder : Text) (deadline : ℕ) (s : Cluster)
        → P s
        → P (acquire_loop leases l clock pause n name holder deadline s).1
    unfolding acquire_loop
    loop_kept zero name holder deadline s h = h
    loop_kept (suc n) name holder deadline s h =
        let tried = try_acquire leases l clock name holder s in
        let h1 = try_kept name holder s h in
        ground
          (arith, h1, pause_kept tried.1 h1, loop_kept n name holder deadline (pause tried.1).1)

    pub acquired_kept :
        (passes : ℕ) (zone token : Text) (s : Cluster)
        → P s
        → P (acquire leases l clock pause passes zone token s).1
    unfolding acquire
    acquired_kept passes zone token s h = loop_kept passes _ _ _ s h
