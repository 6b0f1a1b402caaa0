-- ===== src/Lock/Releasing.antt =====
-- zone/lock.go: what `release` does to the cluster.
use cert_manager_webhook_mij.Prelude.{
  ℕ, zero, suc, not, [], Text, if◌then◌else◌, Bool-cases, some, ◌≡◌, refl, inl, inr, text_eq,
  text_eq_iff,
}
use cert_manager_webhook_mij.Failure.{conflict, Result, ok, err}
use cert_manager_webhook_mij.Kubernetes.{Client}
use cert_manager_webhook_mij.Lock.{Lease, deref, release_loop, release}

module _ {ℓ κ} {State : Type ℓ} (leases : Client Lease State) (P : State → Type κ)
    (name holder : Text) where
  -- `P` is kept by each update that gives up a Lease which was just read as held by `holder`.
  abbrev pub KeptByOwn : Type (ℓ ⊔ κ)
  KeptByOwn =
      (s : State) (lease : Lease)
      → leases.get s name ≡ ok lease
      → deref lease.holder_identity [] ≡ holder
      → P s
      → P (leases.update s (record lease { holder_identity = some [] })).1

  -- The end of a pass: another one after a conflict.
  after_update :
      (r : Result Lease) (again s' : State)
      → P again
      → P s'
      → P (elim r as (λ x. State) [
        | ok _ ↦ s'
        | err e ↦ elim e as (λ x. State) [ conflict ↦ again | _ ↦ s' ]
      ])
  after_update (ok lease) again s' more done = done
  after_update (err conflict) again s' more done = more
  after_update (err e) again s' more done = done

  release_loop_lem : KeptByOwn → (n : ℕ) (s : State) → P s → P (release_loop leases n name holder s)
  unfolding release_loop
  release_loop_lem kept zero s p = p
  release_loop_lem kept (suc n) s p =
      found (leases.get s name) refl (release_loop_lem kept n s p)
        (λ s' p'. release_loop_lem kept n s' p')
    where
      found :
          (r : Result Lease)
          → leases.get s name ≡ r
          → P (release_loop leases n name holder s)
          → ((s' : State) → P s' → P (release_loop leases n name holder s'))
          → P (elim r as (λ x. State) [
            | err e ↦ release_loop leases n name holder s
            | ok lease ↦
                if not (text_eq (deref lease.holder_identity []) holder)
                then s
                else let (r', s') = leases.update s (record lease { holder_identity = some [] }) in
                  elim r' as (λ x. State) [
                    | ok _ ↦ s'
                    | err e ↦ elim e as (λ x. State) [
                      | conflict ↦ release_loop leases n name holder s'
                      | _ ↦ s'
                    ]
                  ]
          ])
      found (err e) got again later = again
      found (ok lease) got again later =
          elim (Bool-cases (text_eq (deref lease.holder_identity []) holder)) [
            | inr other ↦ rw other p
            | inl own ↦
                let updated = leases.update s (record lease { holder_identity = some [] }) in
                let p' =
                  kept s lease got ((text_eq_iff (deref lease.holder_identity []) holder).0 own)
                    p in
                rw own (
                  after_update updated.0 (release_loop leases n name holder updated.1) updated.1
                    (later updated.1 p') p')
          ]

  -- A release does nothing to the cluster but give up, by updates, Leases that it has just read as its
  -- own: whatever those updates keep, the release keeps, in each of its attempts and on each error.
  pub release_keeps : KeptByOwn → (s : State) → P s → P (release leases name holder s)
  unfolding release
  release_keeps kept s p = release_loop_lem kept 3 s p
