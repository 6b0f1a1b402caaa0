-- ===== src/Lock/Exclusion.antt =====
-- zone/lock.go: who holds a Lease behind `tryAcquire`.
use cert_manager_webhook_mij.Prelude.{
  ℕ, true, [], Text, Bool-cases, ℤ, Option, some, ◌≡◌, ◌≢◌, refl, ap, ◌∙◌, inl, inr, arith,
  nil_of_is_empty,
}
use cert_manager_webhook_mij.Failure.{Failure, not_found, already_exists, conflict, Result, ok, err}
use cert_manager_webhook_mij.Payload.{is_empty}
use cert_manager_webhook_mij.Kubernetes.{Client, Laws}
use cert_manager_webhook_mij.Lock.{
  Lease, LeaseLock, deref, expired, Decision, failing, held, creating, updating, fresh, taken_over,
  decide, creation, takeover, commit, try_acquire,
}

-- What the API stores of a Lease.
abbrev pub lease_view : Lease → Option Text × Option ℤ
lease_view lease = (lease.holder_identity, lease.lease_duration_seconds)

abbrev pub LeaseLaws {ℓ} : {State : Type ℓ} → Client Lease State → Type ℓ
LeaseLaws leases = Laws leases (λ lease. lease.name) (λ lease. lease.resource_version) lease_view

-- The lock may be taken: there is no Lease, or nobody holds it, or its time is over.
pub data IsFree (now : ℕ) : Result Lease → Type 0 where
  absent : IsFree now (err not_found)
  unheld : (lease : Lease) → deref lease.holder_identity [] ≡ [] → IsFree now (ok lease)
  over : (lease : Lease) → expired now lease ≡ true → IsFree now (ok lease)

-- The Lease of that name is held by `holder`.
unfoldable pub IsHeldBy {ℓ} :
    {State : Type ℓ} → Client Lease State → State → (name holder : Text) → Type 0
IsHeldBy leases s name holder =
    (lease : Lease) × ((leases.get s name ≡ ok lease) × (lease.holder_identity ≡ some holder))

pub creation_won :
    (r : Result Lease) (by : Text) → creation r ≡ ok (true, by) → (lease : Lease) × (r ≡ ok lease)
unfolding creation
creation_won (ok lease) by h = (lease, refl)
creation_won (err already_exists) by h = ground arith
creation_won (err e) by h = ground arith

pub takeover_won :
    (r : Result Lease) (by : Text) → takeover r ≡ ok (true, by) → (lease : Lease) × (r ≡ ok lease)
unfolding takeover
takeover_won (ok lease) by h = (lease, refl)
takeover_won (err conflict) by h = ground arith
takeover_won (err e) by h = ground arith

module _ (l : LeaseLock) (name holder : Text) (now checked : ℕ) where
  -- The decisions that go on to a call.
  data Goes (seen : Result Lease) : Decision → Type 0 where
    creates : seen ≡ err not_found → Goes seen (creating (fresh l name holder now))
    updates :
        (lease : Lease)
        → seen ≡ ok lease
        → IsFree checked seen
        → Goes seen (updating (taken_over l name holder now lease))
    stops_failing : (e : Failure) → Goes seen (failing e)
    stops_held : (by : Text) → Goes seen (held by)

  Goes-ok : (lease : Lease) → Goes (ok lease) (decide l name holder now checked (ok lease))
  unfolding decide
  Goes-ok lease = elim (Bool-cases (is_empty (deref lease.holder_identity []))) [
    | inl none_holds ↦ rw none_holds (
        updates lease refl
          (unheld lease (nil_of_is_empty (deref lease.holder_identity []) none_holds)))
    | inr holds ↦ elim (Bool-cases (expired checked lease)) [
      | inl late ↦ rw (holds, late) (updates lease refl (over lease late))
      | inr live ↦ rw (holds, live) (stops_held (deref lease.holder_identity []))
    ]
  ]

  Goes-decide : (seen : Result Lease) → Goes seen (decide l name holder now checked seen)
  unfolding decide
  Goes-decide (ok lease) = Goes-ok lease
  Goes-decide (err not_found) = creates refl
  Goes-decide (err e) = stops_failing e

module _ {ℓ} {State : Type ℓ} (leases : Client Lease State) (laws : LeaseLaws leases) where
  won_by_create :
      (l : LeaseLock) (name holder : Text) (now : ℕ) (s s' : State) (by : Text)
      → commit leases (creating (fresh l name holder now)) s ≡ (ok (true, by), s')
      → IsHeldBy leases s' name holder
  unfolding commit IsHeldBy
  won_by_create l name holder now s s' by h =
      let lease = fresh l name holder now in
      let (saved, e) = creation_won (leases.create s lease).0 by (ap (λ p. p.0) h) in
      let (stored, same) = laws.created s s' lease saved (cc (e, h)) in
      (saved, (stored, ap (λ v. v.0) same))

  won_by_update :
      (l : LeaseLock) (name holder : Text) (now : ℕ) (s s' : State) (by : Text) (old : Lease)
      → old.name ≡ name
      → commit leases (updating (taken_over l name holder now old)) s ≡ (ok (true, by), s')
      → IsHeldBy leases s' name holder
  unfolding commit IsHeldBy
  won_by_update l name holder now s s' by old n h =
      let lease = taken_over l name holder now old in
      let (saved, e) = takeover_won (leases.update s lease).0 by (ap (λ p. p.0) h) in
      let (stored, same) = laws.updated s s' lease saved (cc (e, h)) in
      (saved, (cc (stored, n), ap (λ v. v.0) same))

  won_lem :
      (l : LeaseLock) (name holder : Text) (now checked : ℕ) (seen : Result Lease) (d : Decision)
      (s s' : State) (by : Text)
      → Goes l name holder now checked seen d
      → ((old : Lease) → seen ≡ ok old → old.name ≡ name)
      → commit leases d s ≡ (ok (true, by), s')
      → IsFree checked seen × IsHeldBy leases s' name holder
  unfolding commit IsHeldBy
  won_lem l name holder now checked seen d s s' by (creates e) named h =
      (rw e absent, won_by_create l name holder now s s' by h)
  won_lem l name holder now checked seen d s s' by (updates old e free) named h =
      (free, won_by_update l name holder now s s' by old (named old e) h)
  won_lem l name holder now checked seen d s s' by (stops_failing e) named h = ground arith
  won_lem l name holder now checked seen d s s' by (stops_held b) named h = ground arith

  -- A `tryAcquire` that reports the lock as acquired found it free: no Lease, or one that nobody
  -- holds, or one whose time is over. Behind it the stored Lease names the caller as its holder.
  pub try_acquire-IsHeldBy :
      (l : LeaseLock) (clock : State → ℕ) (name holder : Text) (s s' : State) (by : Text)
      → try_acquire leases l clock name holder s ≡ (ok (true, by), s')
      → IsFree (clock s) (leases.get s name) × IsHeldBy leases s' name holder
  unfolding try_acquire
  try_acquire-IsHeldBy l clock name holder s s' by h =
      won_lem l name holder (clock s) (clock s) (leases.get s name) _ s s' by
        (Goes-decide l name holder (clock s) (clock s) (leases.get s name))
        (λ old. laws.named s name old) h

  late_lem :
      (l : LeaseLock) (name holder : Text) (now checked : ℕ) (seen : Result Lease) (d : Decision)
      (s s' : State) (by : Text) (won : Lease)
      → Goes l name holder now checked seen d
      → leases.get s name ≡ ok won
      → ((old : Lease)
          → seen ≡ ok old
          → (old.name ≡ name)
            × ((old.resource_version ≢ []) × (old.resource_version ≢ won.resource_version)))
      → commit leases d s ≢ (ok (true, by), s')
  unfolding commit IsHeldBy
  late_lem l name holder now checked seen d s s' by won (creates e) stored other h =
      let (saved, c) =
        creation_won (leases.create s (fresh l name holder now)).0 by (ap (λ p. p.0) h) in
      laws.taken s s' (fresh l name holder now) won saved stored (cc (c, h))
  late_lem l name holder now checked seen d s s' by won (updates old e free) stored other h =
      let (n, (some_version, differs)) = other old e in
      let (saved, c) =
        takeover_won (leases.update s (taken_over l name holder now old)).0 by (ap (λ p. p.0) h) in
      laws.stale s s' (taken_over l name holder now old) won saved (cc (stored, n)) some_version
        differs (cc (c, h))
  late_lem l name holder now checked seen d s s' by won (stops_failing e) stored other h =
      ground arith
  late_lem l name holder now checked seen d s s' by won (stops_held b) stored other h = ground arith

  winner_moves :
      (l : LeaseLock) (name holder : Text) (now checked : ℕ) (s s' : State) (by : Text)
      (d : Decision)
      → Goes l name holder now checked (leases.get s name) d
      → ((old : Lease) → leases.get s name ≡ ok old → old.holder_identity ≢ some holder)
      → commit leases d s ≡ (ok (true, by), s')
      → (won : Lease) × ((leases.get s' name ≡ ok won)
          × ((old : Lease)
              → leases.get s name ≡ ok old
              → old.resource_version ≢ won.resource_version))
  unfolding commit IsHeldBy
  winner_moves l name holder now checked s s' by d (creates e) new h =
      let (won, (stored, _)) = won_by_create l name holder now s s' by h in
      (won, (stored, λ old found. ground arith))
  winner_moves l name holder now checked s s' by d (updates old e free) new h =
      let sent = taken_over l name holder now old in
      let named = laws.named s name old e in
      let (saved, c) = takeover_won (leases.update s sent).0 by (ap (λ p. p.0) h) in
      let update : leases.update s sent ≡ (ok saved, s') = cc (c, h) in
      let (stored, same) = laws.updated s s' sent saved update in
      (
        saved,
        (
          cc (stored, named),
          λ old' found version.
              new old e (
                cc
                  (laws.moves s s' sent old saved (cc (e, named)) update (cc (version, found, e)))),
        ),
      )
  winner_moves l name holder now checked s s' by d (stops_failing e) new h = ground arith
  winner_moves l name holder now checked s s' by d (stops_held b) new h = ground arith

  -- Two callers that read the same state of a Lease do not both take the lock, whichever kind of
  -- call each goes on to, when and with which clock: while the Lease of the first one is stored as it
  -- left it, the call of the second one fails to acquire. The token of the first caller is new.
  pub one_winner :
      (l1 l2 : LeaseLock) (name holder1 holder2 : Text) (now1 checked1 now2 checked2 : ℕ)
      (s s1 s2 s3 : State) (by1 by2 : Text)
      → ((old : Lease) → leases.get s name ≡ ok old → old.holder_identity ≢ some holder1)
      → commit leases (decide l1 name holder1 now1 checked1 (leases.get s name)) s
        ≡ (ok (true, by1), s1)
      → leases.get s2 name ≡ leases.get s1 name
      → commit leases (decide l2 name holder2 now2 checked2 (leases.get s name)) s2
        ≢ (ok (true, by2), s3)
  one_winner l1 l2 name holder1 holder2 now1 checked1 now2 checked2 s s1 s2 s3 by1 by2 new first
        kept =
      let (won, (stored, moved)) =
        winner_moves l1 name holder1 now1 checked1 s s1 by1 _
          (Goes-decide l1 name holder1 now1 checked1 (leases.get s name)) new first in
      late_lem l2 name holder2 now2 checked2 (leases.get s name) _ s2 s3 by2 won
        (Goes-decide l2 name holder2 now2 checked2 (leases.get s name)) (kept ∙ stored)
        (λ old e. (laws.named s name old e, (laws.versioned s name old e, moved old e)))
