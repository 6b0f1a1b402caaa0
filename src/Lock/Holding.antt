-- ===== src/Lock/Holding.antt =====
-- zone/lock.go: a held lock among other pods, whose reads and writes of the Lease are steps of their
-- own.
use cert_manager_webhook_mij.Prelude.{
  ℕ, ◌+◌, ◌*◌, ◌≤◌, true, false, List, [], ◌∷◌, ◌++◌, Text, All, some, pos, ◌≡◌, ◌≢◌, ap, ◌∙◌,
  arith, not_is_empty, All-middle,
}
use cert_manager_webhook_mij.Failure.{ok}
use cert_manager_webhook_mij.Kubernetes.{Client}
use cert_manager_webhook_mij.Lock.{
  Lease, LeaseLock, deref, expired, Decision, failing, held, creating, updating, decide, commit,
  second,
}
use cert_manager_webhook_mij.Lock.Exclusion.{LeaseLaws, creation_won, takeover_won}

module _ {ℓ} {State : Type ℓ} (leases : Client Lease State) (name mine : Text) (until : ℕ) where
  -- The cluster, and what other pods have decided about the Lease but not sent yet.
  abbrev pub Pods : Type ℓ
  Pods = State × List Decision

  -- What other pods do: read the Lease in `tryAcquire` while it is not over, read it in `release` as
  -- their own, send what they decided, or work on anything else while time passes.
  pub data Others : Pods → Pods → Type ℓ where
    look :
        (s : State) (pool : List Decision) (l : LeaseLock) (holder : Text) (now checked : ℕ)
        → checked ≤ until
        → Others (s, pool) (s, decide l name holder now checked (leases.get s name) ∷ pool)
    give_up :
        (s : State) (pool : List Decision) (lease : Lease) (holder : Text)
        → holder ≢ mine
        → leases.get s name ≡ ok lease
        → deref lease.holder_identity [] ≡ holder
        → Others (s, pool) (s, updating (record lease { holder_identity = some [] }) ∷ pool)
    send :
        (s : State) (before after : List Decision) (d : Decision)
        → Others (s, before ++ d ∷ after) ((commit leases d s).1, before ++ after)
    elsewhere :
        (s s' : State) (pool : List Decision)
        → leases.get s' name ≡ leases.get s name
        → Others (s, pool) (s', pool)

  pub data Meanwhile (c : Pods) : Pods → Type ℓ where
    here : Meanwhile c c
    next : {d e : Pods} → Meanwhile c d → Others d e → Meanwhile c e

  module _ (won : Lease) where
    -- A decision that cannot touch the Lease any more.
    abbrev pub IsHarmless : Decision → Type 0
    IsHarmless (failing e) = Unit
    IsHarmless (held by) = Unit
    IsHarmless (creating lease) = lease.name ≡ name
    IsHarmless (updating lease) =
        (lease.name ≡ name)
        × ((lease.resource_version ≢ []) × (lease.resource_version ≢ won.resource_version))

    -- The Lease is stored as it was won, and nobody is about to take it.
    pub record IsKept (c : Pods) : Type 0 where
      pub stored : leases.get c.0 name ≡ ok won
      pub harmless : All IsHarmless c.1

    module _ (laws : LeaseLaws leases) (renewed seconds : ℕ)
        (holds : won.holder_identity ≡ some mine) (some_holder : mine ≢ [])
        (renew_time : won.renew_time ≡ some renewed)
        (duration : won.lease_duration_seconds ≡ some (pos seconds))
        (time : until ≤ renewed + seconds * second) where
      sent_harmless :
          (s : State) (d : Decision)
          → leases.get s name ≡ ok won
          → IsHarmless d
          → leases.get (commit leases d s).1 name ≡ ok won
      unfolding commit
      sent_harmless s (failing e) stored h = stored
      sent_harmless s (held by) stored h = stored
      sent_harmless s (creating lease) stored h =
          rw (← h) (laws.taken_kept s lease won (cc (stored, h)))
      sent_harmless s (updating lease) stored (h, (some_version, differs)) =
          rw (← h) (laws.stale_kept s lease won (cc (stored, h)) some_version differs)

      sent_loses :
          (s s' : State) (d : Decision) (by : Text)
          → leases.get s name ≡ ok won
          → IsHarmless d
          → commit leases d s ≢ (ok (true, by), s')
      unfolding commit
      sent_loses s s' (failing e) by stored h e' = ground (arith, e')
      sent_loses s s' (held b) by stored h e' = ground (arith, e')
      sent_loses s s' (creating lease) by stored h e =
          let (saved, c) = creation_won (leases.create s lease).0 by (ap (λ p. p.0) e) in
          laws.taken s s' lease won saved (cc (stored, h)) (cc (c, e))
      sent_loses s s' (updating lease) by stored (h, (some_version, differs)) e =
          let (saved, c) = takeover_won (leases.update s lease).0 by (ap (λ p. p.0) e) in
          laws.stale s s' lease won saved (cc (stored, h)) some_version differs (cc (c, e))

      not_expired : (checked : ℕ) → checked ≤ until → expired checked won ≡ false
      unfolding expired
      not_expired checked in_time = rw (renew_time, duration) (ground arith)

      looked-IsHarmless :
          (l : LeaseLock) (holder : Text) (now checked : ℕ)
          → checked ≤ until
          → IsHarmless (decide l name holder now checked (ok won))
      unfolding decide
      looked-IsHarmless l holder now checked in_time =
          rw (holds, not_expired checked in_time) (rw (not_is_empty mine some_holder) tt)

      Others-IsKept : {c d : Pods} → Others c d → IsKept c → IsKept d
      Others-IsKept (look s pool l holder now checked in_time) h = record {
        stored = h.stored;
        harmless = (rw h.stored (looked-IsHarmless l holder now checked in_time), h.harmless);
      }
      Others-IsKept (give_up s pool lease holder other found own) h =
          absurd (other (ground (arith, own, found, h.stored, holds)))
      Others-IsKept (send s before after d) h =
          let (gone, rest) = All-middle IsHarmless before d after h.harmless in
          record { stored = sent_harmless s d h.stored gone; harmless = rest }
      Others-IsKept (elsewhere s s' pool same) h = record {
        stored = same ∙ h.stored;
        harmless = h.harmless;
      }

      Meanwhile-IsKept : {c d : Pods} → Meanwhile c d → IsKept c → IsKept d
      Meanwhile-IsKept here h = h
      Meanwhile-IsKept (next before step) h = Others-IsKept step (Meanwhile-IsKept before h)

      All-loses :
          (s : State) (pool : List Decision)
          → leases.get s name ≡ ok won
          → All IsHarmless pool
          → All (λ d. (by : Text) (s' : State) → commit leases d s ≢ (ok (true, by), s')) pool
      All-loses s [] stored h = tt
      All-loses s (d ∷ pool) stored h =
          ((λ by s'. sent_loses s s' d by stored h.0), All-loses s pool stored h.1)

      -- A lock that is held stays held, and is held by nobody else, whatever other pods do until the
      -- time of its Lease is over: however their reads, their writes and time interleave, the Lease
      -- stays as it was won, and no write that any of them has decided on acquires the lock. Before,
      -- no decision was made from the Lease as it was won; the pods check its time by clocks that are
      -- not ahead of its end, and do not release it with its holder's own token.
      pub lock_is_exclusive :
          {c d : Pods}
          → Meanwhile c d
          → IsKept c
          → (leases.get d.0 name ≡ ok won)
            × All (λ e. (by : Text) (s' : State) → commit leases e d.0 ≢ (ok (true, by), s')) d.1
      lock_is_exclusive {c} {d} steps h =
          let kept = Meanwhile-IsKept steps h in
          (kept.stored, All-loses d.0 d.1 kept.stored kept.harmless)
