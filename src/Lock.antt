-- ===== src/Lock.antt =====
-- zone/lock.go: the lock of a zone, a Lease that is taken by compare-and-swap.
pub mod Exclusion
pub mod Holding
pub mod Lasting
pub mod Waiting
pub mod Releasing
pub mod Tokens
use cert_manager_webhook_mij.Prelude.{
  ℕ, zero, suc, ◌+◌, ◌-◌, ◌*◌, ◌/◌, ◌%◌, ◌^◌, Bool, true, false, not, ◌&&◌, ◌||◌, List, [], ◌∷◌,
  ◌++◌, Text, codes, ltb, ◌==◌, if◌then◌else◌, ℤ, pos, negsuc, Option, none, some, text_eq,
  positive_or,
}
use cert_manager_webhook_mij.Failure.{
  Failure, not_found, already_exists, conflict, lock_timeout, Result, ok, err,
}
use cert_manager_webhook_mij.Names.{object_name}
use cert_manager_webhook_mij.Payload.{is_empty}
use cert_manager_webhook_mij.Store.{managed_by_label, managed_by_value}
use cert_manager_webhook_mij.Kubernetes.{Client, Dict}

-- `coordinationv1.Lease`, as far as the program reads and writes it. Times count nanoseconds.
pub record Lease : Type 0 where
  pub name : Text
  pub labels : Dict
  pub resource_version : Text
  pub holder_identity : Option Text
  pub lease_duration_seconds : Option ℤ
  pub acquire_time : Option ℕ
  pub renew_time : Option ℕ
  pub lease_transitions : Option ℤ

-- `LeaseLockOptions`
pub record LeaseLockOptions : Type 0 where
  pub duration : ℤ
  pub wait_timeout : ℤ
  pub poll_interval : ℤ

-- `LeaseLock`, less its client and its clock.
pub record LeaseLock : Type 0 where
  pub identity : Text
  pub duration : ℕ
  pub wait_timeout : ℕ
  pub poll_interval : ℕ

abbrev pub second : ℕ
second = 1_000_000_000

-- `NewLeaseLock`
unfoldable pub new_lease_lock : Text → LeaseLockOptions → LeaseLock
new_lease_lock identity opts = record {
  identity = identity;
  duration = positive_or (60 * second) opts.duration;
  wait_timeout = positive_or (25 * second) opts.wait_timeout;
  poll_interval = positive_or 500_000_000 opts.poll_interval;
}

-- `int32(n)`
unfoldable pub to_int32 : ℕ → ℤ
to_int32 n = let m = n % 2 ^ 32 in if ltb m (2 ^ 31) then pos m else negsuc (2 ^ 32 - 1 - m)

-- `n + 1` on `int32`
unfoldable pub succ_int32 : ℤ → ℤ
succ_int32 (pos n) = if n == 2 ^ 31 - 1 then negsuc (2 ^ 31 - 1) else pos (n + 1)
succ_int32 (negsuc zero) = pos 0
succ_int32 (negsuc (suc n)) = negsuc n

-- `ptr.Deref(p, or)`
abbrev pub deref {ℓ} : {A : Type ℓ} → Option A → A → A
deref none or = or
deref (some a) or = a

-- Whether `now` is after `from` and that many seconds.
abbrev pub is_after : ℕ → ℕ → ℤ → Bool
is_after now from (pos s) = ltb (from + s * second) now
is_after now from (negsuc n) = ltb from (now + (n + 1) * second)

-- `expired`
unfoldable pub expired : ℕ → Lease → Bool
expired now lease = elim lease.renew_time [
  | none ↦ true
  | some renewed ↦ elim lease.lease_duration_seconds [
    | none ↦ true
    | some seconds ↦ is_after now renewed seconds
  ]
]

-- The holder that `Acquire` writes into a Lease.
abbrev pub holder_of : (identity token : Text) → Text
holder_of identity token = identity ++ (codes "/" ++ token)

-- What `tryAcquire` does about the Lease that it read.
pub data Decision : Type 0 where
  failing : Failure → Decision
  held : Text → Decision
  creating updating : Lease → Decision

module _ (l : LeaseLock) (name holder : Text) where
  -- The Lease that is created: held by us.
  abbrev pub fresh : ℕ → Lease
  fresh now = record {
    name = name;
    labels = (managed_by_label, managed_by_value) ∷ [];
    resource_version = [];
    holder_identity = some holder;
    lease_duration_seconds = some (to_int32 (l.duration / second));
    acquire_time = some now;
    renew_time = some now;
    lease_transitions = none;
  }

  -- The Lease that is taken over.
  abbrev pub taken_over : ℕ → Lease → Lease
  taken_over now lease = record lease {
    holder_identity = some holder;
    lease_duration_seconds = some (to_int32 (l.duration / second));
    acquire_time = some now;
    renew_time = some now;
    lease_transitions = some (succ_int32 (deref lease.lease_transitions (pos 0)));
  }

  -- `tryAcquire` from the answer of `Get` to the next call. `checked` is the time in `expired`.
  unfoldable pub decide : ℕ → ℕ → Result Lease → Decision
  unfolding expired to_int32 succ_int32
  decide now checked (err not_found) = creating (fresh now)
  decide now checked (err e) = failing e
  decide now checked (ok lease) =
      let current = deref lease.holder_identity [] in
      if not (is_empty current) && not (expired checked lease)
      then held current
      else updating (taken_over now lease)

-- The results of `Create` and `Update` in `tryAcquire`: whether the lock is held, or by whom.
unfoldable pub creation : Result Lease → Result (Bool × Text)
creation (ok _) = ok (true, [])
creation (err already_exists) = ok (false, codes "another pod (creating)")
creation (err e) = err e

unfoldable pub takeover : Result Lease → Result (Bool × Text)
takeover (ok _) = ok (true, [])
takeover (err conflict) = ok (false, codes "another pod (updating)")
takeover (err e) = err e

module _ {ℓ} {State : Type ℓ} (leases : Client Lease State) where
  -- The call that follows the decision.
  unfoldable pub commit : Decision → State → Result (Bool × Text) × State
  unfolding creation takeover
  commit (failing e) s = (err e, s)
  commit (held by) s = (ok (false, by), s)
  commit (creating lease) s = let (r, s') = leases.create s lease in (creation r, s')
  commit (updating lease) s = let (r, s') = leases.update s lease in (takeover r, s')

  module _ (l : LeaseLock) (clock : State → ℕ) where
    -- `tryAcquire`
    unfoldable pub try_acquire : Text → Text → State → Result (Bool × Text) × State
    unfolding decide commit
    try_acquire name holder s =
        commit (decide l name holder (clock s) (clock s) (leases.get s name)) s

    -- The loop of `Acquire`. `pause` is its `select`: the poll interval, or `ctx.Done()`. The result
    -- is none where the passes run out.
    unfoldable pub acquire_loop :
        (State → Result (Unit {0}) × State)
        → ℕ
        → (name holder : Text) → (deadline : ℕ) → State
        → Option (Result (Unit {0})) × State
    unfolding try_acquire
    acquire_loop pause zero name holder deadline s = (none, s)
    acquire_loop pause (suc n) name holder deadline s =
        let (attempt, s1) = try_acquire name holder s in
        elim attempt [
          | err e ↦ (some (err e), s1)
          | ok (acquired, held_by) ↦
              if acquired
              then (some (ok tt), s1)
              else if ltb deadline (clock s1)
              then (some (err lock_timeout), s1)
              else let (woken, s2) = pause s1 in
                elim woken [
                  | err e ↦ (some (err e), s2)
                  | ok _ ↦ acquire_loop pause n name holder deadline s2
                ]
        ]

    -- `Acquire`, with the random token of `randomToken` and a bound on the passes.
    unfoldable pub acquire :
        (State → Result (Unit {0}) × State)
        → ℕ
        → (zone token : Text) → State
        → Option (Result (Unit {0})) × State
    unfolding acquire_loop
    acquire pause passes zone token s =
        acquire_loop pause passes (object_name zone) (holder_of l.identity token)
          (clock s + l.wait_timeout) s

  -- The loop of `release`, with the attempts that are left. An `Update` that fails with a conflict
  -- is made again.
  unfoldable pub release_loop : ℕ → (name holder : Text) → State → State
  unfolding text_eq
  release_loop zero name holder s = s
  release_loop (suc n) name holder s = elim (leases.get s name) [
    | err e ↦ release_loop n name holder s
    | ok lease ↦
        if not (text_eq (deref lease.holder_identity []) holder)
        then s
        else let (r, s') = leases.update s (record lease { holder_identity = some [] }) in
          elim r [
            | ok _ ↦ s'
            | err e ↦ elim e [ conflict ↦ release_loop n name holder s' | _ ↦ s' ]
          ]
  ]

  -- `release`
  unfoldable pub release : (name holder : Text) → State → State
  unfolding release_loop
  release name holder s = release_loop 3 name holder s
