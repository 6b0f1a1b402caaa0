-- ===== src/Tests/Locking.antt =====
-- Runs of the lock: two pods and a Lease that a third one left behind.
use cert_manager_webhook_mij.Prelude.{
  ℕ, ◌+◌, ◌*◌, true, List, [], ◌∷◌, Text, codes, none, some, pos, trim_suffix, ◌≡◌, ◌≢◌, refl,
  arith,
}
use cert_manager_webhook_mij.Failure.{bad_bool, Result, ok, err}
use cert_manager_webhook_mij.Names.{object_name, trim_right, trim_left, label_rune, lower_rune}
use cert_manager_webhook_mij.Kubernetes.{Client}
use cert_manager_webhook_mij.Lock.{
  Lease, LeaseLock, Decision, creating, updating, failing, held, decide, commit, try_acquire,
  acquire, second, holder_of,
}
use cert_manager_webhook_mij.Lock.Exclusion.{LeaseLaws, lease_view, IsHeldBy, one_winner}
use cert_manager_webhook_mij.Lock.Tokens.{random_token, Same, AreBytes, IsByte, holder_of_injective}
use cert_manager_webhook_mij.Lock.Waiting.{CallsKeepTime, acquire_ends, acquire-IsHeldBy}
use cert_manager_webhook_mij.Tests.Cluster.{
  Slot, slots, slot-Laws, slot_get, slot_create, slot_update,
}

abbrev pub Cluster : Type 0
Cluster = Slot Lease

abbrev pub leases : Client Lease Cluster
leases = slots (λ o. o.name) (λ o. o.resource_version) (λ v o. record o { resource_version = v })

pub leases-LeaseLaws : LeaseLaws leases
leases-LeaseLaws =
    slot-Laws (λ o. o.name) (λ o. o.resource_version) (λ v o. record o { resource_version = v })
      lease_view (λ v o. refl) (λ v o. refl) (λ v o. refl)

abbrev clock : Cluster → ℕ
clock s = s.1

abbrev pub pod_lock : LeaseLock
pod_lock = record {
  identity = codes "pod-a";
  duration = 60 * second;
  wait_timeout = 25 * second;
  poll_interval = 500_000_000;
}

abbrev pause : Cluster → Result (Unit {0}) × Cluster
pause s = (ok tt, (s.0, s.1 + 500_000_000))

abbrev pub lease_name : Text
lease_name = codes "mijn-host-zone-example-com"

-- A Lease of a pod that crashed, renewed at one second and over after 60 more.
abbrev pub left_behind : Lease
left_behind = record {
  name = lease_name;
  labels = [];
  resource_version = 1 ∷ 1 ∷ [];
  holder_identity = some (codes "pod-z/0");
  lease_duration_seconds = some (pos 60);
  acquire_time = some second;
  renew_time = some second;
  lease_transitions = some (pos 3);
}

abbrev pub crashed : Cluster
crashed = (some (left_behind, 1 ∷ []), 62 * second)

abbrev pub token_a : Text
token_a = codes "pod-a/7"

abbrev pub taken_by_a : Cluster
taken_by_a = (try_acquire leases pod_lock clock lease_name token_a crashed).1

try_runs :
    try_acquire leases pod_lock clock lease_name token_a crashed ≡ (ok (true, []), taken_by_a)
unfolding try_acquire slot_get slot_update
try_runs = refl

token_a_is_new :
    (old : Lease) → leases.get crashed lease_name ≡ ok old → old.holder_identity ≢ some token_a
unfolding slot_get
token_a_is_new old h same = ground (arith, h, same)

-- What the second pod decided when both had read the Lease that was left behind.
abbrev pub decided_by_b : Decision
decided_by_b =
    decide pod_lock lease_name (codes "pod-b/8") (62 * second) (62 * second)
      (leases.get crashed lease_name)

first_commits :
    commit leases
      (decide pod_lock lease_name token_a
        (62 * second)
        (62 * second)
        (leases.get crashed lease_name))
      crashed
    ≡ (ok (true, []), taken_by_a)
unfolding try_acquire slot_get slot_update
first_commits = refl

one_winner_example : commit leases decided_by_b taken_by_a ≢ (ok (true, []), taken_by_a)
one_winner_example =
    one_winner leases leases-LeaseLaws pod_lock pod_lock lease_name token_a (codes "pod-b/8")
      (62 * second) (62 * second) (62 * second) (62 * second) crashed taken_by_a taken_by_a
      taken_by_a [] [] token_a_is_new first_commits refl

commit_keeps_time : (d : Decision) (s : Cluster) → (commit leases d s).1.1 ≡ s.1
unfolding commit slot_create slot_update
commit_keeps_time (failing e) s = refl
commit_keeps_time (held by) s = refl
commit_keeps_time (creating lease) (none, t) = refl
commit_keeps_time (creating lease) (some old, t) = refl
commit_keeps_time (updating lease) (none, t) = refl
commit_keeps_time (updating lease) (some (old, v), t) = ground arith

tries_keep_time : CallsKeepTime leases pod_lock clock pause
unfolding try_acquire
tries_keep_time name holder s =
    ground (arith, commit_keeps_time (decide pod_lock name holder s.1 s.1 (leases.get s name)) s)

acquire_ends_example :
    (acquire leases pod_lock clock pause 52 (codes "example.com") (codes "7") crashed).0 ≢ none
acquire_ends_example =
    acquire_ends leases pod_lock clock pause tries_keep_time (λ s. omega arith) 51
      (codes "example.com") (codes "7") crashed (omega arith)

-- The pod waits in its first pass, in which the Lease is not over yet.
abbrev waited : Cluster
waited = (some (left_behind, 1 ∷ []), 61 * second)

abbrev acquired_by_a : Cluster
acquired_by_a = (acquire leases pod_lock clock pause 3 (codes "example.com") (codes "7") waited).1

acquire_runs :
    acquire leases pod_lock clock pause 3 (codes "example.com") (codes "7") waited
    ≡ (some (ok tt), acquired_by_a)
unfolding acquire slot_get slot_update object_name trim_right trim_left trim_suffix label_rune
    lower_rune
acquire_runs = refl

acquire-IsHeldBy_example : IsHeldBy leases acquired_by_a (object_name (codes "example.com")) token_a
acquire-IsHeldBy_example =
    acquire-IsHeldBy leases pod_lock clock pause leases-LeaseLaws 3 (codes "example.com")
      (codes "7") waited acquired_by_a acquire_runs

-- The second pod has taken the lock over.
abbrev taken_by_b : Cluster
taken_by_b =
    (some (record left_behind { holder_identity = some (codes "pod-b/8") }, 1 ∷ []), 62 * second)

abbrev random_bytes : Result (List ℕ)
random_bytes = ok (0 ∷ 9 ∷ 10 ∷ 127 ∷ 160 ∷ 255 ∷ [])

-- Bytes that come again at another time.
token_runs : random_token random_bytes 1 ≡ codes "00090a7fa0ff"
unfolding random_token
token_runs = refl

clock_token_runs : random_token (err bad_bool) 1_764_000 ≡ codes "1764000"
unfolding random_token
clock_token_runs = refl

random_bytes-AreBytes : AreBytes random_bytes
unfolding IsByte
random_bytes-AreBytes = ground arith

-- A time, in nanoseconds.
abbrev start_of_2026 : ℕ
start_of_2026 = 1_767_225_600 * second

same_holder :
    holder_of (codes "pod-a") (random_token random_bytes start_of_2026)
    ≡ holder_of (codes "pod-a") (random_token random_bytes (start_of_2026 + second))
unfolding random_token
same_holder = refl

holder_of_injective_example :
    (codes "pod-a" ≡ codes "pod-a")
    × Same random_bytes random_bytes start_of_2026 (start_of_2026 + second)
holder_of_injective_example =
    holder_of_injective (codes "pod-a") (codes "pod-a") random_bytes random_bytes start_of_2026
      (start_of_2026 + second) random_bytes-AreBytes random_bytes-AreBytes (omega arith)
      (omega arith) same_holder
