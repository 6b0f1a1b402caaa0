-- ===== src/Tests/Cycles.antt =====
-- Whole operations.
use cert_manager_webhook_mij.Prelude.{
  ◌+◌, ◌≤◌, ◌≡◌, refl, true, [], ◌∷◌, codes, text_eq, has_prefix, has_suffix, trim_suffix, All,
  arith,
}
use cert_manager_webhook_mij.Failure.{ok}
use cert_manager_webhook_mij.Names.{absolute_name}
use cert_manager_webhook_mij.Payload.{is_challenge_record, key_eq, changed, compute_payload}
use cert_manager_webhook_mij.Store.{Handle}
use cert_manager_webhook_mij.World.{Log, acquired, saved, got, serial_read, ◌>>=◌}
use cert_manager_webhook_mij.Records.{desired_records}
use cert_manager_webhook_mij.Write.Reading.{MayPut}
use cert_manager_webhook_mij.Write.Outcome.{puts}
use cert_manager_webhook_mij.Write.Progress.{IsQuiet}
use cert_manager_webhook_mij.Reconciler.Progress.{Answers, operations_succeed}
use cert_manager_webhook_mij.Reconciler.{
  present, clean_up, present_mutation, clean_up_mutation, sweep,
}
use cert_manager_webhook_mij.Reconciler.Sweeping.{WasServed, sweep-Served}
use cert_manager_webhook_mij.Reconciler.Safety.{
  Idle, do_present, do_clean_up, do_sweep, run, run-Idle,
}
use cert_manager_webhook_mij.Reconciler.Operations.{clean_up-present}
use cert_manager_webhook_mij.Reconciler.Outcome.{Served, request_puts_once, present-Served}
use cert_manager_webhook_mij.Tests.Samples.{
  zone, stale, old_record, state, request, calm, reconciler,
}

present_runs : (present calm reconciler request []).0 ≡ ok tt
unfolding present ◌>>=◌ compute_payload changed is_challenge_record key_eq text_eq has_prefix
    has_suffix trim_suffix absolute_name
present_runs = refl

Idle-empty : Idle reconciler []
Idle-empty = record { safe = tt; unlocked = λ z. refl }

run-Idle_example :
    Idle reconciler
      (run calm reconciler (do_present request ∷ do_clean_up request ∷ do_sweep ∷ []) [])
run-Idle_example =
    run-Idle calm reconciler (do_present request ∷ do_clean_up request ∷ do_sweep ∷ []) []
      Idle-empty

request_puts_once_example :
    (puts (present calm reconciler request []).1 ≤ 0 + 1)
    × (puts (clean_up calm reconciler request []).1 ≤ 0 + 1)
request_puts_once_example = request_puts_once calm reconciler request []

present-Served_example :
    Served reconciler (trim_suffix zone b'.') (present calm reconciler request []).1
present-Served_example = present-Served calm reconciler request [] present_runs

abbrev stored : Handle
stored = record { state = state; resource_version = codes "1"; exists = true }

calm-IsQuiet : IsQuiet calm (λ z. 7) (λ z. stale)
calm-IsQuiet = record { steady = λ l z. refl; readable = λ l k z. refl; taken = λ l k z rs. refl }

calm-Answers : Answers calm (λ z. stored) (zone ∷ [])
calm-Answers = record {
  locks = λ l z. refl;
  loads = λ l z. refl;
  saves = λ l h. refl;
  keys = λ l ref. (codes "secret", refl);
  lists = λ l. refl;
}

operations_succeed_example :
    ((present calm reconciler request []).0 ≡ ok tt)
    × ((clean_up calm reconciler request []).0 ≡ ok tt)
    × ((sweep calm reconciler []).0 ≡ ok tt)
operations_succeed_example =
    operations_succeed calm reconciler (λ z. 7) (λ z. stale) (λ z. stored) (zone ∷ []) calm-IsQuiet
      calm-Answers refl (omega arith) request refl (refl, tt) []

clean_up-present_example :
    ((present_mutation calm reconciler request (old_record ∷ []) >>= λ (recs', _).
    clean_up_mutation calm reconciler request recs')
      []).0
    ≡ (clean_up_mutation calm reconciler request (old_record ∷ []) []).0
clean_up-present_example = clean_up-present calm reconciler request (old_record ∷ []) [] []

-- A log in which the PUT of the wished challenge is due.
abbrev due : Log
due =
    got (codes "secret") zone (ok stale)
    ∷ serial_read zone (ok 7)
    ∷ saved (record { state = state; resource_version = codes "1"; exists = true }) (ok tt)
    ∷ acquired zone (ok tt)
    ∷ []

due_may : MayPut reconciler zone (compute_payload stale (desired_records state) [] true).0 due
unfolding compute_payload desired_records changed is_challenge_record key_eq text_eq has_prefix
due_may = record {
  state = state;
  current = stale;
  remove = [];
  one_key = omega arith;
  locked = refl;
  saved_first = refl;
  read_first = refl;
  trusted = refl;
  unmoved = refl;
  needed = refl;
  not_empty = λ e. cc e;
  computed = λ n. refl;
  filled = λ e. absurd (cc e);
}

sweep_runs : (sweep calm reconciler []).0 ≡ ok tt
unfolding sweep ◌>>=◌ compute_payload changed is_challenge_record key_eq text_eq has_prefix
    has_suffix trim_suffix
sweep_runs = refl

sweep-Served_example :
    All (λ z. WasServed reconciler (trim_suffix z b'.') (sweep calm reconciler []).1) (zone ∷ [])
sweep-Served_example = sweep-Served calm reconciler (zone ∷ []) [] refl sweep_runs
