-- ===== src/Reconciler/Outcome.antt =====
-- How `Present` and `CleanUp` end.
use cert_manager_webhook_mij.Prelude.{
  ℕ, ◌+◌, ◌≤◌, ◌≡◌, refl, List, ◌∷◌, Text, trim_suffix, Option, some, arith,
}
use cert_manager_webhook_mij.Failure.{Result, ok, err}
use cert_manager_webhook_mij.Names.{absolute_name}
use cert_manager_webhook_mij.Payload.{Key, is_empty}
use cert_manager_webhook_mij.Store.{SecretRef, Record, State}
use cert_manager_webhook_mij.World.{Log, Outside, released, clocked}
use cert_manager_webhook_mij.World.Triples.{
  Triple, Ends, Triple-pure, Triple-raise, Triple-call, Triple-tell, Triple-if, Triple-map,
  Triple-bind, Triple-defer,
}
use cert_manager_webhook_mij.Records.{desired_records, retime}
use cert_manager_webhook_mij.Write.{Reconciler}
use cert_manager_webhook_mij.Write.Reading.{last_saved}
use cert_manager_webhook_mij.Write.Outcome.{puts, IsSettled, write_loop_ends}
use cert_manager_webhook_mij.Reconciler.{
  with_ref, Request, Mutation, present_mutation, clean_up_mutation, drop_expired, reconcile_locked,
  reconcile, present, clean_up,
}

-- The operation ended without an error: the state that it saved is settled in the zone, and the
-- release of the lock came right behind.
pub record Served (r : Reconciler) (zone : Text) (l : Log) : Type 0 where
  pub before : Log
  pub released_last : l ≡ released zone ∷ before
  pub state : State
  pub saved_first : last_saved before ≡ some state
  pub remove : List Key
  pub settled : IsSettled r (desired_records state) remove before

abbrev AtMost : ℕ → Log → Type 0
AtMost n l = puts l ≤ n + 1

abbrev Same : ℕ → Log → Type 0
Same n l = puts l ≡ n

-- A mutation that makes no PUT.
abbrev IsQuiet : Mutation → Type 0
IsQuiet mutate =
    (n : ℕ) (recs : List Record) → Triple (Same n) (mutate recs) (λ _. Same n) (AtMost n)

-- The end of the operation, before the lock is released.
abbrev Done : Reconciler → ℕ → Log → Type 0
Done r n l =
    (puts l ≤ n + 1)
    × ((state : State) × (last_saved l ≡ some state)
        × ((remove : List Key) × IsSettled r (desired_records state) remove l))

module _ (w : Outside) (r : Reconciler) where
  present_mutation-IsQuiet : (req : Request) → IsQuiet (present_mutation w r req)
  unfolding present_mutation
  present_mutation-IsQuiet req n recs =
      Triple-if (retime (absolute_name req.name req.zone) req.value req.ttl recs).1 _ _
        (λ _. Triple-pure _ (λ l h. h))
        (λ _.
          Triple-bind (λ _. Same n) _ _ (Triple-tell w.now clocked (λ l t h. h))
            (λ now. Triple-pure _ (λ l h. h)))

  clean_up_mutation-IsQuiet : (req : Request) → IsQuiet (clean_up_mutation w r req)
  unfolding clean_up_mutation
  clean_up_mutation-IsQuiet req n recs = Triple-pure _ (λ l h. h)

  Same-drop_expired :
      (n : ℕ) (recs : List Record)
      → Triple (Same n) (drop_expired w r recs) (λ _. Same n) (AtMost n)
  unfolding drop_expired
  Same-drop_expired n recs =
      Triple-bind (λ _. Same n) _ _ (Triple-tell w.now clocked (λ l t h. h))
        (λ now. Triple-pure _ (λ l h. h))

  Done-reconcile_locked :
      (n : ℕ) (zone : Text) (ref : Option SecretRef) (mutate : Mutation)
      → IsQuiet mutate
      → Triple (Same n) (reconcile_locked w r zone ref mutate) (λ _. Done r n) (AtMost n)
  unfolding reconcile_locked
  Done-reconcile_locked n zone ref mutate quiet =
      Triple-bind (λ _. Same n) _ _ (Triple-call _ _ (λ l h k. k) (λ l e k. omega arith))
        (λ h.
          Triple-if (is_empty (with_ref ref h.state.api_key_secret_ref).name) _ _
            (λ _. Triple-raise _ (λ l k. omega arith))
            (λ _.
              Triple-bind (λ _. Same n) _ _ (Same-drop_expired n h.state.records)
                (λ live.
                  Triple-bind (λ _. Same n) _ _ (quiet n live)
                    (λ (records, remove).
                      let st : State = record (h.state) {
                        api_key_secret_ref = with_ref ref h.state.api_key_secret_ref;
                        records = records;
                      } in
                      Triple-bind (λ _ l. Same n l × (last_saved l ≡ some st)) _ _
                        (Triple-call _ _ (λ l u k. (k, refl)) (λ l e k. omega arith))
                        (λ u.
                          Triple-bind (λ _ l. Same n l × (last_saved l ≡ some st)) _ _
                            (Triple-call _ _ (λ l key k. k) (λ l e k. omega arith))
                            (λ api_key.
                              Triple-map _
                                (write_loop_ends w r zone (desired_records st) remove (some st)
                                  api_key n r.max_write_attempts)
                                (λ l k. k) (λ u' l k. (k.0, (st, k.1, (remove, k.2))))
                                (λ l k. k)))))))

  pub Served-reconcile :
      (n : ℕ) (zone : Text) (ref : Option SecretRef) (mutate : Mutation)
      → IsQuiet mutate
      → Triple
          (Same n)
          (reconcile w r zone ref mutate)
          (λ _ l. AtMost n l × Served r (trim_suffix zone b'.') l)
          (AtMost n)
  unfolding reconcile
  Served-reconcile n raw_zone ref mutate quiet =
      let zone = trim_suffix raw_zone b'.' in
      Triple-bind (λ _. Same n) _ _ (Triple-call _ _ (λ l u h. h) (λ l e h. omega arith))
        (λ _.
          Triple-defer (released zone) _ (Done-reconcile_locked n zone ref mutate quiet)
            (λ _ l (few, (st, at_save, (remove, settled))). (
              few,
              record {
                before = l;
                released_last = refl;
                state = st;
                saved_first = at_save;
                remove = remove;
                settled = settled;
              },
            ))
            (λ l h. h))

  abbrev Outcome : ℕ → Text → Result (Unit {0}) × Log → Type 0
  Outcome n zone = Ends (λ _ l. AtMost n l × Served r (trim_suffix zone b'.') l) (AtMost n)

  at_most_of :
      (n : ℕ) (zone : Text) (out : Result (Unit {0}) × Log)
      → Outcome n zone out
      → puts out.1 ≤ n + 1
  at_most_of n zone (ok u, l) h = h.0
  at_most_of n zone (err e, l) h = h

  Served-of :
      (n : ℕ) (zone : Text) (out : Result (Unit {0}) × Log)
      → Outcome n zone out
      → out.0 ≡ ok tt
      → Served r (trim_suffix zone b'.') out.1
  Served-of n zone (ok u, l) h e = h.1
  Served-of n zone (err x, l) h e = absurd (cc e)

  Outcome-present : (req : Request) (l : Log) → Outcome (puts l) req.zone (present w r req l)
  unfolding present
  Outcome-present req l =
      (Served-reconcile (puts l) req.zone (some req.api_key_secret_ref) _
          (present_mutation-IsQuiet req)).at
        l refl

  Outcome-clean_up : (req : Request) (l : Log) → Outcome (puts l) req.zone (clean_up w r req l)
  unfolding clean_up
  Outcome-clean_up req l =
      (Served-reconcile (puts l) req.zone (some req.api_key_secret_ref) _
          (clean_up_mutation-IsQuiet req)).at
        l refl

  -- A request makes one PUT at most, whether it succeeds or fails.
  pub request_puts_once :
      (req : Request) (l : Log)
      → (puts (present w r req l).1 ≤ puts l + 1) × (puts (clean_up w r req l).1 ≤ puts l + 1)
  request_puts_once req l = (
    at_most_of (puts l) req.zone _ (Outcome-present req l),
    at_most_of (puts l) req.zone _ (Outcome-clean_up req l),
  )

  -- A `Present` that returns no error has saved a state that is settled in the zone: the zone had
  -- all of its challenge keys and no others to drop when it was last read, or mijn.host took a PUT.
  -- The lock is released right behind.
  pub present-Served :
      (req : Request) (l : Log)
      → (present w r req l).0 ≡ ok tt
      → Served r (trim_suffix req.zone b'.') (present w r req l).1
  present-Served req l e = Served-of (puts l) req.zone _ (Outcome-present req l) e

  -- The same for a `CleanUp` that returns no error.
  pub clean_up-Served :
      (req : Request) (l : Log)
      → (clean_up w r req l).0 ≡ ok tt
      → Served r (trim_suffix req.zone b'.') (clean_up w r req l).1
  clean_up-Served req l e = Served-of (puts l) req.zone _ (Outcome-clean_up req l) e
