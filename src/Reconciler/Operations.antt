-- ===== src/Reconciler/Operations.antt =====
-- What each operation does to the desired list.
use cert_manager_webhook_mij.Prelude.{
  ℕ, ◌⊎◌, ◌≡◌, refl, ◌&&◌, List, [], ◌∷◌, Text, text_eq, if◌then◌else◌, none, some, keep,
  Bool-cases, inl, inr, ap,
}
use cert_manager_webhook_mij.Failure.{ok}
use cert_manager_webhook_mij.Names.{absolute_name}
use cert_manager_webhook_mij.Store.{Record}
use cert_manager_webhook_mij.World.{Log, Outside, clocked, ◌>>=◌}
use cert_manager_webhook_mij.Records.{retime, without}
use cert_manager_webhook_mij.Records.Desired.{
  find_record, renewed, presented, UniqueRecords, is_fresh, find_record-presented,
  presented-UniqueRecords, find_record-without, without-UniqueRecords, without-presented,
  split_expired_lem,
}
use cert_manager_webhook_mij.Write.{Reconciler}
use cert_manager_webhook_mij.Reconciler.{Request, present_mutation, clean_up_mutation, drop_expired}

module _ (w : Outside) (r : Reconciler) where
  -- The record that a request asks for, at the time of the call.
  abbrev pub asked_record : Request → Log → Record
  asked_record req l = record {
    name = absolute_name req.name req.zone;
    value = req.value;
    ttl = req.ttl;
    added_at = w.now l;
    challenge_uid = req.challenge_uid;
    dns_name = req.dns_name;
  }

  pub present_mutation-eq-presented :
      (req : Request) (recs : List Record) (l : Log)
      → (present_mutation w r req recs l).0 ≡ ok (presented recs (asked_record req l), [])
  unfolding present_mutation ◌>>=◌
  present_mutation-eq-presented req recs l =
      elim (Bool-cases (retime (absolute_name req.name req.zone) req.value req.ttl recs).1) [
        | inl e ↦ rw e
        | inr e ↦ rw e
      ]

  -- It reads the clock at most.
  pub present_mutation_reads :
      (req : Request) (recs : List Record) (l : Log)
      → ((present_mutation w r req recs l).1 ≡ l)
        ⊎ ((now : ℕ) × ((present_mutation w r req recs l).1 ≡ clocked now ∷ l))
  unfolding present_mutation ◌>>=◌
  present_mutation_reads req recs l =
      elim (Bool-cases (retime (absolute_name req.name req.zone) req.value req.ttl recs).1) [
        | inl e ↦ rw e (inl refl)
        | inr e ↦ rw e (inr (w.now l, refl))
      ]

  -- `Present` gives up no key. Behind it the requested name and value have one record: the one that
  -- was there, with the requested TTL, or a new one. Every other name and value keep theirs, and
  -- a list without repeated records stays without them.
  pub present_mutation_lem :
      (req : Request) (recs : List Record) (l : Log)
      → UniqueRecords recs
      → (recs' : List Record) × ((present_mutation w r req recs l).0 ≡ ok (recs', []))
        × ((n v : Text)
            → find_record n v recs' ≡ (
                if text_eq (absolute_name req.name req.zone) n && text_eq req.value v
                then some (renewed (find_record n v recs) (asked_record req l))
                else find_record n v recs))
        × UniqueRecords recs'
  present_mutation_lem req recs l u = (
    presented recs (asked_record req l),
    present_mutation-eq-presented req recs l,
    find_record-presented recs (asked_record req l),
    presented-UniqueRecords recs (asked_record req l) u,
  )

  -- `CleanUp` gives up the requested key, which has no record behind it. Every other name and value
  -- keep theirs, and a list without repeated records stays without them.
  pub clean_up_mutation_lem :
      (req : Request) (recs : List Record) (l : Log)
      → UniqueRecords recs
      → (recs' : List Record) × ((clean_up_mutation w r req recs l).0
          ≡ ok (recs', record { name = absolute_name req.name req.zone; value = req.value } ∷ []))
        × ((n v : Text)
            → find_record n v recs' ≡ (
                if text_eq (absolute_name req.name req.zone) n && text_eq req.value v
                then none
                else find_record n v recs))
        × UniqueRecords recs'
  unfolding clean_up_mutation ◌>>=◌
  clean_up_mutation_lem req recs l u =
      let name = absolute_name req.name req.zone in
      (
        without name req.value recs,
        refl,
        λ n v. find_record-without name req.value n v recs,
        without-UniqueRecords name req.value recs u,
      )

  -- A `CleanUp` behind a `Present` of the same request leaves the list that it leaves without the
  -- `Present`.
  pub clean_up-present :
      (req : Request) (recs : List Record) (l l' : Log)
      → ((present_mutation w r req recs >>= λ (recs', _). clean_up_mutation w r req recs') l).0
        ≡ (clean_up_mutation w r req recs l').0
  unfolding clean_up_mutation ◌>>=◌
  clean_up-present req recs l l' = rw (present_mutation-eq-presented req recs l) (
      ap
        (λ (rest : List Record).
          ok (rest, record { name = absolute_name req.name req.zone; value = req.value } ∷ []))
        (without-presented recs (asked_record req l)))

  -- Exactly the records that are older than `MaxRecordAge` are dropped; those without a time stay.
  drop_expired_lem :
      (recs : List Record) (l : Log)
      → (drop_expired w r recs l).0 ≡ ok (keep (is_fresh (w.now l) r.max_record_age) recs)
  unfolding drop_expired ◌>>=◌
  drop_expired_lem recs l = ap ok (split_expired_lem (w.now l) r.max_record_age recs)
