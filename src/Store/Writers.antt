-- ===== src/Store/Writers.antt =====
-- zone/store.go: many writers of one zone, whose loads and saves interleave.
pub mod Tracking
pub mod Serial
use cert_manager_webhook_mij.Prelude.{
  ℕ, ◌<◌, Bool, true, false, List, [], ◌∷◌, ◌++◌, Text, All, All-middle, All-map, trim_suffix, ◌≡◌,
  ◌≢◌, ◌⊎◌, inl, inr, refl, sym, ap, ◌∙◌, arith,
}
use cert_manager_webhook_mij.Failure.{Failure, Result, ok, err, ok_injective}
use cert_manager_webhook_mij.Names.{object_name}
use cert_manager_webhook_mij.Kubernetes.{Client}
use cert_manager_webhook_mij.Store.{State, Handle}
use cert_manager_webhook_mij.Store.ConfigMaps.{ConfigMap, Json, config_map, handle_of, load, save}
use cert_manager_webhook_mij.Store.Saving.{
  MapLaws, RoundTrips, Stored-save, IsCurrent, absent, known, load_zone, load_answer_lem,
  load-IsCurrent, load-save,
}
use cert_manager_webhook_mij.Store.Landing.{MapWriteLaws, Replaces, Landed, Effect, save-Effect}

abbrev pub is_ok {ℓ} : {A : Type ℓ} → Result A → Bool
is_ok (ok a) = true
is_ok (err e) = false

-- What a writer made of the state that it had loaded, and whether its save was answered by no error.
pub record Attempt : Type 0 where
  pub mutate : State → State
  pub acknowledged : Bool

-- Some of the attempts, the newest first, one after another: all that were acknowledged, and of the
-- others any.
pub data Ran (start : State) : List Attempt → State → Type 0 where
  nothing : Ran start [] start
  applied :
      {attempts : List Attempt} {st : State} (mutate : State → State) (acknowledged : Bool)
      → Ran start attempts st
      → Ran start (record { mutate = mutate; acknowledged = acknowledged } ∷ attempts) (mutate st)
  dropped :
      {attempts : List Attempt} {st : State} (mutate : State → State)
      → Ran start attempts st
      → Ran start (record { mutate = mutate; acknowledged = false } ∷ attempts) st

module _ {ℓ} {Cluster : Type ℓ} (cms : Client ConfigMap Cluster) (json : Json) (zone : Text) where
  abbrev pub name : Text
  name = object_name (trim_suffix zone b'.')

  -- The cluster, and what writers have loaded and not saved yet.
  abbrev pub Sessions : Type ℓ
  Sessions = Cluster × List Handle

  -- Writers in any order: each loads the state of the zone, and may save once what it makes of it,
  -- under the same zone. Whatever else happens leaves the ConfigMap of the zone alone.
  pub data Writes (start : Cluster) : List Attempt → Sessions → Type ℓ where
    begin : Writes start [] (start, [])
    reads :
        {attempts : List Attempt} {s : Cluster} {pool : List Handle} (h : Handle)
        → Writes start attempts (s, pool)
        → load cms json zone s ≡ ok h
        → Writes start attempts (s, h ∷ pool)
    saves :
        {attempts : List Attempt} {s : Cluster} (before after : List Handle) (h : Handle)
        (mutate : State → State)
        → Writes start attempts (s, before ++ h ∷ after)
        → (mutate h.state).zone ≡ h.state.zone
        → Writes start
            (record {
              mutate = mutate;
              acknowledged = is_ok (save cms json (record h { state = mutate h.state }) s).0;
            }
              ∷ attempts)
            ((save cms json (record h { state = mutate h.state }) s).1, before ++ after)
    elsewhere :
        {attempts : List Attempt} {s : Cluster} {pool : List Handle} (s' : Cluster)
        → Writes start attempts (s, pool)
        → cms.get s' name ≡ cms.get s name
        → Writes start attempts (s', pool)
