-- ===== src/Store/Saving.antt =====
-- zone/store.go: what a `Save` keeps for the next `Load`, and which saves are refused.
use cert_manager_webhook_mij.Prelude.{
  Bool, true, false, [], ◌∷◌, Text, text_eq, trim_suffix, ◌≡◌, ◌≢◌, refl, ap, arith,
}
use cert_manager_webhook_mij.Failure.{not_found, Result, ok, err}
use cert_manager_webhook_mij.Names.{object_name}
use cert_manager_webhook_mij.Kubernetes.{Client, Laws, Dict, lookup}
use cert_manager_webhook_mij.Store.{State, Handle, state_key}
use cert_manager_webhook_mij.Store.ConfigMaps.{
  ConfigMap, Json, config_map, handle_of, saved_handle, zero_state, load_answer, load, send,
  save_marshalled, save,
}

-- What the API stores of a ConfigMap.
abbrev pub map_view : ConfigMap → Dict × (Dict × Dict)
map_view cm = (cm.labels, (cm.annotations, cm.data_map))

abbrev pub MapLaws {ℓ} : {Cluster : Type ℓ} → Client ConfigMap Cluster → Type ℓ
MapLaws cms = Laws cms (λ cm. cm.name) (λ cm. cm.resource_version) map_view

-- encoding/json reads what it wrote, which is never empty.
abbrev pub RoundTrips : Json → Type 0
RoundTrips json =
    (st : State) (raw : Text)
    → json.marshal st ≡ ok raw
    → (raw ≢ []) × (json.unmarshal raw zero_state ≡ ok st)

module _ {ℓ} {Cluster : Type ℓ} (cms : Client ConfigMap Cluster) (json : Json)
    (laws : MapLaws cms) where
  -- What a save that got through did.
  pub record Stored (h h' : Handle) (s s' : Cluster) : Type ℓ where
    pub raw : Text
    pub saved : ConfigMap
    pub marshalled : json.marshal h.state ≡ ok raw
    pub sent : send cms h.exists s (config_map h raw) ≡ (ok saved, s')
    pub handle : h' ≡ record h { resource_version = saved.resource_version; exists = true }
    pub found : cms.get s' (object_name h.state.zone) ≡ ok saved
    pub same : map_view saved ≡ map_view (config_map h raw)

  send_lem :
      (e : Bool) (s s' : Cluster) (cm saved : ConfigMap)
      → send cms e s cm ≡ (ok saved, s')
      → (cms.get s' cm.name ≡ ok saved) × (map_view saved ≡ map_view cm)
  send_lem true s s' cm saved h = laws.updated s s' cm saved h
  send_lem false s s' cm saved h = laws.created s s' cm saved h

  saved_handle_lem :
      (h h' : Handle) (r : Result ConfigMap)
      → saved_handle h r ≡ ok h'
      → (saved : ConfigMap) × ((r ≡ ok saved)
          × (h' ≡ record h { resource_version = saved.resource_version; exists = true }))
  saved_handle_lem h h' (ok saved) e = (saved, (refl, ground (arith, e)))
  saved_handle_lem h h' (err f) e = ground (arith, e)

  Stored-marshalled :
      (h h' : Handle) (s s' : Cluster) (m : Result Text)
      → json.marshal h.state ≡ m
      → save_marshalled cms json h s m ≡ (ok h', s')
      → Stored h h' s s'
  unfolding config_map
  Stored-marshalled h h' s s' (err f) m e = ground (arith, e)
  Stored-marshalled h h' s s' (ok raw) m e =
      let cm = config_map h raw in
      let answer = send cms h.exists s cm in
      let (saved, (done, handle)) = saved_handle_lem h h' answer.0 (ap (λ p. p.0) e) in
      let sent : answer ≡ (ok saved, s') = cc (done, e) in
      let (found, same) = send_lem h.exists s s' cm saved sent in
      record {
        raw = raw;
        saved = saved;
        marshalled = m;
        sent = sent;
        handle = handle;
        found = found;
        same = same;
      }

  pub Stored-save :
      (h h' : Handle) (s s' : Cluster) → save cms json h s ≡ (ok h', s') → Stored h h' s s'
  unfolding save
  Stored-save h h' s s' e = Stored-marshalled h h' s s' (json.marshal h.state) refl e

  pub load_answer_lem :
      (zone : Text) (cm : ConfigMap) (st : State) (raw : Text)
      → cm.data_map ≡ (state_key, raw) ∷ []
      → raw ≢ []
      → json.unmarshal raw zero_state ≡ ok st
      → load_answer json zone (ok cm) ≡ ok (handle_of zone cm st)
  unfolding load_answer lookup text_eq
  load_answer_lem zone cm st [] data_map some_text decoded = ground (arith, some_text)
  load_answer_lem zone cm st (c ∷ raw) data_map some_text decoded = rw (data_map, decoded) refl

  -- A load behind a save finds the saved state and version, under every zone name that has the same
  -- object name: for the saved zone itself this is the round trip. Only the zone's name is the
  -- caller's own. The JSON encoding round-trips, and the API keeps what it promises.
  pub load-save :
      RoundTrips json
      → (h h' : Handle) (s s' : Cluster) (zone : Text)
      → object_name (trim_suffix zone b'.') ≡ object_name h.state.zone
      → save cms json h s ≡ (ok h', s')
      → load cms json zone s'
        ≡ ok (record h' { state = record (h.state) { zone = trim_suffix zone b'.' } })
  unfolding load config_map
  load-save trips h h' s s' zone name e =
      let st = Stored-save h h' s s' e in
      let (some_text, decoded) = trips h.state st.raw st.marshalled in
      rw (name, st.found, st.handle)
        (load_answer_lem (trim_suffix zone b'.') st.saved h.state st.raw (ap (λ v. v.1.1) st.same)
          some_text decoded)

  -- What a handle knows of the ConfigMap of its zone.
  pub data IsCurrent (s : Cluster) (h : Handle) : Type ℓ where
    absent : h.exists ≡ false → IsCurrent s h
    known :
        (cm : ConfigMap)
        → cms.get s (object_name h.state.zone) ≡ ok cm
        → h.resource_version ≡ cm.resource_version
        → h.exists ≡ true
        → IsCurrent s h

  decoded_lem :
      (zone : Text) (cm : ConfigMap) (h : Handle)
      → load_answer json zone (ok cm) ≡ ok h
      → (h.state.zone ≡ zone) × ((h.resource_version ≡ cm.resource_version) × (h.exists ≡ true))
  unfolding load_answer
  decoded_lem zone cm h e = ground (arith, e)

  answer_zone :
      (zone : Text) (r : Result ConfigMap) (h : Handle)
      → load_answer json zone r ≡ ok h
      → h.state.zone ≡ zone
  unfolding load_answer
  answer_zone zone (ok cm) h e = (decoded_lem zone cm h e).0
  answer_zone zone (err not_found) h e = ground (arith, e)
  answer_zone zone (err f) h e = ground (arith, e)

  pub load_zone :
      (zone : Text) (s : Cluster) (h : Handle)
      → load cms json zone s ≡ ok h
      → h.state.zone ≡ trim_suffix zone b'.'
  unfolding load
  load_zone zone s h e = answer_zone (trim_suffix zone b'.') (cms.get s _) h e

  answer-IsCurrent :
      (s : Cluster) (zone : Text) (r : Result ConfigMap) (h : Handle)
      → cms.get s (object_name zone) ≡ r
      → load_answer json zone r ≡ ok h
      → IsCurrent s h
  unfolding load_answer
  answer-IsCurrent s zone (ok cm) h got e =
      let (z, (version, exists)) = decoded_lem zone cm h e in known cm (cc (got, z)) version exists
  answer-IsCurrent s zone (err not_found) h got e = absent (ground (arith, e))
  answer-IsCurrent s zone (err f) h got e = ground (arith, e)

  pub load-IsCurrent :
      (s : Cluster) (zone : Text) (h : Handle) → load cms json zone s ≡ ok h → IsCurrent s h
  unfolding load
  load-IsCurrent s zone h e =
      let z = trim_suffix zone b'.' in answer-IsCurrent s z (cms.get s (object_name z)) h refl e

  -- Of two writers that loaded the same state, only one saves: once the save of the first one has
  -- changed the version of the ConfigMap, or created it, the save of the second one fails. Both
  -- keep the zone that they loaded.
  pub second_save_refused :
      (zone : Text) (h h' h'' : Handle) (first second : State) (s s1 s2 : Cluster)
      → load cms json zone s ≡ ok h
      → first.zone ≡ h.state.zone
      → second.zone ≡ h.state.zone
      → save cms json (record h { state = first }) s ≡ (ok h', s1)
      → h'.resource_version ≢ h.resource_version
      → save cms json (record h { state = second }) s1 ≢ (ok h'', s2)
  unfolding config_map
  second_save_refused zone h h' h'' first second s s1 s2 loaded z1 z2 saved moved again =
      let won = Stored-save (record h { state = first }) h' s s1 saved in
      let late = Stored-save (record h { state = second }) h'' s1 s2 again in
      let cm = config_map (record h { state = second }) late.raw in
      let held : cms.get s1 (object_name second.zone) ≡ ok won.saved = cc (won.found, z1, z2) in
      elim (load-IsCurrent s zone h loaded) [
        | absent e ↦ laws.taken s1 s2 cm won.saved late.saved held (cc (late.sent, e))
        | known old got version e ↦
            laws.stale s1 s2 cm won.saved late.saved held
              (λ blank. laws.versioned s (object_name h.state.zone) old got (cc (version, blank)))
              (λ same. moved (cc (same, won.handle))) (cc (late.sent, e))
      ]
