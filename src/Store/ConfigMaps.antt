-- ===== src/Store/ConfigMaps.antt =====
-- zone/store.go: `ConfigMapStore`, which keeps the state of a zone in a ConfigMap.
use cert_manager_webhook_mij.Prelude.{
  Bool, true, false, List, [], ◌∷◌, ◌++◌, Text, codes, trim_suffix, trim_prefix, is_empty,
  if◌then◌else◌,
}
use cert_manager_webhook_mij.Failure.{not_found, Result, ok, err}
use cert_manager_webhook_mij.Names.{object_name, object_prefix}
use cert_manager_webhook_mij.Kubernetes.{Client, Dict, lookup}
use cert_manager_webhook_mij.Store.{
  managed_by_label, managed_by_value, zone_label, zone_annotation, state_key, State, Handle,
}

-- `corev1.ConfigMap`, as far as the program reads and writes it.
pub record ConfigMap : Type 0 where
  pub name : Text
  pub labels : Dict
  pub annotations : Dict
  pub data_map : Dict
  pub resource_version : Text

-- The zero value of `State`.
abbrev pub zero_state : State
zero_state = record {
  zone = [];
  api_key_secret_ref = record { namespace = []; name = []; key = [] };
  records = [];
}

-- Package encoding/json, on `State`. `unmarshal` starts from the fields of the given one.
pub record Json : Type 0 where
  pub marshal : State → Result Text
  pub unmarshal : Text → State → Result State

-- The ConfigMap that `Save` sends.
unfoldable pub config_map : Handle → Text → ConfigMap
unfolding trim_prefix
config_map h raw =
    let name = object_name h.state.zone in
    record {
      name = name;
      labels =
          (managed_by_label, managed_by_value) ∷ (zone_label, trim_prefix name object_prefix) ∷ [];
      annotations = (zone_annotation, h.state.zone) ∷ [];
      data_map = (state_key, raw) ∷ [];
      resource_version = h.resource_version;
    }

-- The zones of the listed ConfigMaps, from their annotations.
unfoldable pub annotated_zones : List ConfigMap → List Text
unfolding lookup
annotated_zones [] = []
annotated_zones (cm ∷ cms) =
    let rest = annotated_zones cms in
    let z = lookup zone_annotation cm.annotations in if is_empty z then rest else z ∷ rest

-- The handle of the state `st` that a ConfigMap holds.
abbrev pub handle_of : Text → ConfigMap → State → Handle
handle_of zone cm st = record {
  state = record st { zone = zone };
  resource_version = cm.resource_version;
  exists = true;
}

-- The handle behind a call of `Save`, which changes it where the write got through.
abbrev pub saved_handle : Handle → Result ConfigMap → Result Handle
saved_handle h (ok saved) =
    ok (record h { resource_version = saved.resource_version; exists = true })
saved_handle h (err e) = err e

module _ (json : Json) where
  -- `Load` from the answer of `Get`.
  unfoldable pub load_answer : Text → Result ConfigMap → Result Handle
  unfolding lookup
  load_answer zone (ok cm) =
      let raw = lookup state_key cm.data_map in
      if is_empty raw
      then ok (handle_of zone cm zero_state)
      else elim (json.unmarshal raw zero_state) [
        | ok st ↦ ok (handle_of zone cm st)
        | err e ↦ err e
      ]
  load_answer zone (err not_found) =
      ok (record {
        state = record zero_state { zone = zone };
        resource_version = [];
        exists = false;
      })
  load_answer zone (err e) = err e

module _ {ℓ} {Cluster : Type ℓ} (cms : Client ConfigMap Cluster) where
  -- `Update` or `Create` in `Save`.
  abbrev pub send : Bool → Cluster → ConfigMap → Result ConfigMap × Cluster
  send true s cm = cms.update s cm
  send false s cm = cms.create s cm

module _ {ℓ} {Cluster : Type ℓ} (cms : Client ConfigMap Cluster) (json : Json) where
  -- `Load`
  unfoldable pub load : Text → Cluster → Result Handle
  unfolding load_answer
  load raw_zone s =
      let zone = trim_suffix raw_zone b'.' in load_answer json zone (cms.get s (object_name zone))

  abbrev pub save_marshalled : Handle → Cluster → Result Text → Result Handle × Cluster
  save_marshalled h s (err e) = (err e, s)
  save_marshalled h s (ok raw) =
      let (r, s') = send cms h.exists s (config_map h raw) in (saved_handle h r, s')

  -- `Save`
  unfoldable pub save : Handle → Cluster → Result Handle × Cluster
  unfolding config_map
  save h s = save_marshalled h s (json.marshal h.state)

-- `ListZones`, where `list` takes the label selector.
unfoldable pub list_zones {ℓ} :
    {Cluster : Type ℓ} → (Cluster → Text → Result (List ConfigMap)) → Cluster → Result (List Text)
unfolding annotated_zones
list_zones list s =
    elim (list s
      (managed_by_label ++ (codes "=" ++ (managed_by_value ++ (codes "," ++ zone_label))))) [
        | ok items ↦ ok (annotated_zones items)
        | err e ↦ err e
      ]
