-- ===== src/Store/Finding.antt =====
-- zone/store.go: which zones `ListZones` finds.
use cert_manager_webhook_mij.Prelude.{
  List, [], ◌∷◌, ◌++◌, Text, codes, text_eq, is_empty, not_is_empty, Bool-cases, some, Any, first,
  later, ◌≡◌, ◌≢◌, refl, ap, inl, inr, arith,
}
use cert_manager_webhook_mij.Failure.{Result, ok, err, ok_injective}
use cert_manager_webhook_mij.Kubernetes.{Client, lookup, find}
use cert_manager_webhook_mij.Names.{object_name}
use cert_manager_webhook_mij.Store.{
  managed_by_label, managed_by_value, zone_label, zone_annotation, Handle,
}
use cert_manager_webhook_mij.Store.ConfigMaps.{
  ConfigMap, Json, config_map, annotated_zones, save, list_zones,
}
use cert_manager_webhook_mij.Store.Saving.{MapLaws, Stored-save, map_view}

-- A list for the selector of the program, `label=value,label`, holds every ConfigMap that can be got
-- and has the first label with that value and the second one with any.
abbrev pub Selects {ℓ} :
    {Cluster : Type ℓ}
    → Client ConfigMap Cluster
    → (Cluster → Text → Result (List ConfigMap))
    → Type ℓ
Selects {Cluster} cms list =
    (s : Cluster) (n label : Text) (cm : ConfigMap) (items : List ConfigMap)
    → cms.get s n ≡ ok cm
    → lookup managed_by_label cm.labels ≡ managed_by_value
    → find zone_label cm.labels ≡ some label
    → list s (managed_by_label ++ (codes "=" ++ (managed_by_value ++ (codes "," ++ zone_label))))
      ≡ ok items
    → Any (λ o. o ≡ cm) items

Any-annotated_zones :
    (zone : Text) (cm : ConfigMap) (items : List ConfigMap)
    → zone ≢ []
    → lookup zone_annotation cm.annotations ≡ zone
    → Any (λ o. o ≡ cm) items
    → Any (λ z. z ≡ zone) (annotated_zones items)
unfolding annotated_zones
Any-annotated_zones zone cm [] some_zone noted h = elim h [ ]
Any-annotated_zones zone cm (o ∷ items) some_zone noted (first e) =
    rw (e, noted, not_is_empty zone some_zone) (first refl)
Any-annotated_zones zone cm (o ∷ items) some_zone noted (later h) =
    let rest = Any-annotated_zones zone cm items some_zone noted h in
    elim (Bool-cases (is_empty (lookup zone_annotation o.annotations))) [
      | inl blank ↦ rw blank rest
      | inr named ↦ rw named (later rest)
    ]

labels_lem :
    (h : Handle) (raw : Text) (cm : ConfigMap)
    → map_view cm ≡ map_view (config_map h raw)
    → (lookup managed_by_label cm.labels ≡ managed_by_value)
      × ((label : Text) × (find zone_label cm.labels ≡ some label))
      × (lookup zone_annotation cm.annotations ≡ h.state.zone)
unfolding config_map lookup find text_eq
labels_lem h raw cm same = (
  ap (λ v. lookup managed_by_label v.0) same,
  (_, ap (λ v. find zone_label v.0) same),
  ap (λ v. lookup zone_annotation v.1.0) same,
)

module _ {ℓ} {Cluster : Type ℓ} (cms : Client ConfigMap Cluster) (json : Json) (laws : MapLaws cms)
    (list : Cluster → Text → Result (List ConfigMap)) (selects : Selects cms list) where
  -- A zone whose state was saved is among the zones that `ListZones` finds next. The zone has a name,
  -- and the API lists what matches the selector.
  pub saved_zone_is_listed :
      (h h' : Handle) (s s' : Cluster) (zones : List Text)
      → h.state.zone ≢ []
      → save cms json h s ≡ (ok h', s')
      → list_zones list s' ≡ ok zones
      → Any (λ z. z ≡ h.state.zone) zones
  unfolding list_zones
  saved_zone_is_listed h h' s s' zones some_zone saved listed =
      let st = Stored-save cms json laws h h' s s' saved in
      let (managed, (label, labelled), noted) = labels_lem h st.raw st.saved st.same in
      cases (list s' _) refl listed managed labelled noted st.found
    where
      cases :
          {cm : ConfigMap} {label : Text} (answer : Result (List ConfigMap))
          → list s'
              (managed_by_label ++ (codes "=" ++ (managed_by_value ++ (codes "," ++ zone_label))))
            ≡ answer
          → (elim answer [ ok items ↦ ok (annotated_zones items) | err e ↦ err e ]) ≡ ok zones
          → lookup managed_by_label cm.labels ≡ managed_by_value
          → find zone_label cm.labels ≡ some label
          → lookup zone_annotation cm.annotations ≡ h.state.zone
          → cms.get s' (object_name h.state.zone) ≡ ok cm
          → Any (λ z. z ≡ h.state.zone) zones
      cases {cm} {label} (ok items) e same managed labelled noted found =
          rw (← ok_injective (annotated_zones items) zones same) (
            Any-annotated_zones h.state.zone cm items some_zone noted
              (selects s' _ label cm items found managed labelled e))
      cases (err f) e same managed labelled noted found = ground (arith, same)
