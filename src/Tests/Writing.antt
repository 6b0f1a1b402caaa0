-- ===== src/Tests/Writing.antt =====
-- Two writers of one zone.
use cert_manager_webhook_mij.Prelude.{true, false, [], ◌∷◌, Text, codes, length, ◌≡◌, refl}
use cert_manager_webhook_mij.Failure.{ok}
use cert_manager_webhook_mij.Store.{State, Handle}
use cert_manager_webhook_mij.Store.ConfigMaps.{load, save}
use cert_manager_webhook_mij.Store.Saving.{map_view}
use cert_manager_webhook_mij.Store.Landing.{MapWriteLaws}
use cert_manager_webhook_mij.Store.Writers.{Ran, Writes, begin, reads, saves}
use cert_manager_webhook_mij.Store.Writers.Serial.{saves_are_serial}
use cert_manager_webhook_mij.Tests.Cluster.{slot-WriteLaws, slot_create}
use cert_manager_webhook_mij.Tests.Encoding.{encoding, encoding-RoundTrips}
use cert_manager_webhook_mij.Tests.Storing.{
  Cluster, maps, maps-MapLaws, state_of, new_handle, empty_cluster, load_runs,
}

maps-MapWriteLaws : MapWriteLaws maps length
maps-MapWriteLaws =
    slot-WriteLaws (λ o. o.name) (λ o. o.resource_version)
      (λ v o. record o { resource_version = v }) map_view (λ v o. refl) (λ v o. refl) (λ v o. refl)

abbrev shop : Text
shop = codes "my-shop.nl"

abbrev one : State → State
one st = state_of (codes "one")

abbrev two : State → State
two st = state_of (codes "two")

-- Both load the empty zone; the first one saves, then the second one.
abbrev behind_one : Cluster
behind_one =
    (save maps encoding (record new_handle { state = one new_handle.state }) empty_cluster).1

abbrev behind_two : Cluster
behind_two = (save maps encoding (record new_handle { state = two new_handle.state }) behind_one).1

writers_run :
    Writes maps encoding shop empty_cluster
      (record { mutate = two; acknowledged = false }
        ∷ record { mutate = one; acknowledged = true }
        ∷ [])
      (behind_two, [])
unfolding save encoding slot_create
writers_run =
    saves [] [] new_handle two
      (saves [] (new_handle ∷ []) new_handle one
        (reads new_handle (reads new_handle begin load_runs) load_runs) refl)
      refl

saves_are_serial_example :
    (now : Handle) × (load maps encoding shop behind_two ≡ ok now)
    × Ran new_handle.state
        (record { mutate = two; acknowledged = false }
          ∷ record { mutate = one; acknowledged = true }
          ∷ [])
        now.state
saves_are_serial_example =
    saves_are_serial maps encoding shop maps-MapLaws encoding-RoundTrips length maps-MapWriteLaws
      new_handle load_runs writers_run
