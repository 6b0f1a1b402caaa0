-- ===== src/Tests/Answers.antt =====
-- Answers of mijn.host, and a watcher.
use cert_manager_webhook_mij.Prelude.{true, false, ◌||◌, Text, codes, some, ◌≡◌, ◌⊎◌, ◌↔◌, refl}
use cert_manager_webhook_mij.Failure.{ok}
use cert_manager_webhook_mij.Mijnhost.Client.{ApiStatus, Client, new_client, put_records}
use cert_manager_webhook_mij.Mijnhost.Client.Answers.{
  IsAccepted, Received, path_of, put_records-Received,
}
use cert_manager_webhook_mij.Listing.{
  BlockingWatcher, new_blocking_watcher, stop, finish, Step, stopping, cancelled, finishing, Reach,
  here, next,
}
use cert_manager_webhook_mij.Listing.Watching.{IsSound, watcher-IsSound}
use cert_manager_webhook_mij.Tests.Samples.{zone, wished}
use cert_manager_webhook_mij.Tests.Whole.{web}

abbrev client : Client
client = new_client (codes "secret")

put_records-Received_example : (put_records web client zone wished ≡ ok tt) ↔ (
    (body : Text) × (st : ApiStatus) × (web.encode_records wished ≡ ok body)
    × Received web client web.decode_status (codes "PUT") (path_of web client zone) (some body) st
    × IsAccepted st)
put_records-Received_example = put_records-Received web client zone wished

-- Stopped twice, with the end of its context between, and closed.
abbrev watcher : BlockingWatcher
watcher = finish (stop (record (stop (new_blocking_watcher false)) { context_over = true }))

watcher_runs : Reach (new_blocking_watcher false) watcher
unfolding new_blocking_watcher stop finish
watcher_runs =
    next (next (next (next here (stopping _)) (cancelled _)) (stopping _)) (finishing _ refl)

watcher-IsSound_example :
    IsSound watcher
    × (((watcher.context_over || watcher.stop_closed) ≡ false)
        ⊎ ((watcher.result_closed ≡ true)
            ⊎ ((v : BlockingWatcher) × Step watcher v × (v.result_closed ≡ true))))
watcher-IsSound_example = watcher-IsSound false watcher_runs
