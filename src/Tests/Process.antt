-- ===== src/Tests/Process.antt =====
-- A process from its environment to its exit code.
use cert_manager_webhook_mij.Prelude.{[], ◌≡◌, ◌↔◌, refl, Text, text_eq}
use cert_manager_webhook_mij.Failure.{Result, ok}
use cert_manager_webhook_mij.Logged.{◌>>=◌}
use cert_manager_webhook_mij.Settings.{Settings, load_settings}
use cert_manager_webhook_mij.Settings.Loading.{IsFrom}
use cert_manager_webhook_mij.Solver.Startup.{new_solver}
use cert_manager_webhook_mij.Server.{run_webhook_server}
use cert_manager_webhook_mij.Program.{IsGroup, IsSolverOf, main, main_serves}
use cert_manager_webhook_mij.Tests.Startup.{environment, parse_duration}
use cert_manager_webhook_mij.Tests.Launching.{libraries, execute}

abbrev client : Text → Result (Unit {0})
client config = ok tt

exits : main parse_duration environment libraries execute client client ≡ 0
unfolding main load_settings text_eq run_webhook_server ◌>>=◌
exits = refl

main_serves_example :
    ((main parse_duration environment libraries execute client client ≡ 0) ↔ (
      (s : Settings) × (group : Text) × IsFrom parse_duration environment s
      × IsGroup parse_duration environment libraries execute client client group
      × ((run_webhook_server libraries group (new_solver client client s) execute []).0 ≡ ok tt)))
    × ((s : Settings)
        → IsSolverOf parse_duration environment libraries execute client client s
            (new_solver client client s))
main_serves_example = main_serves parse_duration environment libraries execute client client
