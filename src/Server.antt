-- ===== src/Server.antt =====
-- server.go: how the API server is put together and run. Its libraries (cobra, k8s.io/apiserver,
-- cert-manager) are the fields of `Libraries`, whose answers may depend on all that was called before,
-- and an argument for what cobra does with a command. Their loggers are left out.
pub mod Ordering
pub mod Launching
use cert_manager_webhook_mij.Prelude.{
  List, [], ◌∷◌, ◌++◌, Text, codes, is_empty, if◌then◌else◌, Bool, false,
}
use cert_manager_webhook_mij.Failure.{invalid_options, Result, ok, err}
use cert_manager_webhook_mij.Logged.{Logged, pure, raise, call, tell, ◌>>=◌, ◌>>◌}
use cert_manager_webhook_mij.Listing.{ListableRest, new_listable_rest}
use cert_manager_webhook_mij.Listing.Schemas.{
  Definitions, challenge_payload_list_type_name, get_openapi_definitions,
}

-- `schema.GroupVersion`
pub record GroupVersion : Type 0 where
  pub group : Text
  pub version : Text

-- The version that is served, in the group of the environment.
abbrev pub group_version : Text → GroupVersion
group_version group_name = record { group = group_name; version = codes "v1alpha1" }

-- `RecommendedOptions`, as far as the program sets it; `others` is the rest.
pub record RecommendedOptions : Type 0 where
  pub has_etcd : Bool
  pub has_admission : Bool
  pub priority_and_fairness : Bool
  pub others : Text

-- The configuration of the server, with that of its client. The definitions stand for the
-- configuration of OpenAPI that is made of them.
pub record ServerConfig : Type 0 where
  pub client_config : Text
  pub effective_version : Text
  pub open_api : (Text → Text) → Definitions Text
  pub open_api_v3 : (Text → Text) → Definitions Text

-- `webhook.Solver`, without its challenges. Its `Initialize` takes the channel that is closed at the
-- end, which is a number here.
pub record Solver : Type 0 where
  pub name : Text
  pub initialize : (client_config : Text) → (stop : Text) → Result (Unit {0})

-- `APIGroupInfo`, without its codecs; the maps are lists of what they are made with.
pub record ApiGroupInfo (Rest : Type 0) : Type 0 where
  pub prioritized_versions : List GroupVersion
  pub storage : List (Text × List (Text × ListableRest Rest))
  pub options_external_version : Text

-- The calls, each with its arguments and its answer.
pub data Call (Rest : Type 0) : Type 0 where
  logging_applied : Result (Unit {0}) → Call Rest
  options_validated : RecommendedOptions → List Text → Call Rest
  certs_defaulted :
      RecommendedOptions → (host : Text) → (ips : List Text) → Result (Unit {0}) → Call Rest
  options_applied : RecommendedOptions → Result ServerConfig → Call Rest
  server_made : (name : Text) → ServerConfig → Result (Unit {0}) → Call Rest
  types_added : GroupVersion → (type_name : Text) → Call Rest
  group_version_added : GroupVersion → Call Rest
  group_installed : ApiGroupInfo Rest → Result (Unit {0}) → Call Rest
  hook_added : (name : Text) → ((stop : Text) → Result (Unit {0})) → Call Rest
  server_run : Result (Unit {0}) → Call Rest

-- What the program is given. `type_name` is what `reflect` says of `ChallengePayloadList`. The
-- certificates that `default_certs` puts into the options are seen by the answers behind it, in the log.
pub record Libraries (Rest : Type 0) : Type 0 where
  pub new_recommended_options : RecommendedOptions
  pub scheme_group_version : GroupVersion
  pub new_rest : Solver → Rest
  pub generated : (Text → Text) → Definitions Text
  pub pkg_path : Text
  pub type_name : Text
  pub apply_logging : List (Call Rest) → Result (Unit {0})
  pub validate_options : List (Call Rest) → RecommendedOptions → List Text
  pub default_certs : List (Call Rest) → RecommendedOptions → Result (Unit {0})
  pub apply_options : List (Call Rest) → RecommendedOptions → Result ServerConfig
  pub new_server : List (Call Rest) → ServerConfig → Result (Unit {0})
  pub install_api_group : List (Call Rest) → ApiGroupInfo Rest → Result (Unit {0})
  pub run : List (Call Rest) → Result (Unit {0})

abbrev pub Launch : Type 0 → Type 0
Launch Rest = Logged (Call Rest) (Unit {0})

module _ {Rest : Type 0} (libs : Libraries Rest) where
  abbrev pub list_type_name : Text
  list_type_name = challenge_payload_list_type_name libs.pkg_path libs.type_name

  abbrev pub definitions : (Text → Text) → Definitions Text
  definitions ref = get_openapi_definitions ref libs.generated list_type_name

  -- The configuration behind `ApplyTo`, as the program completes it.
  abbrev pub completed : ServerConfig → ServerConfig
  completed cfg = record cfg {
    effective_version = codes "1.1";
    open_api = definitions;
    open_api_v3 = definitions;
  }

  -- A call that cannot fail.
  abbrev note : Call Rest → Launch Rest
  note c = tell (λ _. tt) (λ _. c)

  -- `registerListTypes`
  unfoldable pub register_list_types : GroupVersion → Launch Rest
  register_list_types gv = do
    note (types_added gv list_type_name)
    note (types_added libs.scheme_group_version list_type_name)
    note (group_version_added gv)

  abbrev pub validated : List Text → Launch Rest
  validated errs = if is_empty errs then pure tt else raise invalid_options

  -- The options that the command starts from.
  abbrev pub recommended : RecommendedOptions
  recommended = record libs.new_recommended_options {
    has_etcd = false;
    has_admission = false;
    priority_and_fairness = false;
  }

  module _ (group_name : Text) (solver : Solver) where
    abbrev pub challenge_handler : ListableRest Rest
    challenge_handler =
        new_listable_rest libs.scheme_group_version.group (libs.new_rest solver) solver.name

    abbrev pub api_group_info : ApiGroupInfo Rest
    api_group_info = record {
      prioritized_versions = group_version group_name ∷ [];
      storage = ((group_version group_name).version, (solver.name, challenge_handler) ∷ []) ∷ [];
      options_external_version = codes "v1";
    }

    -- The end of `runAPIServer`, behind the registration of the types.
    unfoldable pub install_and_run : ServerConfig → Launch Rest
    install_and_run cfg = do
      call (λ l. libs.install_api_group l api_group_info) (group_installed api_group_info)
      note (
          hook_added (codes "solver-" ++ solver.name ++ codes "-init")
            (λ stop. solver.initialize cfg.client_config stop))
      call libs.run server_run

    -- `runAPIServer`
    unfoldable pub run_api_server : RecommendedOptions → Launch Rest
    unfolding register_list_types install_and_run
    run_api_server opts = do
      call (λ l. libs.default_certs l opts)
          (certs_defaulted opts (codes "localhost") (codes "127.0.0.1" ∷ []))
      cfg ← call (λ l. libs.apply_options l opts) (options_applied opts)
      call (λ l. libs.new_server l (completed cfg))
          (server_made (codes "challenge-server") (completed cfg))
      register_list_types (group_version group_name)
      install_and_run cfg

    -- `RunE` of the command.
    unfoldable pub run_command : RecommendedOptions → Launch Rest
    unfolding run_api_server
    run_command opts = do
      call libs.apply_logging logging_applied
      errs ← tell (λ l. libs.validate_options l opts) (options_validated opts)
      validated errs
      run_api_server opts

    -- `runWebhookServer`, where `execute` is what cobra does with the flags of options and a command.
    unfoldable pub run_webhook_server :
        (RecommendedOptions → (RecommendedOptions → Launch Rest) → Launch Rest) → Launch Rest
    unfolding run_command
    run_webhook_server execute = execute recommended run_command
