-- ===== src/Tests/Launching.antt =====
-- A start of the API server, and its definitions.
use mathlib.Core.Path.{subst}
use cert_manager_webhook_mij.Prelude.{
  Bool, true, false, [], ◌∷◌, ◌++◌, All, Text, codes, text_eq, if◌then◌else◌, none, some, ◌≡◌, ◌≢◌,
  ◌⊎◌, inr, refl,
}
use cert_manager_webhook_mij.Failure.{ok}
use cert_manager_webhook_mij.Logged.{◌>>=◌}
use cert_manager_webhook_mij.Listing.Schemas.{
  schema, end, no_items, Definition, Definitions, list_meta_name, payload_name, list_definition,
  get_openapi_definitions,
}
use cert_manager_webhook_mij.Listing.Closed.{IsSchema, IsClosed, definitions-IsClosed}
use cert_manager_webhook_mij.Server.{
  RecommendedOptions, Solver, Libraries, Launch, run_webhook_server,
}
use cert_manager_webhook_mij.Server.Launching.{ExecutesOnce, Launched, run_webhook_server-Launched}

-- What cert-manager generates: a plain definition of the payload and of the metadata of lists.
abbrev plain : Definition Text
plain = record {
  schema_of = schema [] (codes "object" ∷ []) false none end no_items [];
  dependencies = [];
}

abbrev generated : (Text → Text) → Definitions Text
generated ref name =
    if text_eq name payload_name
    then some plain
    else if text_eq name list_meta_name
    then some plain
    else none

chosen :
    (b c : Bool) (def : Definition Text)
    → (if b then some plain else if c then some plain else none) ≡ some def
    → plain ≡ def
chosen true c def e = cc
chosen false true def e = cc
chosen false false def e = cc

generated-IsClosed : (ref : Text → Text) → IsClosed ref (generated ref)
generated-IsClosed ref = record {
  schemas = λ name def e.
      subst (λ f. IsSchema ref f.dependencies f.schema_of)
        (chosen (text_eq name payload_name) (text_eq name list_meta_name) def e) (tt, tt, tt, tt);
  known = λ name def e.
      subst (λ f. All (λ d. (g : Definition Text) × (generated ref d ≡ some g)) f.dependencies)
        (chosen (text_eq name payload_name) (text_eq name list_meta_name) def e) tt;
}

as_path : Text → Text
as_path name = codes "#/definitions/" ++ name

abbrev list_name : Text
list_name = codes "main.ChallengePayloadList"

definitions-IsClosed_example :
    IsClosed as_path (get_openapi_definitions as_path generated list_name)
    × (get_openapi_definitions as_path generated list_name list_name
        ≡ some (list_definition as_path))
    × ((name : Text)
        → name ≢ list_name
        → get_openapi_definitions as_path generated list_name name ≡ generated as_path name)
unfolding text_eq
definitions-IsClosed_example =
    definitions-IsClosed as_path generated list_name plain plain (generated-IsClosed as_path) refl
      refl

abbrev pub libraries : Libraries Text
libraries = record {
  new_recommended_options = record {
    has_etcd = true;
    has_admission = true;
    priority_and_fairness = true;
    others = [];
  };
  scheme_group_version = record {
    group = codes "webhook.acme.cert-manager.io";
    version = codes "v1alpha1";
  };
  new_rest = λ solver. solver.name;
  generated = generated;
  pkg_path = codes "main";
  type_name = codes "ChallengePayloadList";
  apply_logging = λ l. ok tt;
  validate_options = λ l opts. [];
  default_certs = λ l opts. ok tt;
  apply_options = λ l opts. ok (record {
    client_config = codes "in-cluster";
    effective_version = [];
    open_api = λ ref name. none;
    open_api_v3 = λ ref name. none;
  });
  new_server = λ l cfg. ok tt;
  install_api_group = λ l info. ok tt;
  run = λ l. ok tt;
}

abbrev solver : Solver
solver = record { name = codes "mijn-host"; initialize = λ config stop. ok tt }

-- A flag turns a feature on.
abbrev pub execute : RecommendedOptions → (RecommendedOptions → Launch Text) → Launch Text
execute opts run = run (record opts { priority_and_fairness = true })

pub execute-ExecutesOnce : ExecutesOnce execute
execute-ExecutesOnce = record {
  once = λ opts run l. inr (record opts { priority_and_fairness = true }, refl, refl, refl);
}

-- The server runs.
runs : (run_webhook_server libraries (codes "acme.example.com") solver execute []).0 ≡ ok tt
unfolding run_webhook_server ◌>>=◌
runs = refl

run_webhook_server-Launched_example :
    ((run_webhook_server libraries (codes "acme.example.com") solver execute []).1 ≡ [])
    ⊎ Launched libraries
        (codes "acme.example.com")
        solver
        (run_webhook_server libraries (codes "acme.example.com") solver execute [])
run_webhook_server-Launched_example =
    run_webhook_server-Launched libraries (codes "acme.example.com") solver execute
      execute-ExecutesOnce
