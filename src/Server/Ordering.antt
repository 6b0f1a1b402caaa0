-- ===== src/Server/Ordering.antt =====
-- server.go: the order in which the API server is put together, and what its errors say.
use cert_manager_webhook_mij.Prelude.{
  false, List, [], ◌∷◌, All, Any, Option, none, some, Text, codes, ◌≡◌,
}
use cert_manager_webhook_mij.Failure.{Failure, invalid_options, Result, ok, err}
use cert_manager_webhook_mij.Listing.{ListableRest}
use cert_manager_webhook_mij.Listing.Schemas.{list_definition}
use cert_manager_webhook_mij.Server.{
  RecommendedOptions, ServerConfig, Solver, ApiGroupInfo, Call, logging_applied, options_validated,
  certs_defaulted, options_applied, server_made, types_added, group_version_added, group_installed,
  hook_added, server_run, Libraries, list_type_name, group_version,
}

abbrev pub error_of {ℓ} : {A : Type ℓ} → Result A → Option Failure
error_of (ok a) = none
error_of (err e) = some e

abbrev pub error_of_list : List Text → Option Failure
error_of_list [] = none
error_of_list (e ∷ es) = some invalid_options

-- The error that a call gave.
abbrev pub failure_of : {Rest : Type 0} → Call Rest → Option Failure
failure_of (logging_applied r) = error_of r
failure_of (options_validated opts errs) = error_of_list errs
failure_of (certs_defaulted opts host ips r) = error_of r
failure_of (options_applied opts r) = error_of r
failure_of (server_made name cfg r) = error_of r
failure_of (types_added gv type_name) = none
failure_of (group_version_added gv) = none
failure_of (group_installed info r) = error_of r
failure_of (hook_added name hook) = none
failure_of (server_run r) = error_of r

abbrev pub Called : {Rest : Type 0} → Call Rest → List (Call Rest) → Type 0
Called c l = Any (λ d. c ≡ d) l

abbrev pub Succeeded : {Rest : Type 0} → List (Call Rest) → Type 0
Succeeded l = All (λ c. failure_of c ≡ none) l

-- What a result says of the calls: the server ran to its end, or the last call gave the error. Each
-- call before it succeeded.
abbrev pub Reported : {Rest : Type 0} → Result (Unit {0}) → List (Call Rest) → Type 0
Reported (ok u) l = (before : List (Call _)) × (l ≡ server_run (ok tt) ∷ before) × Succeeded before
Reported (err e) l =
    (c : Call _) × (before : List (Call _)) × (l ≡ c ∷ before)
    × (failure_of c ≡ some e)
    × Succeeded before

module _ {Rest : Type 0} (libs : Libraries Rest) (group_name : Text) (solver : Solver) where
  -- The group of a version is installed when the list is known in it and in cert-manager's group, and
  -- the server has a definition of the list.
  pub record IsInstallable (before : List (Call Rest)) (info : ApiGroupInfo Rest) : Type 0 where
    pub one_version : info.prioritized_versions ≡ group_version group_name ∷ []
    pub known : Called (types_added (group_version group_name) (list_type_name libs)) before
    pub natively_known : Called (types_added libs.scheme_group_version (list_type_name libs)) before
    pub options_known : Called (group_version_added (group_version group_name)) before
    pub made : (name : Text) × (cfg : ServerConfig) × Called (server_made name cfg (ok tt)) before

  -- The server may run when its group is installed with the handler of the solver and its hook will
  -- initialize the solver with the client of the options.
  pub record IsReady (before : List (Call Rest)) : Type 0 where
    pub installed :
        (info : ApiGroupInfo Rest) × (handler : ListableRest Rest) × Called
          (group_installed info (ok tt))
          before
        × (info.storage ≡ (codes "v1alpha1", (solver.name, handler) ∷ []) ∷ [])
        × (handler.inner ≡ libs.new_rest solver)
    pub hooked :
        (opts : RecommendedOptions) × (cfg : ServerConfig) × (name : Text) × Called
          (options_applied opts (ok cfg))
          before
        × Called (hook_added name (solver.initialize cfg.client_config)) before

  -- What must be so when a call is made, where `before` are the calls before it.
  abbrev pub Allowed : List (Call Rest) → Call Rest → Type 0
  Allowed before (options_applied opts r) = (opts.has_etcd ≡ false) × (opts.has_admission ≡ false)
  Allowed before (server_made name cfg r) =
      (ref : Text → Text)
      → (cfg.open_api ref (list_type_name libs) ≡ some (list_definition ref))
        × (cfg.open_api_v3 ref (list_type_name libs) ≡ some (list_definition ref))
  Allowed before (group_installed info r) = IsInstallable before info
  Allowed before (server_run r) = IsReady before
  Allowed before c = Unit

  abbrev pub IsOrdered : List (Call Rest) → Type 0
  IsOrdered [] = Unit
  IsOrdered (c ∷ before) = Allowed before c × IsOrdered before
