-- ===== src/Server/Launching.antt =====
-- server.go: the calls of a start, in all their outcomes.
use cert_manager_webhook_mij.Prelude.{
  false, List, [], ◌∷◌, ◌++◌, first, later, some, Text, codes, text_eq_refl, ◌≡◌, ◌⊎◌, inl, inr,
  refl,
}
use cert_manager_webhook_mij.Failure.{Result, ok, err}
use cert_manager_webhook_mij.Logged.{call, tell, continue, ◌>>=◌, ◌>>◌}
use cert_manager_webhook_mij.Listing.Schemas.{list_definition, get_openapi_definitions}
use cert_manager_webhook_mij.Server.{
  RecommendedOptions, ServerConfig, Solver, Call, options_validated, options_applied, server_made,
  types_added, group_version_added, server_run, Libraries, Launch, list_type_name, definitions,
  completed, register_list_types, group_version, challenge_handler, api_group_info, run_api_server,
  install_and_run, validated, run_command, recommended, run_webhook_server,
}
use cert_manager_webhook_mij.Server.Ordering.{
  failure_of, Called, Succeeded, Reported, IsReady, Allowed, IsOrdered, error_of,
}

-- What cobra does with a command: it ends without running it, or it runs it once with options that
-- its flags may have changed. There are no flags for parts that the options do not have.
pub record ExecutesOnce {Rest : Type 0}
    (execute : (RecommendedOptions → (RecommendedOptions → Launch Rest) → Launch Rest))
    : Type 0 where
  pub once :
      (opts : RecommendedOptions) (run : RecommendedOptions → Launch Rest) (l : List (Call Rest))
      → ((execute opts run l).1 ≡ l)
        ⊎ ((set : RecommendedOptions) × (set.has_etcd ≡ opts.has_etcd)
            × (set.has_admission ≡ opts.has_admission)
            × (execute opts run l ≡ run set l))

module _ {Rest : Type 0} (libs : Libraries Rest) (group_name : Text) (solver : Solver) where
  abbrev Running : List (Call Rest) → Type 0
  Running l = IsOrdered libs group_name solver l × Succeeded l

  pub record Launched (out : Result (Unit {0}) × List (Call Rest)) : Type 0 where
    pub ordered : IsOrdered libs group_name solver out.1
    pub reported : Reported out.0 out.1

  -- A call that may be made now, and the rest of the chain where it succeeds.
  Launched-call {ℓ} :
      {A : Type ℓ} (answer : List (Call Rest) → Result A) (event : Result A → Call Rest)
      (k : A → Launch Rest) (l : List (Call Rest))
      → Running l
      → ((r : Result A) → Allowed libs group_name solver l (event r))
      → ((r : Result A) → failure_of (event r) ≡ error_of r)
      → ((a : A) → Running (event (ok a) ∷ l) → Launched (k a (event (ok a) ∷ l)))
      → Launched ((call answer event >>= k) l)
  unfolding ◌>>=◌
  Launched-call {A = A} answer event k l (ordered, succeeded) allowed fails rest = cases (answer l)
    where
      cases : (r : Result A) → Launched (continue r k (event r ∷ l))
      cases (ok a) = rest a ((allowed (ok a), ordered), (fails (ok a), succeeded))
      cases (err e) = record {
        ordered = (allowed (err e), ordered);
        reported = (event (err e), l, refl, fails (err e), succeeded);
      }

  -- A call that cannot fail.
  Launched-tell {ℓ} :
      {A : Type ℓ} (answer : List (Call Rest) → A) (event : A → Call Rest) (k : A → Launch Rest)
      (l : List (Call Rest))
      → Launched (k (answer l) (event (answer l) ∷ l))
      → Launched ((tell answer event >>= k) l)
  unfolding ◌>>=◌
  Launched-tell answer event k l h = h

  list_defined :
      (ref : Text → Text) → definitions libs ref (list_type_name libs) ≡ some (list_definition ref)
  unfolding get_openapi_definitions
  list_defined ref = rw (text_eq_refl (list_type_name libs)) refl

  -- The last call.
  Launched-run :
      (l : List (Call Rest))
      → Running l
      → IsReady libs group_name solver l
      → Launched (call libs.run server_run l)
  unfolding ◌>>=◌
  Launched-run l (ordered, succeeded) ready = cases (libs.run l)
    where
      cases : (r : Result (Unit {0})) → Launched (r, server_run r ∷ l)
      cases (ok u) = record { ordered = (ready, ordered); reported = (l, refl, succeeded) }
      cases (err e) = record {
        ordered = (ready, ordered);
        reported = (server_run (err e), l, refl, refl, succeeded);
      }

  -- The calls of `registerListTypes`.
  abbrev registered : List (Call Rest) → List (Call Rest)
  registered l =
      group_version_added (group_version group_name)
      ∷ types_added libs.scheme_group_version (list_type_name libs)
      ∷ types_added (group_version group_name) (list_type_name libs)
      ∷ l

  Launched-register_list_types :
      (k : Launch Rest) (l : List (Call Rest))
      → Launched (k (registered l))
      → Launched ((register_list_types libs (group_version group_name) >> k) l)
  unfolding ◌>>=◌ register_list_types
  Launched-register_list_types k l h = h

  -- Behind the registration of the types.
  install_and_run-Launched :
      (opts : RecommendedOptions) (cfg : ServerConfig) (l : List (Call Rest))
      → Running l
      → Called (options_applied opts (ok cfg)) l
      → ((name : Text) × (made : ServerConfig) × Called (server_made name made (ok tt)) l)
      → Launched (install_and_run libs group_name solver cfg (registered l))
  unfolding install_and_run
  install_and_run-Launched opts cfg l running applied (name, made, making) =
      Launched-call _ _ _ _ ((tt, (tt, (tt, running.0))), (refl, (refl, (refl, running.1))))
        (λ r. record {
          one_version = refl;
          known = later (later (first refl));
          natively_known = later (first refl);
          options_known = first refl;
          made = (name, made, later (later (later making)));
        })
        (λ r. refl)
        (λ _ running. Launched-tell _ _ _ _ (
          Launched-run _ ((tt, running.0), (refl, running.1))
            (record {
              installed = (
                api_group_info libs group_name solver,
                challenge_handler libs group_name solver,
                later (first refl),
                refl,
                refl,
              );
              hooked = (
                opts,
                cfg,
                codes "solver-" ++ solver.name ++ codes "-init",
                later (later (later (later (later applied)))),
                first refl,
              );
            })))

  -- `runAPIServer`
  run_api_server-Launched :
      (opts : RecommendedOptions) (l : List (Call Rest))
      → opts.has_etcd ≡ false
      → opts.has_admission ≡ false
      → Running l
      → Launched (run_api_server libs group_name solver opts l)
  unfolding run_api_server
  run_api_server-Launched opts l no_etcd no_admission running =
      Launched-call _ _ _ l running (λ r. tt) (λ r. refl)
        (λ _ running.
          Launched-call _ _ _ _ running (λ r. (no_etcd, no_admission)) (λ r. refl)
            (λ cfg running.
              Launched-call _ _ _ _ running (λ r ref. (list_defined ref, list_defined ref))
                (λ r. refl)
                (λ _ running. Launched-register_list_types _ _ (
                  install_and_run-Launched opts cfg _ running (later (first refl))
                    (codes "challenge-server", completed libs cfg, first refl)))))

  -- The answer of the validation, with none or some errors.
  Launched-validated :
      (opts : RecommendedOptions) (errs : List Text) (k : Launch Rest) (l : List (Call Rest))
      → Running l
      → (Running (options_validated opts [] ∷ l) → Launched (k (options_validated opts [] ∷ l)))
      → Launched ((validated libs errs >> k) (options_validated opts errs ∷ l))
  unfolding ◌>>=◌
  Launched-validated opts [] k l running rest = rest ((tt, running.0), (refl, running.1))
  Launched-validated opts (e ∷ es) k l running rest = record {
    ordered = (tt, running.0);
    reported = (options_validated opts (e ∷ es), l, refl, refl, running.1);
  }

  -- `RunE`
  run_command-Launched :
      (opts : RecommendedOptions) (l : List (Call Rest))
      → opts.has_etcd ≡ false
      → opts.has_admission ≡ false
      → Running l
      → Launched (run_command libs group_name solver opts l)
  unfolding run_command
  run_command-Launched opts l no_etcd no_admission running =
      Launched-call _ _ _ l running (λ r. tt) (λ r. refl)
        (λ _ running. Launched-tell _ _ _ _ (
          Launched-validated opts _ _ _ running
            (run_api_server-Launched opts _ no_etcd no_admission)))

  -- However the calls of a start are answered: the server is made with a definition of the list, the
  -- group is installed behind the registration of the list in it and in cert-manager's group, and the
  -- server runs when the group is installed with the handler of the solver and its hook initializes
  -- the solver with the client of the options. A start that returns no error has run the server to its
  -- end, and one that returns an error stopped at the call that gave it; or cobra ended before any
  -- call was made. Cobra runs a command once at most, with the options that it sets.
  pub run_webhook_server-Launched :
      (execute : RecommendedOptions → (RecommendedOptions → Launch Rest) → Launch Rest)
      → ExecutesOnce execute
      → ((run_webhook_server libs group_name solver execute []).1 ≡ [])
        ⊎ Launched (run_webhook_server libs group_name solver execute [])
  unfolding run_webhook_server
  run_webhook_server-Launched execute executes =
      elim (executes.once (recommended libs) (run_command libs group_name solver) []) [
        | inl ended ↦ inl ended
        | inr (set, no_etcd, no_admission, runs) ↦
            inr (rw runs (run_command-Launched set [] no_etcd no_admission (tt, tt)))
      ]
