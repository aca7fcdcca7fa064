-- ===== src/Scenarios/Errors.antt =====
-- Errors, keys of the work queue and tokens.
use machine_controller.Base.{◌≡◌, refl, List, [], ◌∷◌, index}
use machine_controller.Outcome.{Error, terminal_error, new_error, wrapped, ok, err, wrap, ◌>>=◌}
use machine_controller.Outcome.Emits.{Emits}
use machine_controller.Kube.Calls.{Call, handle_error, list_secrets, create_secret}
use machine_controller.Kube.Cluster.{Cluster}
use machine_controller.ProviderConfig.{get_config}
use machine_controller.Bootstrap.{create_bootstrap_token, token_of, machine_name_label}
use machine_controller.Bootstrap.Tokens.{create_bootstrap_token_stable}
use machine_controller.Controller.Sync.{sync, sync_named}
use machine_controller.Controller.Queue.{process_key}
use machine_controller.Controller.Results.{not_rate_limited, process_key-never_retries}
use machine_controller.Scenarios.World.{world, world-IsLawful, worker, fresh, worker_secret}

abbrev quota : Error
quota = terminal_error "InsufficientResources" "quota exceeded"

-- The same cluster with a machine whose configuration is missing.
abbrev broken : Cluster
broken = record world { machine = λ _ _ _. ok fresh }

abbrev missing : Error
missing =
    wrapped "failed to get provider config" (new_error "machine.spec.providerSpec.value is nil")

sync_fails : (s : List Call) → sync broken fresh s ≡ (err missing, s)
unfolding sync sync_named get_config ◌>>=◌ wrap
sync_fails s = refl

process_key-never_retries_example : Emits not_rate_limited (process_key world "worker")
process_key-never_retries_example =
    process_key-never_retries world-IsLawful "worker" "kube-system" "worker" refl
      (λ s. (worker, refl))

create_bootstrap_token_stable_example :
    ((create_bootstrap_token world "worker" []).1
      ≡ create_secret worker_secret ∷ list_secrets "worker" ∷ [])
    × (index machine_name_label worker_secret.labels ≡ "worker")
    × ((create_bootstrap_token world "worker" []).0 ≡ ok (token_of worker_secret))
    × ((create_bootstrap_token world "worker" (handle_error ∷ [])).0 ≡ ok (token_of worker_secret))
create_bootstrap_token_stable_example =
    create_bootstrap_token_stable world "worker" refl [] (handle_error ∷ []) 3700 refl refl refl
      refl refl
