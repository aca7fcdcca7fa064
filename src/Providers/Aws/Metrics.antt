-- ===== src/Providers/Aws/Metrics.antt =====
-- pkg/cloudprovider/provider/aws/provider.go: SetMetricsForMachines and getIntanceCountForMachine.
use machine_controller.Base.{
  ◌==◌, concat, ltb, if◌then◌else◌, Pairs, ℕ, ◌+◌, String, Bool, false, ◌&&◌, List, [], ◌∷◌, ◌++◌,
}
use machine_controller.Outcome.{new_error, Act, pure, raise, call, tell, attempt, ◌>>=◌, ◌>>◌}
use machine_controller.Kube.{Machine}
use machine_controller.Providers.Common.{configured}
use machine_controller.Providers.Aws.{
  machine_uid_tag, Instance, Credentials, Request, describe_all_instances, set_gauge, Cloud,
}
use machine_controller.Providers.Aws.Settings.{get_client, get_config, credentials_of}
use machine_controller.Providers.Aws.Instances.{is_live}

-- The loop over an instance's tags stops at the first tag for UIDs.
unfoldable pub counts_for : String → Pairs → Bool
counts_for uid [] = false
counts_for uid ((key, value) ∷ tags) =
    let rest = counts_for uid tags in if key == machine_uid_tag then value == uid else rest

unfoldable pub count_in : String → List Instance → ℕ
count_in uid [] = 0
count_in uid (i ∷ instances) =
    let rest = count_in uid instances in
    if is_live i && counts_for uid i.tags then rest + 1 else rest

unfoldable pub get_instance_count_for_machine : Machine → List (List Instance) → ℕ
get_instance_count_for_machine machine [] = 0
get_instance_count_for_machine machine (instances ∷ reservations) =
    count_in machine.uid instances + get_instance_count_for_machine machine reservations

-- The map `credentials`, by its keys
abbrev pub Found : Type 0
Found = List (String × Credentials)

abbrev pub credentials_key : Credentials → String
credentials_key k = concat k.id (concat "/" (concat k.secret (concat "/" k.region)))

unfoldable pub add_credentials : Credentials → Found → Found
add_credentials k [] = (credentials_key k, k) ∷ []
add_credentials k ((key, j) ∷ found) =
    let rest = add_credentials k found in
    if key == credentials_key k then (key, k) ∷ found else (key, j) ∷ rest

module _ (c : Cloud) where
  -- The first loop: each round reads the configuration of the first machine. The errors are
  -- counted.
  unfoldable pub collect : Machine → List Machine → Found → ℕ → Act Request (Found × ℕ)
  collect first [] found errors = pure (found, errors)
  collect first (machine ∷ machines) found errors =
      attempt (configured c.decoder (get_config c first.spec.provider_spec))
        (λ (config, pc, raw).
          collect first machines (add_credentials (credentials_of c config) found) errors)
        (λ _. collect first machines found (errors + 1))

  -- The second loop
  unfoldable pub describe_each :
      Found → List (List Instance) → ℕ → Act Request (List (List Instance) × ℕ)
  describe_each [] reservations errors = pure (reservations, errors)
  describe_each ((key, k) ∷ found) reservations errors =
      attempt (get_client c k)
        (λ _.
          attempt (call describe_all_instances c.all_instances)
            (λ more. describe_each found (reservations ++ more) errors)
            (λ _. describe_each found reservations (errors + 1)))
        (λ _. describe_each found reservations (errors + 1))

  -- The third loop
  unfoldable pub set_each : List Machine → List (List Instance) → Act Request (Unit {0})
  set_each [] reservations = pure tt
  set_each (machine ∷ machines) reservations =
      let rest = set_each machines reservations in
      tell (
        set_gauge (concat machine.namespace (concat "/" machine.name))
          (get_instance_count_for_machine machine reservations))
      >> rest

  unfoldable pub set_metrics_for_machines : List Machine → Act Request (Unit {0})
  set_metrics_for_machines [] = pure tt
  set_metrics_for_machines (first ∷ machines) = do
    (found, errors) ← collect first (first ∷ machines) [] 0
    (reservations, errors') ← describe_each found [] errors
    set_each (first ∷ machines) reservations
    if ltb 0 errors' then raise (new_error "errors") else pure tt
