-- ===== src/Providers/Aws/Counting.antt =====
-- pkg/cloudprovider/provider/aws/provider.go: what SetMetricsForMachines looks at.
use machine_controller.Base.{◌≡◌, refl, List, [], ◌∷◌, arith, eq_refl}
use machine_controller.Outcome.{ok, ◌>>=◌}
use machine_controller.Kube.{Machine}
use machine_controller.Providers.Common.{MachineConfig, configured}
use machine_controller.Providers.Aws.{RawConfig, Config, Credentials, Request, Cloud}
use machine_controller.Providers.Aws.Settings.{get_config, credentials_of}
use machine_controller.Providers.Aws.Metrics.{credentials_key, add_credentials, collect}

add_again :
    (k : Credentials)
    → add_credentials k ((credentials_key k, k) ∷ []) ≡ (credentials_key k, k) ∷ []
unfolding add_credentials
add_again k = ground (arith, eq_refl (credentials_key k))

module _ (c : Cloud) where
  collect_again :
      (first : Machine) (machines : List Machine) (config : Config) (pc : MachineConfig)
      (raw : RawConfig) (s : List Request)
      → configured c.decoder (get_config c first.spec.provider_spec) s ≡ (ok (config, pc, raw), s)
      → let k = credentials_of c config in
        collect c first machines ((credentials_key k, k) ∷ []) 0 s
        ≡ (ok ((credentials_key k, k) ∷ [], 0), s)
  unfolding collect ◌>>=◌
  collect_again first [] config pc raw s h = refl
  collect_again first (m ∷ ms) config pc raw s h =
      rw (h, add_again (credentials_of c config)) (collect_again first ms config pc raw s h)

  -- The credentials that the instances are counted with are those of the first machine alone: the
  -- other machines' configurations are never read, whatever credentials and regions they name.
  pub collect-first_only :
      (first m : Machine) (ms : List Machine) (config : Config) (pc : MachineConfig)
      (raw : RawConfig) (s : List Request)
      → configured c.decoder (get_config c first.spec.provider_spec) s ≡ (ok (config, pc, raw), s)
      → let k = credentials_of c config in
        collect c first (m ∷ ms) [] 0 s ≡ (ok ((credentials_key k, k) ∷ [], 0), s)
  unfolding collect add_credentials ◌>>=◌
  collect-first_only first m ms config pc raw s h = rw h (collect_again first ms config pc raw s h)
