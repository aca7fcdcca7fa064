-- ===== src/Providers/Kubevirt.antt =====
-- pkg/cloudprovider/provider/kubevirt/provider.go. The client of the cluster that runs the virtual
-- machines is given by its answers.
pub mod Instances
pub mod Linking
use machine_controller.Base.{◌==◌, if◌then◌else◌, Pairs, ℕ, String, not, Option, List, [], ◌∷◌}
use machine_controller.Outcome.{
  new_error, wrapped, is_not_found, Outcome, ok, Act, pure, raise, lift, call, query, attempt,
  ◌>>=◌, ◌>>◌, wrap,
}
use machine_controller.Kube.{MachineSpec, Machine}
use machine_controller.ProviderConfig.Values.{ConfigVar}
use machine_controller.ProviderConfig.Resolution.{
  ConfigCall, Sources, get_config_var_string_value, get_config_var_string_value_or_env,
}
use machine_controller.Providers.Common.{Status, MachineConfig, Decoder, decode_spec, configured}

pub record RawConfig : Type 0 where
  pub config : ConfigVar String
  pub cpus : ConfigVar String
  pub memory : ConfigVar String
  pub registry_image : ConfigVar String
  pub namespace : ConfigVar String

pub record Config : Type 0 where
  -- `rest.Config`, which only the client looks into
  pub config : String
  pub cpus : String
  pub memory : String
  pub registry_image : String
  pub namespace : String

-- `kubevirtv1.VirtualMachineInstance`, with the fields that are read.
pub record Vmi : Type 0 where
  pub namespace : String
  pub name : String
  pub uid : String
  pub deletion_timestamp : Option ℕ
  pub phase : String
  -- the IPs of `Status.Interfaces`
  pub interface_ips : List String

-- `corev1.ResourceList`, as the parsed quantities
pub record ResourceList : Type 0 where
  pub memory : String
  pub cpu : String

-- `kubevirtv1.Disk`, with the bus of its `DiskTarget`
pub record Disk : Type 0 where
  pub name : String
  pub volume_name : String
  pub bus : String

-- `kubevirtv1.Volume`: its name, and the image or the name in `UserDataSecretRef`
pub data Volume : Type 0 where
  registry_disk cloud_init_no_cloud : String → String → Volume

-- The instance that is created
pub record VmiParams : Type 0 where
  pub namespace : String
  pub name : String
  pub requests : ResourceList
  pub limits : ResourceList
  pub termination_grace_period_seconds : ℕ
  pub disks : List Disk
  pub volumes : List Volume

pub record Secret : Type 0 where
  pub namespace : String
  pub name : String
  -- the UID of the controller reference
  pub owner : String
  pub user_data : String

pub data Request : Type 0 where
  get_vmi delete_vmi : String → String → Request
  create_vmi : VmiParams → Request
  create_secret : Secret → Request

pub record Cloud : Type 0 where
  pub decoder : Decoder Request RawConfig
  -- `clientcmd.RESTConfigFromKubeConfig`
  pub rest_config : String → Outcome String
  -- `client.New`
  pub new_client : List Request → String → Outcome (Unit {0})
  -- `resource.ParseQuantity`
  pub parse_quantity : String → Outcome String
  pub vmi : List Request → String → String → Outcome Vmi
  pub deleted_vmi : List Request → String → String → Outcome (Unit {0})
  pub created_vmi : List Request → VmiParams → Outcome Vmi
  pub created_secret : List Request → Secret → Outcome (Unit {0})
  -- `time.Now().Unix()`
  pub now : List Request → ℕ

-- The methods of `kubeVirtServer`
unfoldable pub addresses : Vmi → List String
addresses v = v.interface_ips

unfoldable pub status : Vmi → Status
status v = if v.phase == "Running" then Status.running else Status.unknown

module _ (c : Cloud) where
  unfoldable pub get_config : Option String → Sources → Act ConfigCall (Config × MachineConfig)
  get_config spec sources = do
    (pconfig, raw) ← decode_spec c.decoder spec
    config_string ←
        wrap "failed to get value of \"config\" field"
          (get_config_var_string_value_or_env sources raw.config "KUBEVIRT_KUBECONFIG")
    cpus ←
        wrap "failed to get value of \"cpus\" field" (get_config_var_string_value sources raw.cpus)
    memory ←
        wrap "failed to get value of \"memory\" field"
          (get_config_var_string_value sources raw.memory)
    registry_image ←
        wrap "failed to get value of \"registryImage\" field"
          (get_config_var_string_value sources raw.registry_image)
    namespace ←
        wrap "failed to get value of \"namespace\" field"
          (get_config_var_string_value sources raw.namespace)
    config ← wrap "failed to decode kubeconfig" (lift (c.rest_config config_string))
    lift (
        ok (
          record {
            config = config;
            cpus = cpus;
            memory = memory;
            registry_image = registry_image;
            namespace = namespace;
          },
          pconfig,
        ))

  unfoldable pub parse_resources : String → String → Act Request ResourceList
  parse_resources cpus memory = do
    memory_resource ← wrap "failed to parse memory requests" (lift (c.parse_quantity memory))
    cpu_resource ← wrap "failed to parse cpu request" (lift (c.parse_quantity cpus))
    pure (record { memory = memory_resource; cpu = cpu_resource })

  -- `client.New`
  unfoldable pub connect : Config → Act Request (Unit {0})
  connect config = wrap "failed to get kubevirt client" (query (λ s. c.new_client s config.config))

  unfoldable pub read_vmi : String → String → Act Request Vmi
  read_vmi namespace name = call (get_vmi namespace name) (λ s. c.vmi s namespace name)

  unfoldable pub validate : MachineSpec → Act Request (Unit {0})
  validate spec = do
    (config, pc) ←
        wrap "failed to parse config" (configured c.decoder (get_config spec.provider_spec))
    resources ← parse_resources config.cpus config.memory
    if pc.operating_system == "coreos"
        then raise (new_error "CoreOS is not supported")
        else connect config
    attempt (read_vmi config.namespace "not-expected-to-exist") (λ _. pure tt)
        (λ e.
          if is_not_found e
          then pure tt
          else raise (wrapped "failed to request VirtualMachineInstances" e))

  unfoldable pub machine_metrics_labels : Machine → Sources → Act ConfigCall Pairs
  machine_metrics_labels machine sources =
      get_config machine.spec.provider_spec sources >>= λ (config, pc). lift (
        ok (
          ("cpus", config.cpus)
          ∷ ("memoryMIB", config.memory)
          ∷ ("registryImage", config.registry_image)
          ∷ []))
