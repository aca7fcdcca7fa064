-- ===== src/Providers/Kubevirt/Instances.antt =====
-- pkg/cloudprovider/provider/kubevirt/provider.go: Get, Create and Cleanup.
use machine_controller.Base.{◌==◌, concat, if◌then◌else◌, String, Bool, true, false, ◌||◌, [], ◌∷◌}
use machine_controller.Base.Decimal.{itoa}
use machine_controller.Outcome.{
  instance_not_found, wrapped, is_not_found, Act, pure, raise, call, ask, attempt, on_option, ◌>>=◌,
  ◌>>◌, wrap,
}
use machine_controller.Kube.{Machine}
use machine_controller.Providers.Common.{machine_config}
use machine_controller.Providers.Kubevirt.{
  Config, Vmi, Secret, ResourceList, registry_disk, cloud_init_no_cloud, VmiParams, Request,
  delete_vmi, create_vmi, create_secret, Cloud, get_config, parse_resources, connect, read_vmi,
}

unfoldable pub is_finished : Vmi → Bool
is_finished v = (v.phase == "Failed") || (v.phase == "Succeeded")

-- The secret that the instance owns
unfoldable pub user_data_secret_of : String → String → Vmi → Secret
user_data_secret_of user_data secret_name v = record {
  namespace = v.namespace;
  name = secret_name;
  owner = v.uid;
  user_data = user_data;
}

module _ (c : Cloud) where
  unfoldable pub remove_vmi : Vmi → Act Request (Unit {0})
  remove_vmi v = call (delete_vmi v.namespace v.name) (λ s. c.deleted_vmi s v.namespace v.name)

  -- A finished instance is deleted, so that it is created again.
  unfoldable pub check_found : Vmi → Act Request Vmi
  check_found v =
      on_option v.deletion_timestamp
        (if is_finished v
          then (wrap "failed to delete failed VMI" (remove_vmi v) >> raise instance_not_found)
          else pure v)
        (λ _. raise instance_not_found)

  unfoldable pub get : Machine → Act Request Vmi
  get machine = do
    (config, pc) ← machine_config c.decoder (get_config c machine.spec.provider_spec)
    connect c config
    v ← attempt (read_vmi c config.namespace machine.name) pure (λ e.
        if is_not_found e
        then raise instance_not_found
        else raise (wrapped "failed to get VirtualMachineInstance" e))
    check_found v

  unfoldable pub vmi_params : Machine → Config → ResourceList → String → VmiParams
  vmi_params machine config resources secret_name = record {
    namespace = config.namespace;
    name = machine.name;
    requests = resources;
    limits = resources;
    termination_grace_period_seconds = 30;
    disks =
        record { name = "registryDisk"; volume_name = "registryvolume"; bus = "virtio" }
        ∷ record { name = "cloudinitdisk"; volume_name = "cloudinitvolume"; bus = "virtio" }
        ∷ [];
    volumes =
        registry_disk "registryvolume" config.registry_image
        ∷ cloud_init_no_cloud "cloudinitvolume" secret_name
        ∷ [];
  }

  -- The secret is made for the instance that was created, which owns it.
  unfoldable pub create_with_secret : String → String → VmiParams → Act Request Vmi
  create_with_secret user_data secret_name params = do
    v ← wrap "failed to create vmi" (call (create_vmi params) (λ s. c.created_vmi s params))
    let secret = user_data_secret_of user_data secret_name v
    wrap "failed to create secret for userdata"
        (call (create_secret secret) (λ s. c.created_secret s secret))
    pure v

  unfoldable pub create : Machine → String → Act Request Vmi
  create machine user_data = do
    (config, pc) ← machine_config c.decoder (get_config c machine.spec.provider_spec)
    seconds ← ask c.now
    resources ← parse_resources c config.cpus config.memory
    connect c config
    let secret_name = concat "userdata-" (concat machine.name (concat "-" (itoa seconds)))
    create_with_secret user_data secret_name (vmi_params machine config resources secret_name)

  unfoldable pub cleanup : Machine → Act Request Bool
  cleanup machine = do
    (config, pc) ← machine_config c.decoder (get_config c machine.spec.provider_spec)
    connect c config
    attempt (read_vmi c config.namespace machine.name) (λ v. remove_vmi v >> pure false)
        (λ e.
          if is_not_found e
          then pure true
          else raise (wrapped "failed to get VirtualMachineInstance" e))
