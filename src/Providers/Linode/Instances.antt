-- ===== src/Providers/Linode/Instances.antt =====
-- pkg/cloudprovider/provider/linode/provider.go: Get, Cleanup, Create, MigrateUID, MachineMetricsLabels.
use machine_controller.Base.{
  String, Bool, true, false, some, List, [], ◌∷◌, ◌++◌, Pairs, if◌then◌else◌, first_runes,
}
use machine_controller.Base.Decimal.{atoi}
use machine_controller.Outcome.{
  new_error, instance_not_found, is_instance_not_found, ok, Act, pure, raise, call, ask, lift,
  attempt, wrap, or_terminal, on_option, ◌>>=◌, ◌>>◌,
}
use machine_controller.Kube.{Machine}
use machine_controller.Kube.Sets.{has}
use machine_controller.ProviderConfig.Resolution.{ConfigCall, Sources}
use machine_controller.Providers.Common.{
  PublicKey, invalid_configuration, configured, machine_config, first_that,
}
use machine_controller.Providers.Linode.{
  Config, Linode, InstanceCreateOptions, Request, list_instances, create_instance, wait_for_running,
  delete_instance, update_instance, Cloud, cloudinit_stack_script_id, get_slug_for_os, instance_id,
  swapped_tags, checked, get_config,
}

module _ (c : Cloud) where
  unfoldable pub list_by_name : Config → String → Act Request (List Linode)
  list_by_name config name =
      let label = first_runes 32 name in
      call (list_instances config.token label) (λ s. c.instances s label)

  unfoldable pub get : Machine → Act Request Linode
  get machine = do
    (config, pc) ← machine_config c.decoder (get_config c machine.spec.provider_spec)
    linodes ← checked c (list_by_name config machine.spec.name)
    on_option (first_that (λ linode. has machine.uid linode.tags) linodes)
        (raise instance_not_found) pure

  -- `Cleanup` after it found an instance
  unfoldable pub remove_found : Machine → Linode → Act Request Bool
  remove_found machine linode = do
    (config, pc) ← machine_config c.decoder (get_config c machine.spec.provider_spec)
    id ←
        on_option (atoi (instance_id linode))
          (raise (new_error "failed to convert instance id to int")) pure
    checked c (call (delete_instance config.token id) (λ s. c.deleted_instance s id))
    pure false

  unfoldable pub cleanup : Machine → Act Request Bool
  cleanup machine =
      attempt (get machine) (remove_found machine)
        (λ e. if is_instance_not_found e then pure true else raise e)

  unfoldable pub create_options :
      Machine → String → Config → PublicKey → String → String → InstanceCreateOptions
  create_options machine user_data config key slug password = record {
    image = slug;
    label = first_runes 32 machine.spec.name;
    region = config.region;
    type = config.type;
    private_ip = config.private_networking;
    root_pass = password;
    backups_enabled = config.backups;
    authorized_keys = c.trim_space key.public_key ∷ [];
    tags = config.tags ++ (machine.uid ∷ []);
    stack_script_id = cloudinit_stack_script_id;
    stack_script_data = some (("userdata", c.base64 user_data) ∷ []);
  }

  unfoldable pub create_and_wait : Config → InstanceCreateOptions → Act Request Linode
  create_and_wait config opts = do
    linode ← checked c (call (create_instance config.token opts) (λ s. c.created_instance s opts))
    checked c (call (wait_for_running config.token linode.id) (λ s. c.running_instance s linode.id))

  unfoldable pub create : Machine → String → Act Request Linode
  create machine user_data = do
    (config, pc) ← machine_config c.decoder (get_config c machine.spec.provider_spec)
    key ← wrap "failed to generate ssh key" (ask c.new_key >>= lift)
    slug ←
        or_terminal c.decoder.error_text invalid_configuration
          "Failed to parse MachineSpec, invalid operating system specified: "
          (lift (get_slug_for_os pc.operating_system))
    password ←
        or_terminal c.decoder.error_text invalid_configuration
          "Failed to generate password for Linode, due to " (ask c.random_password >>= lift)
    create_and_wait config (create_options machine user_data config key slug password)

  -- The loop of `MigrateUID`
  unfoldable pub migrate_each : Machine → String → Config → List Linode → Act Request (Unit {0})
  migrate_each machine new config [] = pure tt
  migrate_each machine new config (linode ∷ linodes) =
      let rest = migrate_each machine new config linodes in
      let tags = swapped_tags machine.uid new (c.update_tags linode) in
      if has machine.uid linode.tags
      then (wrap "failed to revise linode UID tags" (
            call (update_instance config.token linode.id tags)
              (λ s. c.updated_instance s linode.id))
          >> rest)
      else rest

  unfoldable pub migrate_uid : Machine → String → Act Request (Unit {0})
  migrate_uid machine new = do
    (config, pc) ←
        wrap "failed to decode providerconfig"
          (configured c.decoder (get_config c machine.spec.provider_spec))
    linodes ← wrap "failed to list linodes" (list_by_name config machine.spec.name)
    migrate_each machine new config linodes

  unfoldable pub machine_metrics_labels : Machine → Sources → Act ConfigCall Pairs
  machine_metrics_labels machine sources =
      get_config c machine.spec.provider_spec sources >>= λ (config, pc).
      lift (ok (("type", config.type) ∷ ("region", config.region) ∷ []))
