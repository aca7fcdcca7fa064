-- ===== src/Providers/Aws/Instances.antt =====
-- pkg/cloudprovider/provider/aws/provider.go: Get, Cleanup, Create, MigrateUID,
-- MachineMetricsLabels.
use machine_controller.Base.{
  ◌==◌, if◌then◌else◌, Pairs, String, Bool, true, false, not, Option, none, some, List, [], ◌∷◌,
}
use machine_controller.Outcome.{
  Error, instance_not_found, new_error, wrapped, is_instance_not_found, ok, Act, pure, raise, lift,
  call, deref, attempt, on_option, ◌>>=◌, ◌>>◌, wrap, or_terminal,
}
use machine_controller.Kube.{Machine}
use machine_controller.ProviderConfig.Resolution.{ConfigCall, Sources}
use machine_controller.Providers.Common.{
  MachineConfig, invalid_configuration, machine_config, first_that,
}
use machine_controller.Providers.Aws.{
  name_tag, machine_uid_tag, Config, Instance, RunInstancesInput, Request, describe_instances,
  run_instances, modify_instance_groups, terminate_instance, create_tag, Cloud,
}
use machine_controller.Providers.Aws.Settings.{
  get_default_root_device_path, aws_error_to_terminal_error, checked, get_client, get_config,
  credentials_of,
}
use machine_controller.Providers.Aws.Images.{get_default_ami_id}

-- An instance that the loop of `Get` does not pass over
abbrev pub is_live : Instance → Bool
is_live i = elim i.state_name [ none ↦ false | some name ↦ not (name == "terminated") ]

unfoldable pub first_live : List (List Instance) → Option Instance
first_live [] = none
first_live (instances ∷ reservations) = elim (first_that is_live instances) [
  | some i ↦ some i
  | none ↦ first_live reservations
]

unfoldable pub first_instance : List Instance → Option Instance
first_instance [] = none
first_instance (i ∷ _) = some i

module _ (c : Cloud) where
  -- `getConfig`, then `getEC2client`
  unfoldable pub connect : Machine → Act Request (Config × MachineConfig)
  connect machine = do
    (config, pc, raw) ← machine_config c.decoder (get_config c machine.spec.provider_spec)
    get_client c (credentials_of c config)
    pure (config, pc)

  unfoldable pub get : Machine → Act Request Instance
  get machine = do
    (config, pc) ← connect machine
    reservations ←
        checked c "failed to list instances from aws"
          (call (describe_instances machine.uid) (λ s. c.instances s machine.uid))
    on_option (first_live reservations) (raise instance_not_found) pure

  -- `Cleanup` after it found an instance
  unfoldable pub remove_found : Machine → Instance → Act Request Bool
  remove_found machine i = do
    (config, pc) ← connect machine
    change ←
        checked c "failed to terminate instance"
          (call (terminate_instance i.id) (λ s. c.terminated s i.id))
    deref change
    pure false

  unfoldable pub cleanup : Machine → Act Request Bool
  cleanup machine =
      attempt (get machine) (remove_found machine)
        (λ e. if is_instance_not_found e then pure true else raise e)

  -- `getDefaultAMIID` is asked only if no AMI is configured.
  unfoldable pub ami_id_of : Config → MachineConfig → Act Request String
  ami_id_of config pc =
      if config.ami == ""
      then or_terminal c.decoder.error_text invalid_configuration
          "Invalid Region and Operating System configuration: "
          (get_default_ami_id c pc.operating_system config.region)
      else pure config.ami

  unfoldable pub packed : MachineConfig → String → Act Request String
  packed pc user_data =
      if not (pc.operating_system == "coreos")
      then attempt (lift (c.gzip user_data)) pure
          (λ _. raise (new_error "failed to gzip the userdata"))
      else pure user_data

  unfoldable pub run_instances_input :
      Machine → Config → String → String → String → RunInstancesInput
  run_instances_input machine config root_device_path ami_id user_data = record {
    image_id = ami_id;
    is_spot = elim config.is_spot_instance [ none ↦ false | some spot ↦ spot ];
    device_name = root_device_path;
    volume_size = config.disk_size;
    volume_type = config.disk_type;
    min_count = 1;
    max_count = 1;
    instance_type = config.instance_type;
    user_data = c.base64 user_data;
    availability_zone = config.availability_zone;
    subnet_id = config.subnet_id;
    instance_profile = config.instance_profile;
    tags = (name_tag, machine.spec.name) ∷ (machine_uid_tag, machine.uid) ∷ c.ranged config.tags;
  }

  -- What is done if the security groups cannot be attached: both errors end up in the message.
  unfoldable pub take_back : Instance → Error → Act Request Instance
  take_back i e =
      attempt (call (terminate_instance i.id) (λ s. c.terminated s i.id))
        (λ _. raise (aws_error_to_terminal_error c e "failed to attach instance to security group"))
        (λ _. raise (aws_error_to_terminal_error c e "failed to delete instance after attaching"))

  unfoldable pub run_and_attach : Config → RunInstancesInput → Act Request Instance
  run_and_attach config input = do
    instances ←
        checked c "failed create instance at aws" (call (run_instances input) (λ s. c.run s input))
    i ← deref (first_instance instances)
    attempt
        (call (modify_instance_groups i.id config.security_group_ids)
          (λ s. c.modified s i.id config.security_group_ids))
        (λ _. pure i) (take_back i)

  unfoldable pub create : Machine → String → Act Request Instance
  create machine user_data = do
    (config, pc) ← connect machine
    root_device_path ← lift (get_default_root_device_path pc.operating_system)
    ami_id ← ami_id_of config pc
    text ← packed pc user_data
    run_and_attach config (run_instances_input machine config root_device_path ami_id text)

  unfoldable pub retag : Machine → String → Instance → Act Request (Unit {0})
  retag machine new i = do
    (config, pc, raw) ← machine_config c.decoder (get_config c machine.spec.provider_spec)
    wrap "failed to get EC2 client" (get_client c (credentials_of c config))
    wrap "failed to update instance with new machineUIDTag"
        (call (create_tag i.id new) (λ s. c.tagged s i.id new))

  unfoldable pub migrate_uid : Machine → String → Act Request (Unit {0})
  migrate_uid machine new =
      attempt (get machine) (retag machine new) (λ e.
        if is_instance_not_found e then pure tt else raise (wrapped "failed to get instance" e))

  unfoldable pub machine_metrics_labels : Machine → Sources → Act ConfigCall Pairs
  machine_metrics_labels machine sources =
      get_config c machine.spec.provider_spec sources >>= λ (config, pc, raw). lift (
        ok (
          ("size", config.instance_type)
          ∷ ("region", config.region)
          ∷ ("az", config.availability_zone)
          ∷ ("ami", config.ami)
          ∷ []))
