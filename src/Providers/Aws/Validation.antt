-- ===== src/Providers/Aws/Validation.antt =====
-- pkg/cloudprovider/provider/aws/provider.go: AddDefaults, Validate, getVpc, GetCloudConfig.
use machine_controller.Base.{
  ◌==◌, nat_eq, if◌then◌else◌, is_some, length, String, not, Option, none, some,
}
use machine_controller.Base.Int.{is_zero}
use machine_controller.Outcome.{
  new_error, Outcome, ok, err, panicked, Act, pure, raise, lift, call, ◌>>=◌, ◌>>◌, wrap,
}
use machine_controller.Kube.{MachineSpec}
use machine_controller.Kube.Sets.{has}
use machine_controller.Providers.Common.{MachineConfig, configured}
use machine_controller.Providers.Aws.{
  volume_types, ami_filters, RawConfig, Config, Request, describe_image, describe_vpcs,
  describe_availability_zone, describe_region, describe_security_groups, get_instance_profile,
  Cloud,
}
use machine_controller.Providers.Aws.Settings.{checked, get_client, get_config, credentials_of}

unfoldable pub with_disk_type : RawConfig → RawConfig
with_disk_type raw =
    if raw.disk_type.value == ""
    then record raw { disk_type = record (raw.disk_type) { value = "standard" } }
    else raw

unfoldable pub check_config : Config → MachineConfig → Outcome (Unit {0})
check_config config pc =
    if not (is_some (ami_filters pc.operating_system))
    then err (new_error "unsupported os")
    else if not (has config.disk_type volume_types)
    then err (new_error "invalid volume type specified")
    else if config.instance_type == ""
    then err (new_error "instanceType must be specified")
    else if is_zero config.disk_size
    then err (new_error "diskSize must be specified and > 0")
    else ok tt

module _ (c : Cloud) where
  unfoldable pub set_provider_spec : RawConfig → Option String → Outcome (Option String)
  set_provider_spec raw none = err (new_error "machine.spec.providerconfig.value is nil")
  set_provider_spec raw (some spec) = elim (c.decoder.decode spec) [
    | err e ↦ err e
    | panicked ↦ panicked
    | ok pconfig ↦ elim (c.encode_raw raw) [
      | err e ↦ err e
      | panicked ↦ panicked
      | ok text ↦ elim (c.encode (record pconfig { cloud_provider_spec = text })) [
        | err e ↦ err e
        | panicked ↦ panicked
        | ok value ↦ ok (some value)
      ]
    ]
  ]

  unfoldable pub add_defaults : MachineSpec → Act Request MachineSpec
  add_defaults spec = do
    (config, pc, raw) ← configured c.decoder (get_config c spec.provider_spec)
    value ← lift (set_provider_spec (with_disk_type raw) spec.provider_spec)
    pure (record spec { provider_spec = value })

  unfoldable pub get_vpc : String → Act Request (Unit {0})
  get_vpc id =
      checked c "failed to list vpc's" (call (describe_vpcs id) (λ s. c.vpcs s id)) >>= λ count.
      if nat_eq count 1 then pure tt else raise (new_error "unable to find specified vpc")

  unfoldable pub check_ami : Config → Act Request (Unit {0})
  check_ami config =
      if config.ami == ""
      then pure tt
      else wrap "failed to validate ami"
          (call (describe_image config.ami) (λ s. c.image s config.ami))

  unfoldable pub check_security_groups : Config → Act Request (Unit {0})
  check_security_groups config =
      if nat_eq (length config.security_group_ids) 0
      then raise (new_error "no security groups were specified")
      else wrap "failed to validate security group id's" (
          call (describe_security_groups config.security_group_ids)
            (λ s. c.security_groups s config.security_group_ids))

  unfoldable pub check_instance_profile : Config → Act Request (Unit {0})
  check_instance_profile config =
      if config.instance_profile == ""
      then raise (new_error "invalid instance profile specified")
      else wrap "failed to validate instance profile" (
          call (get_instance_profile config.instance_profile)
            (λ s. c.instance_profile s config.instance_profile))

  unfoldable pub validate : MachineSpec → Act Request (Unit {0})
  validate spec = do
    (config, pc, raw) ←
        wrap "failed to parse config" (configured c.decoder (get_config c spec.provider_spec))
    lift (check_config config pc)
    wrap "failed to create ec2 client" (get_client c (credentials_of c config))
    check_ami config
    wrap "invalid vpc specified" (get_vpc config.vpc_id)
    wrap "invalid zone specified" (
        call (describe_availability_zone config.availability_zone)
          (λ s. c.availability_zone s config.availability_zone))
    wrap "invalid region specified"
        (call (describe_region config.region) (λ s. c.region s config.region))
    check_security_groups config
    wrap "failed to create iam client" (get_client c (credentials_of c config))
    check_instance_profile config

  unfoldable pub get_cloud_config : MachineSpec → Act Request (String × String)
  get_cloud_config spec = do
    (config, pc, raw) ←
        wrap "failed to parse config" (configured c.decoder (get_config c spec.provider_spec))
    text ←
        wrap "failed to convert cloud-config to string"
          (lift (c.cloud_config_to_string config.vpc_id config.subnet_id config.availability_zone))
    pure (text, "aws")
