-- ===== src/Providers/Aws/Settings.antt =====
-- pkg/cloudprovider/provider/aws/provider.go: getConfig, clients, errors, and the methods of instances.
use machine_controller.Base.{◌==◌, if◌then◌else◌, Pairs, String, Option, none, some, List, [], ◌∷◌}
use machine_controller.Outcome.{
  Error, new_error, wrapped, Outcome, ok, err, Act, pure, raise, lift, call, attempt, ◌>>=◌, wrap,
}
use machine_controller.ProviderConfig.Resolution.{
  ConfigCall, Sources, get_config_var_string_value, get_config_var_string_value_or_env,
}
use machine_controller.Providers.Common.{
  Status, MachineConfig, insufficient_resources, rejected, decode_spec, resolve_each,
}
use machine_controller.Providers.Aws.{
  name_tag, RawConfig, Config, Instance, Credentials, Request, new_session, Cloud,
}

unfoldable pub get_default_root_device_path : String → Outcome String
get_default_root_device_path os =
    if os == "ubuntu"
    then ok "/dev/sda1"
    else if os == "centos"
    then ok "/dev/sda1"
    else if os == "coreos"
    then ok "/dev/xvda"
    else err (new_error "no default root path found for operating system")

unfoldable pub get_tag_value : String → Pairs → String
get_tag_value name [] = ""
get_tag_value name ((key, value) ∷ tags) =
    let rest = get_tag_value name tags in if key == name then value else rest

-- The methods of `awsInstance`. The status of an instance without a state panics.
unfoldable pub instance_name : Instance → String
instance_name i = get_tag_value name_tag i.tags

unfoldable pub addresses : Instance → List String
addresses i =
    i.public_ip_address ∷ i.public_dns_name ∷ i.private_ip_address ∷ i.private_dns_name ∷ []

unfoldable pub status : Instance → Option Status
status i = elim i.state_name [
  | none ↦ none
  | some name ↦ some (
      if name == "running"
      then Status.running
      else if name == "pending"
      then Status.creating
      else if name == "terminated"
      then Status.deleted
      else if name == "shutting-down"
      then Status.deleting
      else Status.unknown)
]

module _ (c : Cloud) where
  unfoldable pub aws_error_to_terminal_error : Error → String → Error
  aws_error_to_terminal_error e msg = elim (c.error_code e) [
    | none ↦ wrapped msg e
    | some code ↦
        if code == "InstanceLimitExceeded"
        then Error.terminal_error insufficient_resources
            "You've reached the AWS quota for number of instances of this type"
        else if code == "AuthFailure"
        then rejected
        else if code == "OptInRequired"
        then Error.terminal_error "AMI terms not accepted" (c.decoder.error_text e)
        else wrapped msg e
  ]

  -- A request, with its error passed through `awsErrorToTerminalError`.
  abbrev pub checked : {A : Type 0} → String → Act Request A → Act Request A
  checked msg m = attempt m pure (λ e. raise (aws_error_to_terminal_error e msg))

  -- `getEC2client` and `getIAMclient`
  unfoldable pub get_client : Credentials → Act Request (Unit {0})
  get_client credentials =
      checked "failed to get aws session"
        (call (new_session credentials) (λ s. c.session s credentials))

  unfoldable pub get_config :
      Option String → Sources → Act ConfigCall (Config × MachineConfig × RawConfig)
  get_config spec sources = do
    (pconfig, raw) ← decode_spec c.decoder spec
    access_key_id ←
        wrap "failed to get the value of accessKeyId field"
          (get_config_var_string_value_or_env sources raw.access_key_id "AWS_ACCESS_KEY_ID")
    secret_access_key ←
        wrap "failed to get the value of secretAccessKey field"
          (get_config_var_string_value_or_env sources raw.secret_access_key "AWS_SECRET_ACCESS_KEY")
    region ← get_config_var_string_value sources raw.region
    vpc_id ← get_config_var_string_value sources raw.vpc_id
    subnet_id ← get_config_var_string_value sources raw.subnet_id
    availability_zone ← get_config_var_string_value sources raw.availability_zone
    security_group_ids ← resolve_each sources raw.security_group_ids
    instance_profile ← get_config_var_string_value sources raw.instance_profile
    instance_type ← get_config_var_string_value sources raw.instance_type
    ami ← get_config_var_string_value sources raw.ami
    disk_type ← get_config_var_string_value sources raw.disk_type
    lift (
        ok (
          record {
            access_key_id = access_key_id;
            secret_access_key = secret_access_key;
            region = region;
            availability_zone = availability_zone;
            vpc_id = vpc_id;
            subnet_id = subnet_id;
            security_group_ids = security_group_ids;
            instance_profile = instance_profile;
            is_spot_instance = raw.is_spot_instance;
            instance_type = instance_type;
            ami = ami;
            disk_size = raw.disk_size;
            disk_type = disk_type;
            tags = raw.tags;
          },
          pconfig,
          raw,
        ))

  abbrev pub credentials_of : Config → Credentials
  credentials_of config = record {
    id = config.access_key_id;
    secret = config.secret_access_key;
    region = config.region;
  }
