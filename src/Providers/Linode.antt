-- ===== src/Providers/Linode.antt =====
-- pkg/cloudprovider/provider/linode/provider.go. The client of linodego is given by its answers.
pub mod Instances
pub mod Laws
use machine_controller.Base.{
  ℕ, String, Bool, true, false, not, ◌&&◌, Option, none, some, List, [], ◌∷◌, ◌++◌, map, keep,
  Pairs, StringMap, ◌==◌, nat_eq, if◌then◌else◌, first_runes,
}
use machine_controller.Base.Decimal.{itoa, atoi}
use machine_controller.Outcome.{
  Error, new_error, instance_not_found, is_instance_not_found, Outcome, ok, err, Act, pure, raise,
  call, ask, lift, attempt, wrap, or_terminal, on_option, ◌>>=◌, ◌>>◌,
}
use machine_controller.Kube.{Machine, MachineSpec}
use machine_controller.Kube.Sets.{has}
use machine_controller.ProviderConfig.Values.{ConfigVar}
use machine_controller.ProviderConfig.Resolution.{
  ConfigCall, Sources, get_config_var_string_value, get_config_var_string_value_or_env,
  get_config_var_bool_value,
}
use machine_controller.Providers.Common.{
  Status, MachineConfig, PublicKey, invalid_configuration, rejected, os_not_supported, Decoder,
  decode_spec, configured, machine_config, first_that, resolve_each,
}

pub record RawConfig : Type 0 where
  pub token : ConfigVar String
  pub region : ConfigVar String
  pub type : ConfigVar String
  pub backups : ConfigVar Bool
  pub private_networking : ConfigVar Bool
  pub tags : List (ConfigVar String)

pub record Config : Type 0 where
  pub token : String
  pub region : String
  pub type : String
  pub backups : Bool
  pub private_networking : Bool
  pub tags : List String

-- `linodego.Instance`, with the fields that are read.
pub record Linode : Type 0 where
  pub id : ℕ
  pub label : String
  pub tags : List String
  pub status : String
  pub ipv4 : List String
  pub ipv6 : String

-- `linodego.InstanceCreateOptions`
pub record InstanceCreateOptions : Type 0 where
  pub image : String
  pub label : String
  pub region : String
  pub type : String
  pub private_ip : Bool
  pub root_pass : String
  pub backups_enabled : Bool
  pub authorized_keys : List String
  pub tags : List String
  pub stack_script_id : ℕ
  pub stack_script_data : StringMap

-- The requests, each with the token of the client that makes it.
pub data Request : Type 0 where
  get_region get_type : String → String → Request
  -- with the label of the filter
  list_instances : String → String → Request
  create_instance : String → InstanceCreateOptions → Request
  wait_for_running : String → ℕ → Request
  delete_instance : String → ℕ → Request
  -- with the new tags
  update_instance : String → ℕ → List String → Request

pub record Cloud : Type 0 where
  pub decoder : Decoder Request RawConfig
  pub region : List Request → String → Outcome (Unit {0})
  pub type : List Request → String → Outcome (Unit {0})
  pub instances : List Request → String → Outcome (List Linode)
  pub created_instance : List Request → InstanceCreateOptions → Outcome Linode
  pub running_instance : List Request → ℕ → Outcome Linode
  pub deleted_instance : List Request → ℕ → Outcome (Unit {0})
  pub updated_instance : List Request → ℕ → Outcome (Unit {0})
  pub new_key : List Request → Outcome PublicKey
  -- 50 random bytes in base64
  pub random_password : List Request → Outcome String
  -- the code of a `*linodego.Error`, none for other errors
  pub error_code : Error → Option ℕ
  -- `GetUpdateOptions().Tags`
  pub update_tags : Linode → Option (List String)
  pub base64 : String → String
  pub trim_space : String → String

abbrev pub cloudinit_stack_script_id : ℕ
cloudinit_stack_script_id = 392_559

unfoldable pub get_slug_for_os : String → Outcome String
get_slug_for_os os = if os == "ubuntu" then ok "linode/ubuntu18.04" else err os_not_supported

-- The methods of `linodeInstance`
unfoldable pub instance_id : Linode → String
instance_id linode = itoa linode.id

unfoldable pub addresses : Linode → List String
addresses linode = linode.ipv4 ++ (linode.ipv6 ∷ [])

unfoldable pub status : Linode → Status
status linode =
    if has linode.status ("provisioning" ∷ "booting" ∷ [])
    then Status.creating
    else if linode.status == "running"
    then Status.running
    else if linode.status == "deleting"
    then Status.deleting
    else Status.unknown

-- The new tags in `MigrateUID`: the new UID, then all tags but the old one
unfoldable pub swapped_tags : String → String → Option (List String) → List String
swapped_tags old new none = new ∷ []
swapped_tags old new (some tags) = new ∷ keep (λ tag. not (tag == old)) tags

module _ (c : Cloud) where
  unfoldable pub linode_status_and_err_to_terminal_error : Error → Error
  linode_status_and_err_to_terminal_error e = elim (c.error_code e) [
    | none ↦ e
    | some code ↦ if nat_eq code 401 then rejected else e
  ]

  -- A request, with its error passed through `linodeStatusAndErrToTerminalError`.
  abbrev pub checked : {A : Type 0} → Act Request A → Act Request A
  checked m = attempt m pure (λ e. raise (linode_status_and_err_to_terminal_error e))

  unfoldable pub get_config : Option String → Sources → Act ConfigCall (Config × MachineConfig)
  get_config spec sources = do
    (pconfig, raw) ← decode_spec c.decoder spec
    token ←
        wrap "failed to get the value of token field"
          (get_config_var_string_value_or_env sources raw.token "LINODE_TOKEN")
    region ← get_config_var_string_value sources raw.region
    type ← get_config_var_string_value sources raw.type
    backups ← get_config_var_bool_value sources raw.backups
    private_networking ← get_config_var_bool_value sources raw.private_networking
    tags ← resolve_each sources raw.tags
    lift (
        ok (
          record {
            token = token;
            region = region;
            type = type;
            backups = backups;
            private_networking = private_networking;
            tags = tags;
          },
          pconfig,
        ))

  unfoldable pub check_config : Config → MachineConfig → Outcome (Unit {0})
  check_config config pc =
      if config.token == ""
      then err (new_error "token is missing")
      else if config.region == ""
      then err (new_error "region is missing")
      else if config.type == ""
      then err (new_error "type is missing")
      else elim (get_slug_for_os pc.operating_system) [
        | ok _ ↦ ok tt
        | err e ↦ err (Error.wrapped "invalid operating system specified" e)
        | Outcome.panicked ↦ Outcome.panicked
      ]

  unfoldable pub validate : MachineSpec → Act Request (Unit {0})
  validate spec = do
    (config, pc) ←
        wrap "failed to parse config" (configured c.decoder (get_config spec.provider_spec))
    lift (check_config config pc)
    call (get_region config.token config.region) (λ s. c.region s config.region)
    call (get_type config.token config.type) (λ s. c.type s config.type)
