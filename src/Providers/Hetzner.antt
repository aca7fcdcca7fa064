-- ===== src/Providers/Hetzner.antt =====
-- pkg/cloudprovider/provider/hetzner/provider.go. The client of hcloud-go is given by its answers.
pub mod Instances
pub mod Laws
pub mod Keys
pub mod Draining
use machine_controller.Base.{
  ℕ, String, concat, Bool, true, false, not, ◌&&◌, Option, none, some, List, [], ◌∷◌, ◌++◌, map,
  Pairs, StringMap, index, ◌==◌, nat_eq, if◌then◌else◌,
}
use machine_controller.Base.Decimal.{itoa}
use machine_controller.Outcome.{
  Error, new_error, wrapped, instance_not_found, is_instance_not_found, Outcome, ok, err, Act, pure,
  raise, call, ask, lift, attempt, wrap, finally, or_terminal, on_option, ◌>>=◌, ◌>>◌,
}
use machine_controller.Kube.{Machine, MachineSpec}
use machine_controller.ProviderConfig.Values.{ConfigVar}
use machine_controller.ProviderConfig.Resolution.{
  ConfigCall, Sources, get_config_var_string_value, get_config_var_string_value_or_env,
}
use machine_controller.Providers.Common.{
  Status, MachineConfig, PublicKey, invalid_configuration, rejected, os_not_supported, Decoder,
  decode_spec, configured, machine_config, first_that,
}

abbrev pub machine_uid_label_key : String
machine_uid_label_key = "machine-uid"

pub record RawConfig : Type 0 where
  pub token : ConfigVar String
  pub server_type : ConfigVar String
  pub datacenter : ConfigVar String
  pub location : ConfigVar String

pub record Config : Type 0 where
  pub token : String
  pub server_type : String
  pub datacenter : String
  pub location : String

-- `hcloud.Server`, with the fields that are read.
pub record Server : Type 0 where
  pub id : ℕ
  pub name : String
  pub labels : StringMap
  pub status : String
  pub floating_ips : List String
  pub ipv4 : String
  pub ipv6 : String

-- `hcloud.ServerCreateOpts`; what was looked up and does not exist is nil
pub record ServerCreateOpts : Type 0 where
  pub name : String
  pub user_data : String
  pub labels : StringMap
  pub datacenter : Option String
  pub location : Option String
  pub image : Option String
  pub server_type : Option String
  pub ssh_keys : List String

-- The requests, each with the token of the client that makes it.
pub data Request : Type 0 where
  list_servers get_server get_location get_datacenter get_image get_server_type :
      String → String → Request
  create_ssh_key : String → PublicKey → Request
  delete_ssh_key : String → String → Request
  create_server : String → ServerCreateOpts → Request
  update_server : String → Server → StringMap → Request
  delete_server : String → Server → Request

-- What the API answers; a number is the status code of the response.
pub record Cloud : Type 0 where
  pub decoder : Decoder Request RawConfig
  pub servers : List Request → String → Outcome (List Server)
  pub server : List Request → String → Outcome (Option Server)
  pub location : List Request → String → Outcome (Option String)
  pub datacenter : List Request → String → Outcome (Option String)
  pub image : List Request → String → Outcome (Option String)
  pub server_type : List Request → String → Outcome (Option String)
  pub new_key : List Request → Outcome PublicKey
  pub created_ssh_key : List Request → PublicKey → Outcome (String × ℕ)
  pub deleted_ssh_key : List Request → String → Outcome (Unit {0})
  pub created_server : List Request → ServerCreateOpts → Outcome (Server × ℕ)
  pub updated_server : List Request → Server → Outcome ℕ
  pub deleted_server : List Request → Server → Outcome ℕ
  -- `hcloud.IsError(err, "unauthorized")`
  pub is_unauthorized : Error → Bool

unfoldable pub get_name_for_os : String → Outcome String
get_name_for_os os =
    if os == "ubuntu"
    then ok "ubuntu-18.04"
    else if os == "centos"
    then ok "centos-7"
    else err os_not_supported

-- The methods of `hetznerServer`
unfoldable pub instance_id : Server → String
instance_id server = itoa server.id

unfoldable pub addresses : Server → List String
addresses server = server.floating_ips ++ (server.ipv4 ∷ server.ipv6 ∷ [])

unfoldable pub status : Server → Status
status server =
    if server.status == "initializing"
    then Status.creating
    else if server.status == "running"
    then Status.running
    else Status.unknown

-- The loop of `Get`
abbrev pub has_uid : String → Server → Bool
has_uid uid server = index machine_uid_label_key server.labels == uid

abbrev pub uid_labels : String → StringMap
uid_labels uid = some ((machine_uid_label_key, uid) ∷ [])

module _ (c : Cloud) where
  unfoldable pub hz_error_to_terminal_error : Error → String → Error
  hz_error_to_terminal_error e msg = if c.is_unauthorized e then rejected else wrapped msg e

  -- A request, with its error passed through `hzErrorToTerminalError`.
  abbrev pub checked : {A : Type 0} → String → Act Request A → Act Request A
  checked msg m = attempt m pure (λ e. raise (hz_error_to_terminal_error e msg))

  unfoldable pub get_config : Option String → Sources → Act ConfigCall (Config × MachineConfig)
  get_config spec sources = do
    (pconfig, raw) ← decode_spec c.decoder spec
    token ←
        wrap "failed to get the value of token field"
          (get_config_var_string_value_or_env sources raw.token "HZ_TOKEN")
    server_type ← get_config_var_string_value sources raw.server_type
    datacenter ← get_config_var_string_value sources raw.datacenter
    location ← get_config_var_string_value sources raw.location
    lift (
        ok (
          record {
            token = token;
            server_type = server_type;
            datacenter = datacenter;
            location = location;
          },
          pconfig,
        ))

  -- The two checks of `Validate` on places
  unfoldable pub check_place :
      String → Act Request (Option String) → String → Act Request (Unit {0})
  check_place place look_up text =
      if place == "" then pure tt else (wrap text look_up >>= λ _. pure tt)

  unfoldable pub look_up_location : Config → Act Request (Option String)
  look_up_location config =
      call (get_location config.token config.location) (λ s. c.location s config.location)

  unfoldable pub look_up_datacenter : Config → Act Request (Option String)
  look_up_datacenter config =
      call (get_datacenter config.token config.datacenter) (λ s. c.datacenter s config.datacenter)

  unfoldable pub look_up_server_type : Config → Act Request (Option String)
  look_up_server_type config =
      call (get_server_type config.token config.server_type)
        (λ s. c.server_type s config.server_type)

  unfoldable pub validate_places : Config → Act Request (Unit {0})
  validate_places config =
      if not (config.location == "") && not (config.datacenter == "")
      then raise (new_error "location and datacenter must not be set at the same time")
      else (check_place config.location (look_up_location config) "failed to get location"
          >> check_place config.datacenter (look_up_datacenter config) "failed to get datacenter"
          >> (wrap "failed to get server type" (look_up_server_type config) >>= λ _. pure tt))

  unfoldable pub validate : MachineSpec → Act Request (Unit {0})
  validate spec = do
    (config, pc) ←
        wrap "failed to parse config" (configured c.decoder (get_config spec.provider_spec))
    if config.token == ""
        then raise (new_error "token is missing")
        else (wrap "invalid/not supported operating system specified"
              (lift (get_name_for_os pc.operating_system))
            >>= λ _. validate_places config)
