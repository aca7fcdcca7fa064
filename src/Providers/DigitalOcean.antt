-- ===== src/Providers/DigitalOcean.antt =====
-- pkg/cloudprovider/provider/digitalocean/provider.go. The client of godo is given by its answers.
pub mod Instances
pub mod Laws
pub mod Keys
use machine_controller.Base.{
  ℕ, String, Bool, true, false, not, ◌&&◌, Option, none, some, List, [], ◌∷◌, ◌++◌, map, any, Pairs,
  ◌==◌, nat_eq, ltb, if◌then◌else◌,
}
use machine_controller.Base.Decimal.{itoa, atoi}
use machine_controller.Outcome.{
  Error, new_error, wrapped, instance_not_found, is_instance_not_found, is_terminal_error, Outcome,
  ok, err, panicked, Act, pure, raise, panic, call, ask, lift, deref, attempt, wrap, finally,
  or_terminal, on_option, ◌>>=◌, ◌>>◌,
}
use machine_controller.Kube.{Machine, MachineSpec}
use machine_controller.Kube.Sets.{has}
use machine_controller.ProviderConfig.Values.{ConfigVar}
use machine_controller.ProviderConfig.Resolution.{
  ConfigCall, Sources, get_config_var_string_value, get_config_var_string_value_or_env,
  get_config_var_bool_value,
}
use machine_controller.Providers.Common.{
  Status, MachineConfig, PublicKey, invalid_configuration, rejected, os_not_supported, Decoder,
  decode_spec, configured, machine_config, first_that, resolve_each,
}

pub record RawConfig : Type 0 where
  pub token : ConfigVar String
  pub region : ConfigVar String
  pub size : ConfigVar String
  pub backups : ConfigVar Bool
  pub ipv6 : ConfigVar Bool
  pub private_networking : ConfigVar Bool
  pub monitoring : ConfigVar Bool
  pub tags : List (ConfigVar String)

pub record Config : Type 0 where
  pub token : String
  pub region : String
  pub size : String
  pub backups : Bool
  pub ipv6 : Bool
  pub private_networking : Bool
  pub monitoring : Bool
  pub tags : List String

-- `godo.Droplet`, with the fields that are read.
pub record Droplet : Type 0 where
  pub id : ℕ
  pub name : String
  pub tags : List String
  pub status : String
  pub v4 : List String
  pub v6 : List String

-- `godo.Size`
pub record Size : Type 0 where
  pub slug : String
  pub available : Bool
  pub regions : List String

-- `godo.DropletCreateRequest`
pub record DropletCreateRequest : Type 0 where
  pub image : String
  pub name : String
  pub region : String
  pub size : String
  pub ipv6 : Bool
  pub private_networking : Bool
  pub backups : Bool
  pub monitoring : Bool
  pub user_data : String
  pub ssh_keys : List String
  pub tags : List String

-- The requests, each with the token of the client that makes it.
pub data Request : Type 0 where
  list_regions list_sizes list_droplets : String → Request
  get_key_by_fingerprint delete_key_by_fingerprint : String → String → Request
  create_key : String → PublicKey → Request
  create_droplet : String → DropletCreateRequest → Request
  get_droplet delete_droplet : String → ℕ → Request
  create_tag : String → String → Request
  -- with the tag and the droplet's id
  tag_resource untag_resource : String → String → String → Request

-- The status code of the `*godo.Response`, none where that is nil, and the result or error.
pub record Reply (A : Type 0) : Type 0 where
  pub code : Option ℕ
  pub result : Outcome A

pub record Cloud : Type 0 where
  pub decoder : Decoder Request RawConfig
  pub regions : List Request → Outcome (List String)
  pub sizes : List Request → Outcome (List Size)
  pub droplets : List Request → Reply (List Droplet)
  pub key : List Request → String → Reply (Option String)
  pub created_key : List Request → PublicKey → Reply String
  pub deleted_key : List Request → String → Outcome (Unit {0})
  pub created_droplet : List Request → DropletCreateRequest → Reply Droplet
  pub droplet : List Request → ℕ → Reply Droplet
  pub deleted_droplet : List Request → ℕ → Reply (Unit {0})
  pub created_tag : List Request → String → Reply (Unit {0})
  pub tagged : List Request → String → String → Outcome (Unit {0})
  pub untagged : List Request → String → String → Outcome (Unit {0})
  pub new_key : List Request → Outcome PublicKey
  -- `wait.Poll`
  pub poll : Act Request Bool → Act Request (Unit {0})

unfoldable pub get_slug_for_os : String → Outcome String
get_slug_for_os os =
    if os == "ubuntu"
    then ok "ubuntu-18-04-x64"
    else if os == "coreos"
    then ok "coreos-stable"
    else if os == "centos"
    then ok "centos-7-x64"
    else err os_not_supported

-- The methods of `doInstance`
unfoldable pub instance_id : Droplet → String
instance_id droplet = itoa droplet.id

unfoldable pub addresses : Droplet → List String
addresses droplet = droplet.v4 ++ droplet.v6

unfoldable pub status : Droplet → Status
status droplet =
    if droplet.status == "new"
    then Status.creating
    else if droplet.status == "active"
    then Status.running
    else Status.unknown

unfoldable pub do_status_and_err_to_terminal_error : ℕ → Error → Error
do_status_and_err_to_terminal_error code e = if nat_eq code 401 then rejected else e

-- `if err != nil { return doStatusAndErrToTerminalError(rsp.StatusCode, explain(err)) }`, where
-- a nil response panics
unfoldable pub check_reply : {A : Type 0} → (Error → Error) → Option ℕ → Outcome A → Act Request A
check_reply explain code (ok a) = pure a
check_reply explain code (err e) = deref code >>= λ status_code.
    raise (do_status_and_err_to_terminal_error status_code (explain e))
check_reply explain code panicked = panic

abbrev pub send :
    {A : Type 0} → (Error → Error) → Request → (List Request → Reply A) → Act Request A
send explain request answer =
    call request (λ s. ok (answer s)) >>= λ reply. check_reply explain reply.code reply.result

-- The loop of `Validate` over the sizes
unfoldable pub check_size : Config → List Size → Outcome (Unit {0})
check_size config [] = err (new_error "size not found")
check_size config (size ∷ sizes) =
    let rest = check_size config sizes in
    if size.slug == config.size
    then (if not size.available
        then err (new_error "size is not available")
        else if any (λ region. region == config.region) size.regions
        then ok tt
        else err (new_error "size is not available in region"))
    else rest

abbrev pub is_machine_droplet : Machine → Droplet → Bool
is_machine_droplet machine droplet =
    droplet.name == machine.spec.name && has machine.uid droplet.tags

module _ (c : Cloud) where
  unfoldable pub get_config : Option String → Sources → Act ConfigCall (Config × MachineConfig)
  get_config spec sources = do
    (pconfig, raw) ← decode_spec c.decoder spec
    token ←
        wrap "failed to get the value of token field"
          (get_config_var_string_value_or_env sources raw.token "DO_TOKEN")
    region ← get_config_var_string_value sources raw.region
    size ← get_config_var_string_value sources raw.size
    backups ← get_config_var_bool_value sources raw.backups
    ipv6 ← get_config_var_bool_value sources raw.ipv6
    private_networking ← get_config_var_bool_value sources raw.private_networking
    monitoring ← get_config_var_bool_value sources raw.monitoring
    tags ← resolve_each sources raw.tags
    lift (
        ok (
          record {
            token = token;
            region = region;
            size = size;
            backups = backups;
            ipv6 = ipv6;
            private_networking = private_networking;
            monitoring = monitoring;
            tags = tags;
          },
          pconfig,
        ))

  unfoldable pub check_config : Config → MachineConfig → Outcome (Unit {0})
  check_config config pc =
      if config.token == ""
      then err (new_error "token is missing")
      else if config.region == ""
      then err (new_error "region is missing")
      else if config.size == ""
      then err (new_error "size is missing")
      else elim (get_slug_for_os pc.operating_system) [
        | ok _ ↦ ok tt
        | err e ↦ err (wrapped "invalid operating system specified" e)
        | panicked ↦ panicked
      ]

  unfoldable pub validate : MachineSpec → Act Request (Unit {0})
  validate spec = do
    (config, pc) ←
        wrap "failed to parse config" (configured c.decoder (get_config spec.provider_spec))
    lift (check_config config pc)
    regions ← call (list_regions config.token) c.regions
    lift (
        if any (λ region. region == config.region) regions
        then ok tt
        else err (new_error "region not found"))
    sizes ← call (list_sizes config.token) c.sizes
    lift (check_size config sizes)
