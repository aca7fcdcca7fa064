-- ===== src/Providers/Packet.antt =====
-- pkg/cloudprovider/provider/packet/provider.go. The client of packngo is given by its answers.
pub mod Instances
pub mod Tags
pub mod Laws
use Prim.Native.Char.{code}
use machine_controller.Base.{
  ℕ, String, concat, Bool, true, false, not, ◌&&◌, ◌||◌, Option, none, some, is_some, List, [], ◌∷◌,
  ◌++◌, map, any, keep, length, Pairs, StringMap, put, find, ◌==◌, nat_eq, ltb, if◌then◌else◌,
}
use machine_controller.Outcome.{
  Error, new_error, wrapped, instance_not_found, is_instance_not_found, Outcome, ok, err, panicked,
  Act, pure, raise, panic, call, ask, lift, deref, attempt, wrap, or_terminal, on_option, ◌>>=◌,
  ◌>>◌,
}
use machine_controller.Kube.{Machine, MachineSpec}
use machine_controller.ProviderConfig.Values.{ConfigVar}
use machine_controller.ProviderConfig.Resolution.{
  ConfigCall, Sources, get_config_var_string_value, get_config_var_string_value_or_env,
}
use machine_controller.Providers.Common.{
  Status, MachineConfig, invalid_configuration, rejected, os_not_supported, Decoder, decode_spec,
  configured, machine_config, first_that, resolve_each,
}

abbrev pub machine_uid_tag : String
machine_uid_tag = "kubermatic-machine-controller:machine-uid"

abbrev pub default_billing_cycle : String
default_billing_cycle = "hourly"

pub record RawConfig : Type 0 where
  pub api_key : ConfigVar String
  pub project_id : ConfigVar String
  pub billing_cycle : ConfigVar String
  pub instance_type : ConfigVar String
  pub facilities : List (ConfigVar String)
  pub tags : List (ConfigVar String)

pub record Config : Type 0 where
  pub api_key : String
  pub project_id : String
  pub billing_cycle : String
  pub instance_type : String
  pub facilities : List String
  pub tags : List String

-- `packngo.Device`, with the fields that are read.
pub record Device : Type 0 where
  pub id : String
  pub hostname : String
  pub tags : List String
  pub state : String
  pub network : List String

-- `packngo.DeviceCreateRequest`
pub record DeviceCreateRequest : Type 0 where
  pub hostname : String
  pub user_data : String
  pub project_id : String
  pub facility : List String
  pub billing_cycle : String
  pub plan : String
  pub os : String
  pub tags : List String

-- The requests, each with the API key of the client that makes it.
pub data Request : Type 0 where
  list_facilities list_plans : String → Request
  list_devices : String → String → Request
  create_device : String → DeviceCreateRequest → Request
  update_device : String → String → List String → Request
  delete_device : String → String → Request

-- The status code of the `*packngo.Response`, none where a part of that is nil, and the result.
pub record Reply (A : Type 0) : Type 0 where
  pub code : Option ℕ
  pub result : Outcome A

pub record Cloud : Type 0 where
  pub decoder : Decoder Request RawConfig
  -- the codes of the facilities, the names of the plans
  pub facilities : List Request → Outcome (List String)
  pub plans : List Request → Outcome (List String)
  pub devices : List Request → String → Reply (List Device)
  pub created_device : List Request → DeviceCreateRequest → Reply Device
  pub updated_device : List Request → String → Reply (Unit {0})
  pub deleted_device : List Request → String → Reply (Unit {0})
  -- `json.Marshal`
  pub encode : MachineConfig → Outcome String
  pub encode_raw : RawConfig → Outcome String

unfoldable pub get_name_for_os : String → Outcome String
get_name_for_os os =
    if os == "ubuntu"
    then ok "ubuntu_18_04"
    else if os == "centos"
    then ok "centos_7"
    else if os == "coreos"
    then ok "coreos_stable"
    else err os_not_supported

-- The methods of `packetDevice`
unfoldable pub status : Device → Status
status device =
    if device.state == "provisioning"
    then Status.creating
    else if device.state == "active"
    then Status.running
    else Status.unknown

unfoldable pub generate_tag : String → String
generate_tag id = concat machine_uid_tag (concat ":" id)

-- `strings.Split(s, ":")`: the first part, and the parts after it
unfoldable pub split : String → String × List String
split String.[] = ("", [])
split (String.◌∷◌ c s) =
    let (part, parts) = split s in
    if nat_eq (code c) 58 then ("", part ∷ parts) else (String.◌∷◌ c part, parts)

abbrev pub tag_uid_of : String × List String → Outcome String
tag_uid_of (first, []) = err (new_error "not a machine UID tag")
tag_uid_of (first, uid ∷ _) =
    if first == machine_uid_tag then ok uid else err (new_error "not a machine UID tag")

unfoldable pub get_tag_uid : String → Outcome String
get_tag_uid tag = tag_uid_of (split tag)

unfoldable pub item_in_list : List String → String → Bool
item_in_list list item = any (λ x. x == item) list

-- `listMap[item] = true` for each item of the list
unfoldable pub list_map : List String → Pairs → Pairs
list_map [] m = m
list_map (item ∷ items) m = list_map items (put item "true" m)

unfoldable pub items_not_in_list : List String → List String → List String
items_not_in_list list items = keep (λ item. not (is_some (find item (list_map list [])))) items

-- The two methods `populateDefaults`
unfoldable pub populate_defaults : Config → Config
populate_defaults config =
    if config.billing_cycle == ""
    then record config { billing_cycle = default_billing_cycle }
    else config

unfoldable pub populate_raw_defaults : RawConfig → RawConfig
populate_raw_defaults raw =
    if raw.billing_cycle.value == ""
    then record raw { billing_cycle = record (raw.billing_cycle) { value = default_billing_cycle } }
    else raw

unfoldable pub check_config : Config → MachineConfig → Outcome (Unit {0})
check_config config pc =
    if config.api_key == ""
    then err (new_error "apiKey is missing")
    else if config.instance_type == ""
    then err (new_error "instanceType is missing")
    else if config.project_id == ""
    then err (new_error "projectID is missing")
    else elim (get_name_for_os pc.operating_system) [
      | ok _ ↦ ok tt
      | err e ↦ err (wrapped "invalid/not supported operating system specified" e)
      | panicked ↦ panicked
    ]

unfoldable pub check_facilities : List String → Outcome (Unit {0})
check_facilities [] = err (new_error "must have at least one non-blank facility")
check_facilities (facility ∷ _) =
    if facility == "" then err (new_error "must have at least one non-blank facility") else ok tt

-- `if missing := itemsNotInList(list, items); len(missing) > 0`
unfoldable pub check_items : String → List String → List String → Outcome (Unit {0})
check_items text list items =
    if ltb 0 (length (items_not_in_list list items)) then err (new_error text) else ok tt

unfoldable pub packet_error_to_terminal_error : Error → Option ℕ → String → Error
packet_error_to_terminal_error e none msg = wrapped msg e
packet_error_to_terminal_error e (some code) msg =
    if nat_eq code 403 then rejected else wrapped msg e

-- `if err != nil { return packetErrorToTerminalError(err, res, msg) }`
unfoldable pub check_reply : {A : Type 0} → String → Option ℕ → Outcome A → Act Request A
check_reply msg code (ok a) = pure a
check_reply msg code (err e) = raise (packet_error_to_terminal_error e code msg)
check_reply msg code panicked = panic

abbrev pub send : {A : Type 0} → String → Request → (List Request → Reply A) → Act Request A
send msg request answer =
    call request (λ s. ok (answer s)) >>= λ reply. check_reply msg reply.code reply.result

unfoldable pub create_request : Machine → String → Config → String → DeviceCreateRequest
create_request machine user_data config image_name = record {
  hostname = machine.spec.name;
  user_data = user_data;
  project_id = config.project_id;
  facility = config.facilities;
  billing_cycle = config.billing_cycle;
  plan = config.instance_type;
  os = image_name;
  tags = generate_tag machine.uid ∷ [];
}

-- The tags that `MigrateUID` gives the device
unfoldable pub migrated_tags : String → List String → List String
migrated_tags new tags =
    keep (λ tag. elim (get_tag_uid tag) [ ok _ ↦ false | _ ↦ true ]) tags ++ (generate_tag new ∷ [])

module _ (c : Cloud) where
  unfoldable pub get_config :
      Option String → Sources → Act ConfigCall (Config × RawConfig × MachineConfig)
  get_config spec sources = do
    (pconfig, raw) ← decode_spec c.decoder spec
    api_key ←
        wrap "failed to get the value of apiKey field"
          (get_config_var_string_value_or_env sources raw.api_key "PACKET_API_KEY")
    project_id ←
        wrap "failed to get the value of projectID field"
          (get_config_var_string_value_or_env sources raw.project_id "PACKET_PROJECT_ID")
    instance_type ←
        wrap "failed to get the value of instanceType field"
          (get_config_var_string_value sources raw.instance_type)
    billing_cycle ←
        wrap "failed to get the value of billingCycle field"
          (get_config_var_string_value sources raw.billing_cycle)
    tags ← wrap "failed to read the value for a tag" (resolve_each sources raw.tags)
    facilities ←
        wrap "failed to read the value for a facility" (resolve_each sources raw.facilities)
    lift (
        ok (
          populate_defaults record {
            api_key = api_key;
            project_id = project_id;
            billing_cycle = billing_cycle;
            instance_type = instance_type;
            facilities = facilities;
            tags = tags;
          },
          raw,
          pconfig,
        ))

  unfoldable pub validate : MachineSpec → Act Request (Unit {0})
  validate spec = do
    (config, raw, pc) ←
        wrap "failed to parse config" (configured c.decoder (get_config spec.provider_spec))
    lift (check_config config pc)
    lift (check_facilities config.facilities)
    facilities ←
        wrap "failed to list facilities" (call (list_facilities config.api_key) c.facilities)
    lift (check_items "unknown facilities" facilities config.facilities)
    plans ← wrap "failed to list instance types / plans" (call (list_plans config.api_key) c.plans)
    lift (check_items "unknown instance type / plan" plans (config.instance_type ∷ []))

  unfoldable pub set_provider_spec : RawConfig → Option String → Outcome (Option String)
  set_provider_spec raw none = err (new_error "machine.spec.providerconfig.value is nil")
  set_provider_spec raw (some spec) = elim (c.decoder.decode spec) [
    | err e ↦ err e
    | panicked ↦ panicked
    | ok pconfig ↦ elim (c.encode_raw raw) [
      | err e ↦ err e
      | panicked ↦ panicked
      | ok text ↦ elim (c.encode (record pconfig { cloud_provider_spec = text })) [
        | err e ↦ err e
        | panicked ↦ panicked
        | ok value ↦ ok (some value)
      ]
    ]
  ]

  unfoldable pub add_defaults : MachineSpec → Act Request MachineSpec
  add_defaults spec = do
    (config, raw, pc) ← configured c.decoder (get_config spec.provider_spec)
    value ← lift (set_provider_spec (populate_raw_defaults raw) spec.provider_spec)
    pure (record spec { provider_spec = value })
