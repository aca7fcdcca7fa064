-- ===== src/Providers/Azure.antt =====
-- pkg/cloudprovider/provider/azure/provider.go and get_client.go: the configuration, its check, and
-- the requests to Azure. The clients of azure-sdk-for-go are given by their answers.
pub mod Settings
pub mod Resources
pub mod Machines
pub mod Laws
pub mod Finalizers
pub mod Creation
pub mod Deletion
pub mod Listing
pub mod Sweeping
pub mod Releasing
pub mod Tagging
use Prim.Native.Char.{code}
use machine_controller.Base.{
  ◌==◌, concat, nat_eq, if◌then◌else◌, all, Pairs, String, Bool, false, not, ◌&&◌, Option, none,
  some, List, [], ◌∷◌, map,
}
use machine_controller.Outcome.{
  Error, new_error, Outcome, ok, err, Act, pure, lift, call, query, ◌>>=◌, ◌>>◌, wrap,
}
use machine_controller.Kube.{MachineSpec, Machine, other}
use machine_controller.ProviderConfig.Values.{ConfigVar, codes}
use machine_controller.ProviderConfig.Resolution.{
  ConfigCall, Sources, get_config_var_string_value, get_config_var_bool_value,
}
use machine_controller.Providers.Common.{MachineConfig, PublicKey, Decoder, decode_spec, configured}

abbrev pub machine_uid_tag : String
machine_uid_tag = "Machine-UID"

abbrev pub finalizer_public_ip : String
finalizer_public_ip = "kubermatic.io/cleanup-azure-public-ip"

abbrev pub finalizer_nic : String
finalizer_nic = "kubermatic.io/cleanup-azure-nic"

abbrev pub finalizer_disks : String
finalizer_disks = "kubermatic.io/cleanup-azure-disks"

abbrev pub finalizer_vm : String
finalizer_vm = "kubermatic.io/cleanup-azure-vm"

pub record RawConfig : Type 0 where
  pub subscription_id : ConfigVar String
  pub tenant_id : ConfigVar String
  pub client_id : ConfigVar String
  pub client_secret : ConfigVar String
  pub location : ConfigVar String
  pub resource_group : ConfigVar String
  pub vm_size : ConfigVar String
  pub vnet_name : ConfigVar String
  pub subnet_name : ConfigVar String
  pub route_table_name : ConfigVar String
  pub availability_set : ConfigVar String
  pub security_group_name : ConfigVar String
  pub assign_public_ip : ConfigVar Bool
  pub tags : Pairs

-- `config`
pub record Config : Type 0 where
  pub subscription_id : String
  pub tenant_id : String
  pub client_id : String
  pub client_secret : String
  pub location : String
  pub resource_group : String
  pub vm_size : String
  pub vnet_name : String
  pub subnet_name : String
  pub route_table_name : String
  pub availability_set : String
  pub security_group_name : String
  pub assign_public_ip : Bool
  pub tags : Pairs

-- `map[string]*string`, where `none` is the nil map
abbrev pub Tags : Type 0
Tags = Option (List (String × Option String))

-- `Tags[k]`, where a missing key reads as nil
unfoldable pub tag_of : String → List (String × Option String) → Option String
tag_of k [] = none
tag_of k ((j, v) ∷ tags) = let rest = tag_of k tags in if j == k then v else rest

-- `tags[k] = to.StringPtr(v)`
unfoldable pub put_tag :
    String → String → List (String × Option String) → List (String × Option String)
put_tag k v [] = (k, some v) ∷ []
put_tag k v ((j, w) ∷ tags) =
    let rest = put_tag k v tags in if j == k then (k, some v) ∷ tags else (j, w) ∷ rest

-- `x.Tags != nil && x.Tags[machineUIDTag] != nil && *x.Tags[machineUIDTag] == uid`
unfoldable pub has_uid : String → Tags → Bool
has_uid uid none = false
has_uid uid (some tags) = elim (tag_of machine_uid_tag tags) [ none ↦ false | some v ↦ v == uid ]

-- The tags of a new resource
unfoldable pub uid_tags : String → Tags
uid_tags uid = some ((machine_uid_tag, some uid) ∷ [])

-- The copy of the configured tags, with the UID's tag set in it
unfoldable pub vm_tags : Pairs → String → Tags
vm_tags pairs uid = some (put_tag machine_uid_tag uid (map (λ (k, v). (k, some v)) pairs))

-- A network interface, a public IP address or a disk as it is listed
pub record Resource : Type 0 where
  pub name : Option String
  pub tags : Tags

-- `compute.VirtualMachine`; each pointer that may be nil is an option.
pub record NetworkProfile : Type 0 where
  -- the IDs of `NetworkInterfaces`
  pub network_interfaces : Option (List (Option String))

pub record VmProperties : Type 0 where
  pub network_profile : Option NetworkProfile

pub record Vm : Type 0 where
  pub id : Option String
  pub name : Option String
  pub tags : Tags
  pub properties : Option VmProperties

pub record IpConfiguration : Type 0 where
  pub id : Option String
  pub name : Option String

-- `network.Interface` as it is read
pub record Nic : Type 0 where
  pub id : Option String
  pub ip_configurations : Option (List IpConfiguration)

pub record AddressConfiguration : Type 0 where
  -- `PublicIPAddress`, and its `IPAddress`
  pub public_ip_address : Option (Option String)
  pub private_ip_address : Option String

-- `network.PublicIPAddress` as it is read
pub record PublicIp : Type 0 where
  pub id : Option String
  pub ip_configuration : Option AddressConfiguration

-- The parameters of the three resources that are created
pub record IpParams : Type 0 where
  pub name : String
  pub location : String
  pub tags : Tags

pub record NicParams : Type 0 where
  pub name : String
  pub location : String
  pub subnet : String
  pub public_ip : Option PublicIp
  pub tags : Tags

pub record ImageReference : Type 0 where
  pub publisher : String
  pub offer : String
  pub sku : String
  pub version : String

pub record VmProfile : Type 0 where
  pub vm_size : String
  pub network_interface : Option String
  pub admin_username : String
  pub computer_name : String
  pub key_data : String
  pub custom_data : String
  pub image_reference : ImageReference
  -- the ID of `AvailabilitySet`
  pub availability_set : Option String

pub record VmParams : Type 0 where
  pub location : String
  pub properties : Option VmProfile
  pub tags : Tags

pub data Kind : Type 0 where
  nic public_ip disk vm : Kind

-- The requests to Azure, which name a resource group and a resource, and the writes of the machine.
pub data Request : Type 0 where
  list_nics list_public_ips : String → Request
  list_disks list_vms : Request
  get_subnet get_virtual_network : Request
  get_nic get_public_ip get_vm instance_view : String → String → Request
  create_public_ip : String → IpParams → Request
  create_nic : String → NicParams → Request
  create_vm : String → String → VmParams → Request
  update_disk : String → String → Tags → Request
  -- `future.WaitForCompletion`
  wait_created : Kind → String → Request
  delete_resource : Kind → String → String → Request
  wait_deleted : Kind → String → Request
  add_machine_finalizer drop_machine_finalizer : String → Request

-- A list that is read page by page: reading on may fail.
pub data Pages (A : Type 0) : Type 0 where
  done : Pages A
  page : List A → Pages A → Pages A
  broken : List A → Error → Pages A

pub record Cloud : Type 0 where
  pub decoder : Decoder Request RawConfig
  -- `auth.NewClientCredentialsConfig(...).Authorizer()`
  pub authorizer : List Request → Config → Outcome (Unit {0})
  pub nics : List Request → Outcome (Pages Resource)
  pub public_ips : List Request → Outcome (Pages Resource)
  pub disks : List Request → Outcome (Pages Resource)
  pub vms : List Request → Outcome (Pages Vm)
  -- the subnet's ID
  pub subnet : List Request → Outcome String
  pub virtual_network : List Request → Outcome (Unit {0})
  pub nic : List Request → String → Outcome Nic
  pub public_ip : List Request → String → Outcome PublicIp
  pub vm : List Request → String → Outcome Vm
  -- the codes of `Statuses`; the nil slice is `none`
  pub statuses : List Request → String → Outcome (Option (List (Option String)))
  pub started : List Request → Kind → String → Outcome (Unit {0})
  pub completed : List Request → Kind → String → Outcome (Unit {0})
  -- `future.Result`
  pub creation_result : List Request → Kind → String → Outcome (Unit {0})
  -- `data.Updater`: the machine as it was written
  pub updated : List Request → Machine → (Machine → Machine) → Outcome Machine
  pub new_key : List Request → Outcome PublicKey
  pub base64 : String → String
  -- `CloudConfigToString`
  pub cloud_config_to_string : Config → Outcome String
  -- the sort of `RemoveFinalizer`
  pub sorted : List String → List String
